-- ===== src/Storageos/Mock.antt =====
-- internal/pkg/storageos/mock_client.go: a client of the StorageOS API that keeps its objects in
-- memory. A map is the list of its entries; a pointer to a shared volume is a number, and what it
-- points to stands in the heap, so that two holders of a pointer see the same volume. The locks are
-- left out: each method is one step. So are the random volumes.
pub mod Objects
pub mod Shared
pub mod Laws
pub mod Agreement
use api_manager.Base.{
  ℕ, suc, String, Bool, true, false, Option, none, some, List, [], ◌∷◌, ◌++◌, ◌==◌, ◌||◌, ◌<>◌, not,
  map, eqb, if◌then◌else◌, String-discrete,
}
use api_manager.Base.Dict.{Dict, lookup, insert, only}
use api_manager.Go.Maps.{StringMap}
use api_manager.Labels.{
  is_reserved_label, reserved_label_compute_only, reserved_label_replicas,
  reserved_label_failure_mode,
}
use api_manager.Storageos.Index.{same_key}
use api_manager.Storageos.Node.{NodeHealth, node_health_online, node_health_offline}
use api_manager.Storageos.SharedVolume.{SharedVolume}
use api_manager.World.Errors.{
  Error, Result, ok, err, error_or_nil, node_not_found, namespace_not_found, volume_not_found,
  message, reserved_label_unknown,
}
use api_manager.World.Objects.{ObjectKey}

pub record MockObject : Type 0 where
  pub id : String
  pub name : String
  pub namespace : String
  pub labels : StringMap
  pub healthy : Bool

-- A map from object keys.
abbrev pub Keyed : Type 0 → Type 0
Keyed A = List (ObjectKey × A)

module _ {A : Type 0} where
  unfoldable pub find : ObjectKey → Keyed A → Option A
  unfolding String-discrete
  find k [] = none
  find k ((j, a) ∷ m) = if same_key j k then some a else find k m

  unfoldable pub remove : ObjectKey → Keyed A → Keyed A
  unfolding String-discrete
  remove k [] = []
  remove k ((j, a) ∷ m) = let rest = remove k m in if same_key j k then rest else (j, a) ∷ rest

  abbrev pub put : ObjectKey → A → Keyed A → Keyed A
  put k a m = (k, a) ∷ remove k m

abbrev pub Pointer : Type 0
Pointer = ℕ

-- The errors that a test configures.
pub record MockErrors : Type 0 where
  pub list_namespaces : Option Error
  pub delete_namespace : Option Error
  pub get_node : Option Error
  pub node_objects : Option Error
  pub list_nodes : Option Error
  pub delete_node : Option Error
  pub ensure_node_labels : Option Error
  pub get_node_labels : Option Error
  pub get_volume : Option Error
  pub volume_objects : Option Error
  pub ensure_volume_labels : Option Error
  pub shared_vols : Option Error
  pub shared_vol : Option Error
  pub set_endpoint : Option Error

pub record MockClient : Type 0 where
  pub heap : Pointer → SharedVolume
  pub sharedvols : Dict Pointer
  pub namespaces : Keyed MockObject
  pub nodes : Keyed MockObject
  pub volumes : Keyed MockObject
  pub node_labels : Dict String
  pub delete_namespace_calls : ObjectKey → ℕ
  pub delete_node_calls : ObjectKey → ℕ
  pub errors : MockErrors

abbrev no_errors : MockErrors
no_errors = record {
  list_namespaces = none;
  delete_namespace = none;
  get_node = none;
  node_objects = none;
  list_nodes = none;
  delete_node = none;
  ensure_node_labels = none;
  get_node_labels = none;
  get_volume = none;
  volume_objects = none;
  ensure_volume_labels = none;
  shared_vols = none;
  shared_vol = none;
  set_endpoint = none;
}

abbrev pub new_mock_client : (Pointer → SharedVolume) → MockClient
new_mock_client heap = record {
  heap = heap;
  sharedvols = [];
  namespaces = [];
  nodes = [];
  volumes = [];
  node_labels = [];
  delete_namespace_calls = λ k. 0;
  delete_node_calls = λ k. 0;
  errors = no_errors;
}

abbrev pub Mocked : Type 0 → Type 0
Mocked A = MockClient → Result A × MockClient

-- `if c.…Err != nil { return c.…Err }`
abbrev pub unless :
    {A : Type 0} → Option Error → MockClient → Result A × MockClient → Result A × MockClient
unless none c r = r
unless (some e) c r = (err e, c)

abbrev pub found_or : {A : Type 0} → Error → Option A → Result A
found_or e none = err e
found_or e (some a) = ok a

abbrev pub exists : {A : Type 0} → Option A → Bool
exists none = false
exists (some a) = true

-- One label: it is kept, or there is an error.
abbrev pub keep_label :
    (accepted : String → Bool)
    → Dict String × List Error
    → String
    → String
    → Dict String × List Error
keep_label accepted d k v =
    if not (is_reserved_label k) || accepted k
    then (insert k v d.0, d.1)
    else (d.0, d.1 ++ reserved_label_unknown ∷ [])

-- The loop over the labels: those that are kept, and the errors.
unfoldable pub kept_labels :
    (accepted : String → Bool) → Dict String × List Error → Dict String → Dict String × List Error
kept_labels accepted d [] = d
kept_labels accepted d ((k, v) ∷ labels) = kept_labels accepted (keep_label accepted d k v) labels

abbrev pub accepted_of_node : String → Bool
accepted_of_node k = k == reserved_label_compute_only

abbrev pub accepted_of_volume : String → Bool
accepted_of_volume k = k == reserved_label_replicas || k == reserved_label_failure_mode

-- `Reset`: not the volumes, and not each error.
unfoldable pub reset : MockClient → MockClient
reset c = record c {
  sharedvols = [];
  namespaces = [];
  nodes = [];
  node_labels = [];
  delete_namespace_calls = λ k. 0;
  delete_node_calls = λ k. 0;
  errors = record c.errors {
    list_namespaces = none;
    delete_namespace = none;
    list_nodes = none;
    delete_node = none;
    ensure_node_labels = none;
    get_node_labels = none;
    shared_vol = none;
    shared_vols = none;
    set_endpoint = none;
  };
}
