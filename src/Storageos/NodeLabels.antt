-- ===== src/Storageos/NodeLabels.antt =====
-- internal/pkg/storageos/node_labels.go: the labels of a Kubernetes node, applied to the StorageOS
-- node.
pub mod Collect
pub mod Updates
use api_manager.World.Calls
use api_manager.World.Client
use api_manager.Base.{
  ◌||◌, ◌==◌, some, ◌∷◌, none, if◌then◌else◌, false, true, ◌++◌, not, List, Option, Bool, String,
  [],
}
use api_manager.Base.Dict.{insert, Dict}
use api_manager.World.Errors.{
  parsed_result, node_not_found, reserved_label_unknown, reserved_label_invalid, error_or_nil,
  number, wrapped, ok, Result, Error,
}
use api_manager.World.Env.{Env}
use api_manager.World.Objects.{ObjectKey}
use api_manager.Go.Strconv.{parse_bool, Parsed}
use api_manager.Go.Maps.{get, entries, StringMap}
use api_manager.World.Monad.{pure, lift, ◌>>=◌, M}
use api_manager.Labels.{
  reserved_label_replicas, reserved_label_failure_mode, reserved_label_no_compress,
  reserved_label_compute_only, reserved_label_no_cache, is_reserved_label,
}
use api_manager.Storageos.Node.{get_node_by_key}
use api_manager.Storageos.VolumeLabels.{apply_labels, unchanged, noting}

-- What the loop of `EnsureNodeLabels` has collected.
pub record DesiredNode : Type 0 where
  pub unreserved : Dict String
  pub compute_only : Bool
  pub errors : List Error

abbrev pub no_node_labels : DesiredNode
no_node_labels = record { unreserved = []; compute_only = false; errors = [] }

abbrev pub refuse_node_label : DesiredNode → String → Error → DesiredNode
refuse_node_label d k e = record d { errors = d.errors ++ wrapped k e ∷ [] }

-- `computeOnly, err = strconv.ParseBool(v)`: the value is kept beside an error.
unfoldable pub with_compute_only : DesiredNode → String → Parsed Bool → DesiredNode
with_compute_only d k r = elim r.error [
  | none ↦ record d { compute_only = r.value }
  | some e ↦ refuse_node_label (record d { compute_only = r.value }) k (number e)
]

-- The switch on one label.
unfoldable pub node_label : DesiredNode → String → String → DesiredNode
unfolding with_compute_only
node_label d k v =
    if not (is_reserved_label k)
    then record d { unreserved = insert k v d.unreserved }
    else if k == reserved_label_no_cache
        || k == reserved_label_no_compress
        || k == reserved_label_failure_mode
        || k == reserved_label_replicas
    then refuse_node_label d k reserved_label_invalid
    else if k == reserved_label_compute_only
    then with_compute_only d k (parse_bool v)
    else refuse_node_label d k reserved_label_unknown

unfoldable pub node_labels_from : DesiredNode → Dict String → DesiredNode
unfolding node_label
node_labels_from d [] = d
node_labels_from d ((k, v) ∷ rest) = node_labels_from (node_label d k v) rest

abbrev pub is_node_not_found : Error → Bool
is_node_not_found node_not_found = true
is_node_not_found _ = false

-- Whether the node's label says that it is compute-only.
unfoldable pub current_compute_only : Option String → Result Bool
current_compute_only none = ok false
current_compute_only (some v) = parsed_result (parse_bool v)

-- `current == enabled`
abbrev pub same_bool : Bool → Bool → Bool
same_bool true b = b
same_bool false b = not b

module _ (env : Env) (key : ObjectKey) where
  unfoldable pub ensure_compute_only : Bool → M Unit
  ensure_compute_only enabled = do
    node ← get_node_by_key env key
    current ← lift (current_compute_only (get node.labels reserved_label_compute_only))
    if same_bool current enabled
        then pure tt
        else Client.api_do env (Calls.set_compute_only node.id enabled node.version)

  -- The update is sent with `labels`, and not with the labels that were compared.
  unfoldable pub ensure_unreserved_node_labels : StringMap → M Unit
  ensure_unreserved_node_labels labels = do
    node ← get_node_by_key env key
    if unchanged node.labels (apply_labels labels node.labels)
        then pure tt
        else Client.api_do env (Calls.update_node node.id (some (entries labels)) node.version)

  unfoldable pub ensure_node_labels : StringMap → M Unit
  ensure_node_labels labels = do
    let d = node_labels_from no_node_labels (entries labels)
    errors ← noting is_node_not_found d.errors (ensure_compute_only d.compute_only)
    errors' ← noting is_node_not_found errors (ensure_unreserved_node_labels (some d.unreserved))
    lift (error_or_nil errors')
