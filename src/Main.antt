-- ===== src/Main.antt =====
-- main.go: the mutators that are registered for the two web hooks, and the namespaces that are
-- filled in; with internal/pkg/labels/labels.go and internal/pkg/cluster/namespace.go.
pub mod Hooks
pub mod Claims
pub mod Flags
pub mod Start
pub mod Steps
pub mod Plan
pub mod Order
use api_manager.Base.{
  String, Bool, Option, none, some, List, [], ◌∷◌, ◌==◌, if◌then◌else◌, String-discrete,
}
use api_manager.Admission.{Mutator}
use api_manager.Crypto.{Primitives}
use api_manager.Go.Maps.{StringMap}
use api_manager.PodMutator.{new_pod_scheduler_setter, mutate_pod}
use api_manager.PvcMutator.{set_storage_class_annotation}
use api_manager.PvcMutator.Encryption.{new_key_setter, set_encryption_keys}
use api_manager.World.Env.{Env, Reply, done, failed}
use api_manager.World.Errors.{Result, ok, err, panic, Error, message, wrapped}
use api_manager.World.Objects.{Pod, Pvc}

-- `labels.Default`
abbrev pub default_labels : StringMap
default_labels = some (
    ("app.kubernetes.io/name", "storageos")
    ∷ ("app.kubernetes.io/component", "storageos-api-manager")
    ∷ ("app.kubernetes.io/part-of", "storageos")
    ∷ ("app.kubernetes.io/managed-by", "storageos-operator")
    ∷ [])

abbrev pub pod_mutators : Env → (scheduler_name : String) → List (Mutator Pod)
pod_mutators env scheduler_name = mutate_pod env (new_pod_scheduler_setter scheduler_name) ∷ []

abbrev pub pvc_mutators : Primitives → Env → List (Mutator Pvc)
pvc_mutators prim env =
    set_encryption_keys prim env (new_key_setter default_labels)
    ∷ set_storage_class_annotation env
    ∷ []

-- What `os.Stat` says of the file with the namespace.
pub data Stat : Type 0 where
  present absent : Stat
  unreadable : (reason : String) → Stat

-- `cluster.Namespace`, over the answers about its file.
unfoldable pub cluster_namespace : Stat → Reply String String → Result String
cluster_namespace absent file = err (message "not running within a kubernetes cluster")
cluster_namespace (unreadable reason) file =
    err (wrapped "error checking namespace file" (message reason))
cluster_namespace present (failed reason) =
    err (wrapped "error reading namespace file" (message reason))
cluster_namespace present (done text) = ok text

abbrev text_or_empty : Result String → String
text_or_empty (ok text) = text
text_or_empty (err e) = ""
text_or_empty (panic f) = ""

pub record Namespaces : Type 0 where
  pub namespace : String
  pub webhook_secret_namespace : String
  pub webhook_service_namespace : String

abbrev or_default : String → String → String
or_default s d = if s == "" then d else s

-- The namespaces that the flags leave empty are filled in. An error of `cluster.Namespace` is
-- logged, and the namespace stays empty.
unfoldable pub with_defaults : (in_cluster : Result String) → Namespaces → Namespaces
unfolding String-discrete
with_defaults in_cluster flags =
    let namespace = or_default flags.namespace (text_or_empty in_cluster) in
    record {
      namespace = namespace;
      webhook_secret_namespace = or_default flags.webhook_secret_namespace namespace;
      webhook_service_namespace = or_default flags.webhook_service_namespace namespace;
    }
