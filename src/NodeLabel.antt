-- ===== src/NodeLabel.antt =====
-- controllers/node-label/controller.go and predicate.go: the labels of a Kubernetes node are kept
-- applied to the StorageOS node. `Delete` does nothing.
pub mod Reconcile
pub mod Stale
use api_manager.World.Objects.{ApiNode, ObjectKey}
use api_manager.World.Env.{Env}
use api_manager.Base.{
  [], true, some, ◌∷◌, false, List, not, if◌then◌else◌, none, Option, Bool, String,
}
use api_manager.World.Errors.{panic, err, ok, Result}
use api_manager.Go.Maps.{deep_equal, StringMap}
use api_manager.Base.Dict.{Dict}
use api_manager.World.Monad.{pure, ◌>>=◌, M}
use api_manager.Storageos.NodeLabels.{ensure_node_labels}
use api_manager.Storageos.Node.{node_objects, Node}
use api_manager.Provisioner.{is_storageos_node}
use api_manager.Predicate.{ignore_all, IgnoreFuncs}

module _ (env : Env) where
  unfoldable pub ensure : ObjectKey → StringMap → M Unit
  ensure key labels = ensure_node_labels env key labels

-- A Kubernetes node, with what the controllers read of it.
pub record K8sNode : Type 0 where
  pub name : String
  pub labels : StringMap
  pub annotations : StringMap

-- The loop of `Diff`, over the map of `NodeObjects`.
unfoldable pub diff : (nodes : ObjectKey → Option ApiNode) → List K8sNode → List K8sNode
diff nodes [] = []
diff nodes (object ∷ rest) =
    let apply = diff nodes rest in
    elim (nodes (record { namespace = ""; name = object.name })) [
      | none ↦ apply
      | some node ↦ if deep_equal object.labels node.labels then apply else object ∷ apply
    ]

abbrev pub is_true : Result Bool → Bool
is_true (ok b) = b
is_true (err e) = false
is_true (panic f) = false

-- Whether an update of a node starts a reconcile. An annotation that cannot be read counts as none.
unfoldable pub update :
    (unmarshal : String → Option (Dict String)) (object_old object_new : K8sNode) → Bool
update unmarshal object_old object_new =
    if not (is_true (is_storageos_node unmarshal object_new.annotations))
    then false
    else if not (is_true (is_storageos_node unmarshal object_old.annotations))
    then true
    else not (deep_equal object_old.labels object_new.labels)

-- `Diff`
unfoldable pub stale_nodes : Env → List K8sNode → M (List K8sNode)
unfolding diff
stale_nodes env objects = do nodes ← node_objects env; pure (diff nodes objects)

-- The predicate of controllers/node-label, and that of controllers/node-delete, which has only a
-- method `Delete`.
abbrev pub node_label_predicate : (unmarshal : String → Option (Dict String)) → IgnoreFuncs K8sNode
node_label_predicate unmarshal = record ignore_all { update_func = some (update unmarshal) }

abbrev pub node_delete_predicate : (unmarshal : String → Option (Dict String)) → IgnoreFuncs K8sNode
node_delete_predicate unmarshal = record ignore_all {
  delete_func = some (λ object. is_true (is_storageos_node unmarshal object.annotations));
}
