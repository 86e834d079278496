-- ===== src/Deletes.antt =====
-- controllers/node-delete/controller.go and controllers/namespace-delete/controller.go. `Ensure` does
-- nothing in both.
pub mod Missing
use api_manager.World.Errors.{node_not_found, namespace_not_found, Error}
use api_manager.World.Env.{Env}
use api_manager.World.Monad.{throw, pure, ◌>>=◌, handle, M}
use api_manager.World.Objects.{ObjectKey}
use api_manager.Base.{some, map, if◌then◌else◌, false, List, true, Bool}
use api_manager.Storageos.Node.{list_nodes, delete_node}
use api_manager.Storageos.Namespace.{list_namespaces, delete_namespace}
use api_manager.World.Client.{cluster_key}
use api_manager.Storageos.NodeLabels.{is_node_not_found}
use api_manager.Predicate.{ignore_all, IgnoreFuncs}

abbrev pub is_namespace_not_found : Error → Bool
is_namespace_not_found namespace_not_found = true
is_namespace_not_found _ = false

unfoldable pub node_delete : Env → ObjectKey → M Unit
node_delete env key =
    handle (delete_node env key) pure (λ e. if is_node_not_found e then pure tt else throw e)

unfoldable pub node_keys : Env → M (List ObjectKey)
node_keys env = do nodes ← list_nodes env; pure (map (λ n. cluster_key n.name) nodes)

unfoldable pub namespace_delete : Env → ObjectKey → M Unit
namespace_delete env key =
    handle (delete_namespace env key) pure
      (λ e. if is_namespace_not_found e then pure tt else throw e)

unfoldable pub namespace_keys : Env → M (List ObjectKey)
namespace_keys env = do
  namespaces ← list_namespaces env
  pure (map (λ n. cluster_key n.name) namespaces)

-- The predicate of controllers/namespace-delete: each deletion is processed, and nothing else.
abbrev pub namespace_delete_predicate : {O : Type 0} → IgnoreFuncs O
namespace_delete_predicate = record ignore_all { delete_func = some (λ object. true) }
