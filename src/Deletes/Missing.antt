-- ===== src/Deletes/Missing.antt =====
-- Deletions of what StorageOS does not list.
use mathlib.Core.Logic.{if_neg}
use api_manager.World.Calls
use api_manager.Deletes.{
  node_not_found, ObjectKey, namespace_not_found, Env, handle, ◌>>=◌, node_delete, namespace_delete,
}
use api_manager.Storageos.Node.{delete_node, get_node_by_key, find_node}
use api_manager.Storageos.Namespace.{delete_namespace, get_namespace, find_namespace}
use api_manager.Base.{refl, [], ◌∷◌, ◌≡◌, ◌≢◌, All, List, String}
use api_manager.World.Objects.{Namespace, ApiNode}
use api_manager.World.Monad.{◌>>=◌, handle, lift, ask_api}
use api_manager.World.Errors.{ok, err}
use api_manager.World.Env.{done, History}

find_node_missing :
    (name : String) (nodes : List ApiNode)
    → All (λ n. n.name ≢ name) nodes
    → find_node name nodes ≡ err node_not_found
unfolding find_node
find_node_missing name [] a = refl
find_node_missing name (n ∷ rest) (p, a) = rw (if_neg _ p) (find_node_missing name rest a)

find_namespace_missing :
    (name : String) (namespaces : List Namespace)
    → All (λ n. n.name ≢ name) namespaces
    → find_namespace name namespaces ≡ err namespace_not_found
unfolding find_namespace
find_namespace_missing name [] a = refl
find_namespace_missing name (n ∷ rest) (p, a) = rw (if_neg _ p) (find_namespace_missing name rest a)

-- Deleting a node that the API does not list succeeds, and no call but the listing is made.
pub node_delete_missing :
    (env : Env) (key : ObjectKey) (h : History) (nodes : List ApiNode)
    → env.nodes h ≡ done nodes
    → All (λ n. n.name ≢ key.name) nodes
    → node_delete env key h ≡ (ok tt, Calls.list_nodes ∷ h)
unfolding node_delete delete_node get_node_by_key ◌>>=◌ handle ask_api lift
node_delete_missing env key h nodes listed missing =
    rw (listed, find_node_missing key.name nodes missing) refl

-- Deleting a namespace that the API does not list succeeds, and no call but the listing is made.
pub namespace_delete_missing :
    (env : Env) (key : ObjectKey) (h : History) (namespaces : List Namespace)
    → env.namespaces h ≡ done namespaces
    → All (λ n. n.name ≢ key.name) namespaces
    → namespace_delete env key h ≡ (ok tt, Calls.list_namespaces ∷ h)
unfolding namespace_delete delete_namespace get_namespace ◌>>=◌ handle ask_api lift
namespace_delete_missing env key h namespaces listed missing =
    rw (listed, find_namespace_missing key.name namespaces missing) refl
