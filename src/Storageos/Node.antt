-- ===== src/Storageos/Node.antt =====
-- internal/pkg/storageos/node.go and api/v1/node_types.go
pub mod Lookup
use api_manager.Base.{ℕ, Option, String, none, some, List, [], ◌∷◌, map, eqb, ◌==◌, if◌then◌else◌}
use api_manager.Go.Maps.{index, StringMap}
use api_manager.World.Objects.{
  CapacityStats, NodeSpec, ObjectKey, ApiHealth, online, offline, other, ApiNode,
}
use api_manager.World.Errors.{
  Error, api, node_not_found, node_in_use, node_has_lock, nil_dereference, Result, ok, err,
}
use api_manager.World.Calls
use api_manager.World.Env.{Env}
use api_manager.World.Monad.{M, pure, throw, fault, lift, handle, ◌>>=◌}
use api_manager.World.Client
use api_manager.Storageos.Namespace.{status_conflict, status_locked, status_not_found}
use api_manager.Storageos.Index.{indexed}

pub data NodeHealth : Type 0 where
  node_health_online node_health_offline node_health_unknown : NodeHealth

-- The custom resource, without its kind and version.
pub record Node : Type 0 where
  pub name : String
  pub uid : String
  pub resource_version : String
  pub creation_timestamp : ℕ
  pub labels : StringMap
  pub spec : NodeSpec
  pub health : NodeHealth
  pub capacity : CapacityStats

abbrev health_of : ApiHealth → NodeHealth
health_of online = node_health_online
health_of offline = node_health_offline
health_of other = node_health_unknown

unfoldable pub node_to_cr : ApiNode → Node
node_to_cr n = record {
  name = n.name;
  uid = n.id;
  resource_version = n.version;
  creation_timestamp = n.created_at;
  labels = n.labels;
  spec = n.endpoints;
  health = health_of n.health;
  capacity = n.capacity;
}

unfoldable pub list_nodes : Env → M (List Node)
list_nodes env = do nodes ← Client.list_nodes env; pure (map node_to_cr nodes)

unfoldable pub find_node : String → List ApiNode → Result ApiNode
find_node name [] = err node_not_found
find_node name (node ∷ rest) = if node.name == name then ok node else find_node name rest

unfoldable pub get_node_by_key : Env → ObjectKey → M ApiNode
get_node_by_key env key = do nodes ← Client.list_nodes env; lift (find_node key.name nodes)

-- What `DeleteNode` makes of a failed call. A failure without a response is a nil pointer.
unfoldable pub node_delete_failed : Error → M Unit
node_delete_failed (api f) = elim f.status [
  | none ↦ fault nil_dereference
  | some code ↦
      if eqb code status_conflict
      then throw node_in_use
      else if eqb code status_locked
      then throw node_has_lock
      else if eqb code status_not_found
      then throw node_not_found
      else throw (api f)
]
node_delete_failed e = throw e

unfoldable pub delete_node : Env → ObjectKey → M Unit
delete_node env key = do
  node ← get_node_by_key env key
  handle (Client.api_do env (Calls.delete_node node.id node.version)) pure node_delete_failed

abbrev pub node_key : ApiNode → ObjectKey
node_key node = record { namespace = ""; name = node.name }

-- `NodeObjects`
unfoldable pub node_objects : Env → M (ObjectKey → Option ApiNode)
node_objects env = do nodes ← Client.list_nodes env; pure (indexed node_key nodes)
