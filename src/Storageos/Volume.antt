-- ===== src/Storageos/Volume.antt =====
-- internal/pkg/storageos/volume.go and object.go
pub mod Lookup
use api_manager.Base.{Option, String, List, [], ◌∷◌, ◌++◌, ◌==◌, if◌then◌else◌}
use api_manager.World.Objects.{ObjectKey, Namespace, Volume}
use api_manager.World.Errors.{volume_not_found, Result, ok, err}
use api_manager.World.Env.{Env}
use api_manager.World.Monad.{M, pure, lift, ◌>>=◌}
use api_manager.World.Client
use api_manager.Storageos.Namespace.{get_namespace, list_namespaces}
use api_manager.Storageos.Index.{indexed}

-- `GetNamespace` of a volume is the identifier of its namespace.
abbrev pub object_key_from_object : Volume → ObjectKey
object_key_from_object v = record { namespace = v.namespace_id; name = v.name }

unfoldable pub find_volume : String → List Volume → Result Volume
find_volume name [] = err volume_not_found
find_volume name (vol ∷ rest) = if vol.name == name then ok vol else find_volume name rest

-- `getVolume` and `GetVolume`
unfoldable pub get_volume : Env → ObjectKey → M Volume
get_volume env key = do
  ns ← get_namespace env (Client.cluster_key key.namespace)
  volumes ← Client.list_volumes env ns.id
  lift (find_volume key.name volumes)

unfoldable pub get_volume_by_id : Env → (id namespace : String) → M Volume
get_volume_by_id env id namespace = do
  ns ← get_namespace env (Client.cluster_key namespace)
  Client.get_volume env ns.id id

-- The loop of `getVolumes` over the namespaces.
unfoldable pub volumes_of : Env → List Volume → List Namespace → M (List Volume)
volumes_of env volumes [] = pure volumes
volumes_of env volumes (ns ∷ rest) = do
  ns_vols ← Client.list_volumes env ns.id
  volumes_of env (volumes ++ ns_vols) rest

unfoldable pub get_volumes : Env → M (List Volume)
unfolding volumes_of
get_volumes env = do namespaces ← list_namespaces env; volumes_of env [] namespaces

-- `VolumeObjects`
unfoldable pub volume_objects : Env → M (ObjectKey → Option Volume)
volume_objects env = do volumes ← get_volumes env; pure (indexed object_key_from_object volumes)
