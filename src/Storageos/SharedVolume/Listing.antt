-- ===== src/Storageos/SharedVolume/Listing.antt =====
-- internal/pkg/storageos/shared_volume.go: the list of the shared volumes, and their endpoints.
use api_manager.World.Calls
use api_manager.World.Client
use api_manager.Storageos.SharedVolume.{
  [], ◌==◌, err, ℤ, ok, if◌then◌else◌, ◌∷◌, String, Result, List, Splitter, SharedVolume,
  split_address_port, label_nfs_mount_endpoint, label_pv_name, label_pvc_name, label_pvc_namespace,
}
use api_manager.World.Objects.{Namespace, Volume}
use api_manager.World.Env.{Env}
use api_manager.World.Monad.{throw, handle, pure, ◌>>=◌, M}
use api_manager.Go.Maps.{index}
use api_manager.Storageos.Volume.{get_volume_by_id}
use api_manager.Base.{some, none, ◌||◌, ◌++◌}
use api_manager.World.Errors.{not_shared, panic, not_kubernetes, multi_one, wrapped}

abbrev pub shared_volume_of : Volume → (endpoint : String) → SharedVolume
shared_volume_of vol endpoint = record {
  id = vol.id;
  service_name = index vol.labels label_pv_name;
  pvc_name = index vol.labels label_pvc_name;
  namespace = index vol.labels label_pvc_namespace;
  internal_endpoint = endpoint;
  external_endpoint = index vol.labels label_nfs_mount_endpoint;
}

abbrev checked : SharedVolume → Result (String × ℤ) → Result SharedVolume
checked v (ok p) = ok v
checked v (err e) = err (wrapped "invalid internal endpoint" e)
checked v (panic f) = panic f

module _ (split_host_port : Splitter) where
  unfoldable pub to_shared_volume : Volume → Result SharedVolume
  to_shared_volume vol =
      if index vol.labels label_pv_name == ""
        || index vol.labels label_pvc_name == ""
        || index vol.labels label_pvc_namespace == ""
      then err not_kubernetes
      else elim vol.service_endpoint [
        | none ↦ err not_shared
        | some endpoint ↦
            checked (shared_volume_of vol endpoint) (split_address_port split_host_port endpoint)
      ]

  -- The loop over the volumes of a namespace passes over those that are not shared.
  unfoldable pub shared_among : List SharedVolume → List Volume → List SharedVolume
  shared_among found [] = found
  shared_among found (vol ∷ rest) = elim (to_shared_volume vol) [
    | ok sv ↦ shared_among (found ++ sv ∷ []) rest
    | _ ↦ shared_among found rest
  ]

  module _ (env : Env) where
    unfoldable pub shared_volumes_of : List SharedVolume → List Namespace → M (List SharedVolume)
    shared_volumes_of found [] = pure found
    shared_volumes_of found (ns ∷ rest) = do
      volumes ← handle (Client.list_volumes env ns.id) pure (λ e. throw (multi_one e))
      shared_volumes_of (shared_among found volumes) rest

    unfoldable pub list_shared_volumes : M (List SharedVolume)
    list_shared_volumes = do
      namespaces ← Client.list_namespaces env
      shared_volumes_of [] namespaces

module _ (env : Env) where
  unfoldable pub set_external_endpoint : (vol_id namespace endpoint : String) → M Unit
  set_external_endpoint vol_id namespace endpoint = do
    cur_vol ← get_volume_by_id env vol_id namespace
    if index cur_vol.labels label_nfs_mount_endpoint == endpoint
        then pure tt
        else Client.api_do env (
            Calls.update_nfs_mount_endpoint cur_vol.namespace_id cur_vol.id endpoint
              cur_vol.version)
