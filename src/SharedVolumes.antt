-- ===== src/SharedVolumes.antt =====
-- internal/controllers/sharedvolume/controller.go: the services and endpoints of the shared
-- volumes. `wait.Poll`, `net.SplitHostPort` and the printing of a number are parameters.
pub mod Writes
pub mod Rounds
pub mod Settled
use api_manager.World.Calls
use api_manager.World.Client
use api_manager.Storageos.SharedVolume.{
  Splitter, SharedVolume, is_equal, service, service_is_equal, service_update, endpoints,
  endpoints_is_equal, endpoints_update,
}
use api_manager.World.Calls.{pvc}
use api_manager.World.Objects.{OwnerReference, Service, Pvc, Endpoints, ObjectKey}
use api_manager.World.Monad.{throw, pure, handle, ◌>>◌, ◌>>=◌, M}
use api_manager.Base.{
  List, Bool, some, ◌==◌, ◌!=◌, ◌<>◌, false, ◌∷◌, if◌then◌else◌, [], String, none, Option, ℕ,
}
use api_manager.World.Env.{History, Env}
use api_manager.Storageos.SharedVolume.Listing.{list_shared_volumes, set_external_endpoint}
use api_manager.World.Errors.{ok, wrapped, is_not_found}

-- `wait.Poll`, for a condition that gives what it waits for.
abbrev pub Poller : Type 1
Poller = (A : Type 0) → M (Option A) → M A

abbrev pub service_key : SharedVolume → ObjectKey
service_key sv = record { namespace = sv.namespace; name = sv.service_name }

abbrev pub owner_of : Pvc → OwnerReference
owner_of claim = record {
  api_version = "v1";
  kind = "PersistentVolumeClaim";
  name = claim.name;
  uid = claim.uid;
}

-- The object as it was declared, before anything was read into it.
abbrev pub zero_endpoints : Endpoints
zero_endpoints = record { name = ""; namespace = ""; labels = none; subsets = [] }

-- `frontend`
unfoldable pub frontend : (print : ℕ → String) → Service → String
frontend print svc = elim svc.ports [
  | [] ↦ ""
  | p ∷ ps ↦ elim ps [ [] ↦ svc.cluster_ip <> ":" <> print p.port | _ ↦ "" ]
]

module _ (split_host_port : Splitter) (print : ℕ → String) (poll : Poller) (env : Env) where
  -- `waitForClusterIP`. After an answer that is not found the service has no IP yet.
  unfoldable pub wait_for_cluster_ip : ObjectKey → M Service
  wait_for_cluster_ip key = poll Service (
      handle (Client.get_service env key)
        (λ svc. pure (if svc.cluster_ip == "" then none else some svc))
        (λ e. if is_not_found e then pure none else throw e))

  -- `waitForAvailable`. An answer that is not found ends the wait as well.
  unfoldable pub wait_for_available : ObjectKey → M Endpoints
  wait_for_available key = poll Endpoints (
      handle (Client.get_endpoints env key) (λ ep. pure (some ep))
        (λ e. if is_not_found e then pure (some zero_endpoints) else throw e))

  unfoldable pub create_service : SharedVolume → OwnerReference → M Service
  create_service sv owner = do
    handle (Client.kube_do env (Calls.create_service (service split_host_port sv owner))) pure
        (λ e. throw (wrapped "failed to create service resource" e))
    handle (wait_for_cluster_ip (service_key sv)) pure
        (λ e. throw (wrapped "failed to get service resource after create" e))

  unfoldable pub found_service : SharedVolume → OwnerReference → M Service
  found_service sv owner = handle (Client.get_service env (service_key sv)) pure (λ e.
      if is_not_found e
      then create_service sv owner
      else throw (wrapped "failed to get service, aborting reconcile" e))

  unfoldable pub updated_service : SharedVolume → Service → M Service
  updated_service sv svc =
      if service_is_equal split_host_port sv svc
      then pure svc
      else handle (Client.update_service env (service_update split_host_port sv svc)) pure
          (λ e. throw (wrapped "failed to update service resource" e))

  unfoldable pub create_endpoints : SharedVolume → M Endpoints
  create_endpoints sv = do
    handle (Client.kube_do env (Calls.create_endpoints (endpoints split_host_port sv))) pure
        (λ e. throw (wrapped "failed to create endpoints resource" e))
    handle (wait_for_available (service_key sv)) pure
        (λ e. throw (wrapped "failed to get endpoints resource after create" e))

  unfoldable pub found_endpoints : SharedVolume → M Endpoints
  found_endpoints sv = handle (Client.get_endpoints env (service_key sv)) pure (λ e.
      if is_not_found e
      then create_endpoints sv
      else throw (wrapped "failed to get endpoint, aborting reconcile" e))

  unfoldable pub updated_endpoints : SharedVolume → Endpoints → M Unit
  updated_endpoints sv ep =
      if endpoints_is_equal split_host_port sv ep
      then pure tt
      else handle
          (Client.kube_do env (Calls.update_endpoints (endpoints_update split_host_port sv ep)))
          pure (λ e. throw (wrapped "failed to update endpoints resource" e))

  unfoldable pub ensure_service : SharedVolume → OwnerReference → M String
  ensure_service sv owner = do
    found ← found_service sv owner
    svc ← updated_service sv found
    ep ← found_endpoints sv
    updated_endpoints sv ep
    pure (frontend print svc)

  -- Write the endpoint to StorageOS where it changed, and give the volume for the cache.
  unfoldable pub set_endpoint :
      SharedVolume → (external_endpoint : String) → M (Option SharedVolume)
  set_endpoint vol external_endpoint =
      if external_endpoint != vol.external_endpoint
      then handle (set_external_endpoint env vol.id vol.namespace external_endpoint)
          (λ _. pure (some (record vol { external_endpoint = external_endpoint }))) (λ _. pure none)
      else pure (some vol)

  -- The round of `Start` for one volume: the volume that is put in the cache, if one is. Errors are
  -- logged, and end the round of this volume only.
  unfoldable pub reconcile_volume :
      (cached : Option SharedVolume) → SharedVolume → M (Option SharedVolume)
  reconcile_volume cached vol =
      if elim cached [ none ↦ false | some c ↦ is_equal c (some vol) ]
      then pure none
      else handle (Client.get_pvc env (record { namespace = vol.namespace; name = vol.pvc_name }))
          (λ claim.
            handle (ensure_service vol (owner_of claim)) (set_endpoint vol) (λ _. pure none))
          (λ _. pure none)

-- The cache of go-cache: an entry that has expired is not found.
abbrev pub VolumeCache : Type 0
VolumeCache = String → Option SharedVolume

abbrev pub stored : VolumeCache → (id : String) → Option SharedVolume → VolumeCache
stored cache id none k = cache k
stored cache id (some vol) k = if k == id then some vol else cache k

module _ (split_host_port : Splitter) (print : ℕ → String) (poll : Poller)
    (expired : History → String → Bool) (env : Env) where
  abbrev pub cached_at : VolumeCache → String → History → Option SharedVolume
  cached_at cache id h = if expired h id then none else cache id

  unfoldable pub reconcile_volumes : VolumeCache → List SharedVolume → M VolumeCache
  reconcile_volumes cache [] = pure cache
  reconcile_volumes cache (vol ∷ rest) =
      (λ h. reconcile_volume split_host_port print poll env (cached_at cache vol.id h) vol h)
      >>= λ w. reconcile_volumes (stored cache vol.id w) rest

  -- One round of the loop of `Start`. A failed listing resets the client of the API.
  unfoldable pub reconcile_round : VolumeCache → M VolumeCache
  reconcile_round cache =
      handle (list_shared_volumes split_host_port env) (reconcile_volumes cache)
        (λ e h. (ok cache, Calls.api_reset ∷ h))
