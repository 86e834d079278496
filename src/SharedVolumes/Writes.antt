-- ===== src/SharedVolumes/Writes.antt =====
-- What the reconcile round of internal/controllers/sharedvolume/controller.go writes for a volume.
use api_manager.World.Calls
use api_manager.Storageos.SharedVolume.{
  SharedVolume, Splitter, service, service_is_equal, service_update, endpoints, endpoints_is_equal,
  endpoints_update,
}
use api_manager.SharedVolumes.{
  zero_endpoints, is_not_found, Pvc, Endpoints, Service, Env, String, some, Option, M, ℕ, Poller,
  service_key, owner_of, create_service, create_endpoints,
}
use api_manager.World.Trace.{Ensures}
use api_manager.Base.{◌⊎◌, true, false, ◌≢◌, ◌≡◌, none}
use api_manager.Storageos.SharedVolume.Updates.{EndpointCall}
use api_manager.World.Env.{failed, done, History}
use api_manager.World.Calls.{IsRead}
use api_manager.World.Errors.{kube}

abbrev pub GivenHas : {A : Type 0} → (A → Type 0) → Option A → Type 0
GivenHas Q none = Unit
GivenHas Q (some a) = Q a

-- What is documented of `wait.Poll`: it calls the condition and nothing else, and it returns
-- without an error only with what the condition gave.
pub record IsPoller (poll : Poller) : Type 1 where
  pub polls :
      (A : Type 0) (P : Calls.Call → Type 0) (Q : A → Type 0) (m : M (Option A))
      → Ensures P (GivenHas Q) m
      → Ensures P Q (poll A m)

module _ (split_host_port : Splitter) (print : ℕ → String) (poll : Poller) (laws : IsPoller poll)
    (env : Env) (sv : SharedVolume) where
  -- At some time the service was found, or the endpoints; or the wait for the endpoints ended with
  -- none, since there were none.
  abbrev pub WasService : Service → Type 0
  WasService s = (h : History) × (env.service_at h (service_key sv) ≡ done s)

  abbrev pub WereEndpoints : Endpoints → Type 0
  WereEndpoints e =
      ((h : History) × (env.endpoints_at h (service_key sv) ≡ done e))
      ⊎ ((e ≡ zero_endpoints)
          × ((h : History) × (reason : String) × (env.endpoints_at h (service_key sv)
                ≡ failed reason)
              × (is_not_found (kube reason) ≡ true)))

  -- The writes for a shared volume.
  abbrev pub ServiceCall : Calls.Call → Type 0
  ServiceCall (Calls.create_service s) =
      (claim : Pvc) × ((h : History) × (env.pvc_at h
            (record { namespace = sv.namespace; name = sv.pvc_name })
          ≡ done claim))
      × (s ≡ service split_host_port sv (owner_of claim))
  ServiceCall (Calls.update_service s) =
      (found : Service) × WasService found
      × (service_is_equal split_host_port sv found ≡ false)
      × (s ≡ service_update split_host_port sv found)
  ServiceCall (Calls.create_endpoints e) = e ≡ endpoints split_host_port sv
  ServiceCall (Calls.update_endpoints e) =
      (found : Endpoints) × WereEndpoints found
      × (endpoints_is_equal split_host_port sv found ≡ false)
      × (e ≡ endpoints_update split_host_port sv found)
  ServiceCall (Calls.update_nfs_mount_endpoint ns id to version) =
      (to ≢ sv.external_endpoint)
      × EndpointCall env sv.id to (Calls.update_nfs_mount_endpoint ns id to version)
  ServiceCall c = IsRead c

  -- The volume for the cache is the volume itself, up to its external endpoint.
  abbrev pub IsCached : Option SharedVolume → Type 0
  IsCached none = Unit
  IsCached (some w) =
      (external_endpoint : String) × (w ≡ record sv { external_endpoint = external_endpoint })
