-- ===== src/Tests/Rounds.antt =====
-- A round for the sample shared volume.
use api_manager.World.Calls
use api_manager.Tests.World.{missing, healthy_cluster}
use api_manager.Storageos.SharedVolume.{endpoints, service, SharedVolume, Splitter}
use api_manager.SharedVolumes.{service_key, ensure_service, Poller, VolumeCache}
use api_manager.Base.{
  ◌<>◌, [], ==_apart, refl, any, ◌∷◌, ◌≢◌, true, if◌then◌else◌, String-discrete, Bool, String, some,
  Option, ℕ, none, false,
}
use api_manager.World.Monad.{pure, throw, M, ◌>>=◌}
use api_manager.World.Errors.{ok, message}
use api_manager.World.Objects.{Service, OwnerReference}
use api_manager.SharedVolumes.Settled.{ensure_service_creates, EndsWaits}
use api_manager.World.Env.{done, Env, History}
use api_manager.World.Run.{Runs-pure, Runs-bind, Runs}

abbrev pub fixed_splitter : Splitter
fixed_splitter endpoint = some ("10.0.0.1", "2049")

abbrev fixed_print : ℕ → String
fixed_print n = "2049"

abbrev nfs_share : SharedVolume
nfs_share = record {
  id = "vol-id";
  service_name = "pv-1";
  pvc_name = "data-0";
  namespace = "app";
  internal_endpoint = "10.0.0.1:2049";
  external_endpoint = "";
}

abbrev given_or_timeout : (A : Type 0) → Option A → M A
given_or_timeout A none = throw (message "timed out waiting for the condition")
given_or_timeout A (some a) = pure a

-- The condition is called once.
abbrev poll_once : Poller
poll_once A m = m >>= given_or_timeout A

abbrev empty_cache : VolumeCache
empty_cache id = none

abbrev nfs_owner : OwnerReference
nfs_owner = record {
  api_version = "v1";
  kind = "PersistentVolumeClaim";
  name = "data-0";
  uid = "pvc-uid";
}

abbrev nfs_service : Service
nfs_service = record (service fixed_splitter nfs_share nfs_owner) { cluster_ip = "10.1.1.1" }

abbrev is_create_service : Calls.Call → Bool
is_create_service (Calls.create_service s) = true
is_create_service _ = false

abbrev is_create_endpoints : Calls.Call → Bool
is_create_endpoints (Calls.create_endpoints e) = true
is_create_endpoints _ = false

-- A cluster that has the service and the endpoints once they were created.
abbrev creating_cluster : Env
creating_cluster = record healthy_cluster {
  service_at = λ h key. if any is_create_service h then done nfs_service else missing;
  endpoints_at = λ h key.
      if any is_create_endpoints h then done (endpoints fixed_splitter nfs_share) else missing;
  kube_write = λ h c. done tt;
}

poll_once-EndsWaits : EndsWaits poll_once
poll_once-EndsWaits = record { ends = λ k. Runs-bind _ k (Runs-pure _ _) }

ip_nonempty : ◌≢◌ {A = String} "10.1.1.1" ""
unfolding String-discrete
ip_nonempty = ==_apart "10.1.1.1" "" refl

abbrev created_calls : History
created_calls =
    Calls.kube_get Calls.endpoints (service_key nfs_share)
    ∷ Calls.create_endpoints (endpoints fixed_splitter nfs_share)
    ∷ Calls.kube_get Calls.endpoints (service_key nfs_share)
    ∷ Calls.kube_get Calls.service (service_key nfs_share)
    ∷ Calls.create_service (service fixed_splitter nfs_share nfs_owner)
    ∷ Calls.kube_get Calls.service (service_key nfs_share)
    ∷ []

ensure_service_creates_example :
    Runs
      (ensure_service fixed_splitter fixed_print poll_once creating_cluster nfs_share nfs_owner)
      []
      (ok ("10.1.1.1" <> (":" <> "2049")))
      created_calls
ensure_service_creates_example =
    ensure_service_creates fixed_splitter fixed_print poll_once creating_cluster nfs_share nfs_owner
      [] "10.1.1.1" poll_once-EndsWaits ip_nonempty refl refl refl refl refl refl
