-- ===== src/SharedVolumes/Settled.antt =====
-- What ensureService of internal/controllers/sharedvolume/controller.go comes to: it creates what is
-- missing, and leaves alone what it has created.
use api_manager.World.Calls
use api_manager.Base.{==_false}
use api_manager.World.Calls.{Kind, kube_get}
use api_manager.SharedVolumes.{
  Endpoints, Service, ok, OwnerReference, Env, History, Option, String, M, ℕ, Poller,
  ensure_service, service_key, frontend, found_service, create_service, wait_for_cluster_ip,
  updated_service, found_endpoints, create_endpoints, wait_for_available, updated_endpoints,
}
use api_manager.Storageos.SharedVolume.{
  SharedVolume, Splitter, service, endpoints, service_is_equal, endpoints_is_equal, nfs_port,
}
use api_manager.Storageos.SharedVolume.Matches.{created_match}
use api_manager.Base.{true, ◌<>◌, ◌≢◌, some, ◌∷◌, ◌≡◌}
use api_manager.World.Env.{done, failed}
use api_manager.World.Errors.{not_found}
use api_manager.World.Run.{
  Runs-ask, Runs-ask_failed, Runs-handle, Runs-pure, Runs-handle_failed, Runs-bind, Runs,
}

-- The wait ends when its condition gives a value.
pub record EndsWaits (poll : Poller) : Type 1 where
  pub ends :
      {A : Type 0} {m : M (Option A)} {a : A} {h h' : History}
      → Runs m h (ok (some a)) h'
      → Runs (poll A m) h (ok a) h'

module _ (split_host_port : Splitter) (print : ℕ → String) (poll : Poller) (env : Env)
    (sv : SharedVolume) (owner : OwnerReference) (h : History) where
  abbrev asked_service : History → History
  asked_service h = kube_get Kind.service (service_key sv) ∷ h

  abbrev asked_endpoints : History → History
  asked_endpoints h = kube_get Kind.endpoints (service_key sv) ∷ h

  updated_service_same :
      (svc : Service) (h : History)
      → service_is_equal split_host_port sv svc ≡ true
      → Runs (updated_service split_host_port print poll env sv svc) h (ok svc) h
  unfolding updated_service
  updated_service_same svc h e = rw e (Runs-pure svc h)

  updated_endpoints_same :
      (ep : Endpoints) (h : History)
      → endpoints_is_equal split_host_port sv ep ≡ true
      → Runs (updated_endpoints split_host_port print poll env sv ep) h (ok tt) h
  unfolding updated_endpoints
  updated_endpoints_same ep h e = rw e (Runs-pure tt h)

  -- A service and endpoints that match end the call.
  ends_with :
      (svc : Service) (ep : Endpoints) {h1 h2 : History}
      → Runs (found_service split_host_port print poll env sv owner) h (ok svc) h1
      → service_is_equal split_host_port sv svc ≡ true
      → Runs (found_endpoints split_host_port print poll env sv) h1 (ok ep) h2
      → endpoints_is_equal split_host_port sv ep ≡ true
      → Runs (ensure_service split_host_port print poll env sv owner) h (ok (frontend print svc)) h2
  unfolding ensure_service
  ends_with svc ep {h1} {h2} s same e match = Runs-bind _ s (
      Runs-bind _ (updated_service_same svc h1 same)
        (Runs-bind _ e (Runs-bind _ (updated_endpoints_same ep h2 match) (Runs-pure _ h2))))

  -- If the service and the endpoints of the volume are found and match it, then they are left
  -- alone: nothing is called but the two lookups, and the endpoint of the service is given.
  pub ensure_service_settled :
      (svc : Service) (ep : Endpoints)
      → env.service_at h (service_key sv) ≡ done svc
      → service_is_equal split_host_port sv svc ≡ true
      → env.endpoints_at (asked_service h) (service_key sv) ≡ done ep
      → endpoints_is_equal split_host_port sv ep ≡ true
      → Runs
          (ensure_service split_host_port print poll env sv owner)
          h
          (ok (frontend print svc))
          (asked_endpoints (asked_service h))
  unfolding found_service found_endpoints
  ensure_service_settled svc ep s same e match =
      ends_with svc ep (Runs-handle _ _ (Runs-ask _ svc s) (Runs-pure svc _)) same
        (Runs-handle _ _ (Runs-ask _ ep e) (Runs-pure ep _)) match

  -- The service as it is found once the cluster has given it an address.
  abbrev addressed : (ip : String) → Service
  addressed ip = record (service split_host_port sv owner) { cluster_ip = ip }

  abbrev wrote_service : History
  wrote_service = Calls.create_service (service split_host_port sv owner) ∷ asked_service h

  abbrev wrote_endpoints : History
  wrote_endpoints =
      Calls.create_endpoints (endpoints split_host_port sv)
      ∷ asked_endpoints (asked_service wrote_service)

  waited :
      (ip : String)
      → ip ≢ ""
      → env.service_at wrote_service (service_key sv) ≡ done (addressed ip)
      → EndsWaits poll
      → Runs
          (wait_for_cluster_ip split_host_port print poll env (service_key sv))
          wrote_service
          (ok (addressed ip))
          (asked_service wrote_service)
  unfolding wait_for_cluster_ip
  waited ip n s waits =
      waits.ends
        (Runs-handle _ _ (Runs-ask _ (addressed ip) s) (rw (==_false ip "" n) (Runs-pure _ _)))

  -- If neither the service nor the endpoints exist, each is created without an error and then found
  -- as it was created, the service with an address, then the call creates one of each, updates
  -- nothing, and gives the address with the fixed port. It is assumed that a wait ends when its
  -- condition gives a value.
  pub ensure_service_creates :
      (ip : String)
      → EndsWaits poll
      → ip ≢ ""
      → env.service_at h (service_key sv) ≡ failed "NotFound"
      → env.kube_write (asked_service h) (Calls.create_service (service split_host_port sv owner))
        ≡ done tt
      → env.service_at wrote_service (service_key sv) ≡ done (addressed ip)
      → env.endpoints_at (asked_service wrote_service) (service_key sv) ≡ failed "NotFound"
      → env.kube_write
          (asked_endpoints (asked_service wrote_service))
          (Calls.create_endpoints (endpoints split_host_port sv))
        ≡ done tt
      → env.endpoints_at wrote_endpoints (service_key sv) ≡ done (endpoints split_host_port sv)
      → Runs
          (ensure_service split_host_port print poll env sv owner)
          h
          (ok (ip <> (":" <> print nfs_port)))
          (asked_endpoints wrote_endpoints)
  unfolding found_service found_endpoints create_service create_endpoints wait_for_available
      frontend service service_is_equal
  ensure_service_creates ip waits n s0 w0 s1 e0 w1 e1 =
      ends_with (addressed ip) (endpoints split_host_port sv)
        (Runs-handle_failed _ _ (Runs-ask_failed _ "NotFound" s0) (
          rw not_found (
            Runs-bind _ (Runs-handle _ _ (Runs-ask _ tt w0) (Runs-pure tt _))
              (Runs-handle _ _ (waited ip n s1 waits) (Runs-pure _ _)))))
        (created_match split_host_port sv owner).0
        (Runs-handle_failed _ _ (Runs-ask_failed _ "NotFound" e0) (
          rw not_found (
            Runs-bind _ (Runs-handle _ _ (Runs-ask _ tt w1) (Runs-pure tt _)) (
              Runs-handle _ _ (waits.ends (Runs-handle _ _ (Runs-ask _ _ e1) (Runs-pure _ _)))
                (Runs-pure _ _)))))
        (created_match split_host_port sv owner).1
