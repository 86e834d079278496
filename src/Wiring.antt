-- ===== src/Wiring.antt =====
-- `NewReconciler` and `SetupWithManager` of the controllers: controllers/node-label,
-- controllers/pvc-label, controllers/node-delete, controllers/namespace-delete and
-- controllers/fencer, in their files reconciler.go, and internal/controllers/sharedvolume. The
-- clients and the loggers that they pass on are left out.
use api_manager.Go.Strconv.{ℤ}
use api_manager.Go.Time.{Duration}
use api_manager.Fencer.Poller.{Intervals}
use api_manager.World.Client
use api_manager.World.Env.{Env}
use api_manager.World.Errors.{wrapped}
use api_manager.World.Monad.{M, pure, throw, handle, ◌>>=◌}
use api_manager.World.Setup.{
  Watched, nodes, namespaces, claims, SharedVolumeIntervals, init_reconciler, complete_controller,
  complete_fencer, index_field, init_action, start_poller, add_shared_volumes,
}
use api_manager.Base.{String}

-- The intervals of the two label controllers, and of the two that collect garbage.
pub record Resync : Type 0 where
  pub resync_delay : Duration
  pub resync_interval : Duration

pub record Collection : Type 0 where
  pub gc_delay : Duration
  pub gc_interval : Duration

abbrev pub new_node_label_reconciler : (resync_delay resync_interval : Duration) → Resync
new_node_label_reconciler resync_delay resync_interval = record {
  resync_delay = resync_delay;
  resync_interval = resync_interval;
}

abbrev pub new_pvc_label_reconciler : (resync_delay resync_interval : Duration) → Resync
new_pvc_label_reconciler resync_delay resync_interval = record {
  resync_delay = resync_delay;
  resync_interval = resync_interval;
}

abbrev pub new_node_delete_reconciler : (gc_delay gc_interval : Duration) → Collection
new_node_delete_reconciler gc_delay gc_interval = record {
  gc_delay = gc_delay;
  gc_interval = gc_interval;
}

abbrev pub new_namespace_delete_reconciler : (gc_delay gc_interval : Duration) → Collection
new_namespace_delete_reconciler gc_delay gc_interval = record {
  gc_delay = gc_delay;
  gc_interval = gc_interval;
}

abbrev pub new_shared_volume_reconciler :
    (api_poll_interval cache_expiry_interval k8s_create_poll_interval
      k8s_create_wait_duration : Duration)
    → SharedVolumeIntervals
new_shared_volume_reconciler poll expiry create_poll create_wait = record {
  api_poll_interval = poll;
  cache_expiry_interval = expiry;
  k8s_create_poll_interval = create_poll;
  k8s_create_wait_duration = create_wait;
}

module _ (env : Env) where
  -- `r.Reconciler.Init(...)`, whose error is wrapped.
  unfoldable pub initialized : (name : String) → Watched → (delay period : Duration) → M Unit
  initialized name watched delay period =
      handle (Client.perform env (init_reconciler name watched delay period)) pure
        (λ e. throw (wrapped "failed to create new reconciler" e))

  unfoldable pub setup_node_label : Resync → (workers : ℤ) → M Unit
  setup_node_label r workers = do
    u ← initialized "node-label-sync" nodes r.resync_delay r.resync_interval
    Client.perform env (complete_controller nodes workers)

  unfoldable pub setup_pvc_label : Resync → (workers : ℤ) → M Unit
  setup_pvc_label r workers = do
    u ← initialized "volume-label-sync" claims r.resync_delay r.resync_interval
    Client.perform env (complete_controller claims workers)

  unfoldable pub setup_node_delete : Collection → (workers : ℤ) → M Unit
  setup_node_delete r workers = do
    u ← initialized "node-delete" nodes r.gc_delay r.gc_interval
    Client.perform env (complete_controller nodes workers)

  unfoldable pub setup_namespace_delete : Collection → (workers : ℤ) → M Unit
  setup_namespace_delete r workers = do
    u ← initialized "ns-delete" namespaces r.gc_delay r.gc_interval
    Client.perform env (complete_controller namespaces workers)

  unfoldable pub setup_fencer :
      Intervals → (workers : ℤ) (retry_interval timeout : Duration) → M Unit
  setup_fencer r workers retry_interval timeout = do
    a ← Client.perform env (start_poller r.poll_interval r.expiry_interval r.cleanup_interval)
    b ← Client.perform env (index_field "Pod" "spec.nodeName")
    c ← Client.perform env (index_field "VolumeAttachment" "spec.nodeName")
    d ← Client.perform env (
        init_action
          (record { name = "pod-fencer"; timeout = timeout; retry_period = retry_interval }))
    Client.perform env (complete_fencer workers)

  abbrev pub setup_shared_volumes : SharedVolumeIntervals → M Unit
  setup_shared_volumes r = Client.perform env (add_shared_volumes r)
