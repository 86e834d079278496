-- ===== src/Main/Start.antt =====
-- `main` of main.go behind the parsing of its flags. A fatal error is the error of the function, and
-- its return is the end of `mgr.Start`. `url.Parse` and `filepath.Join` are parameters, and what
-- `os.Stat` and the reading of the namespace file answer.
use api_manager.Base.{true, false, ℕ, String, none, some, Bool, if◌then◌else◌}
use api_manager.Fencer.Poller.{new_reconciler}
use api_manager.Main.{default_labels, Namespaces, with_defaults}
use api_manager.Main.Flags.{Flags}
use api_manager.Session.{Url, connect}
use api_manager.Wiring.{
  new_node_label_reconciler, new_pvc_label_reconciler, new_node_delete_reconciler,
  new_namespace_delete_reconciler, new_shared_volume_reconciler, setup_node_label, setup_pvc_label,
  setup_node_delete, setup_namespace_delete, setup_fencer, setup_shared_volumes,
}
use api_manager.World.Client
use api_manager.World.Env.{Env, Reply}
use api_manager.World.Errors.{wrapped, Result}
use api_manager.World.Monad.{M, pure, throw, handle, ◌>>=◌}
use api_manager.World.Setup.{
  CertOptions, install_telemetry, new_manager, new_uncached_client, provision_certificate,
  start_refresh, new_decoder, register_webhook, mutates_pods, mutates_pvcs, start_manager,
}

-- `if err := m; err != nil { fatal(err, msg) }`
unfoldable pub or_fatal : (msg : String) → M Unit → M Unit
or_fatal msg m = handle m pure (λ e. throw (wrapped msg e))

abbrev pub namespaces_of : Flags → Namespaces
namespaces_of f = record {
  namespace = f.namespace;
  webhook_secret_namespace = f.webhook_secret_namespace;
  webhook_service_namespace = f.webhook_service_namespace;
}

abbrev pub cert_options : Flags → Namespaces → CertOptions
cert_options f n = record {
  validity = f.webhook_cert_validity;
  refresh_interval = f.webhook_cert_refresh_interval;
  service = record { namespace = n.webhook_service_namespace; name = f.webhook_service_name };
  secret = record { namespace = n.webhook_secret_namespace; name = f.webhook_secret_name };
  mutating_config = f.webhook_config_mutating;
}

module _ (env : Env) (f : Flags) where
  -- `SetupWithManager` of each controller.
  unfoldable pub setup_controllers : M Unit
  setup_controllers = do
    a ← or_fatal "failed to register shared volume reconciler" (
        setup_shared_volumes env (
          new_shared_volume_reconciler f.volume_poll_interval f.volume_expiry_interval
            f.k8s_create_poll_interval f.k8s_create_wait_duration))
    b ←
        if f.enable_pvc_label_sync
        then or_fatal "failed to register pvc label reconciler" (
            setup_pvc_label env
              (new_pvc_label_reconciler f.pvc_label_resync_delay f.pvc_label_resync_interval)
              f.pvc_label_sync_workers)
        else pure tt
    c ←
        if f.enable_node_label_sync
        then or_fatal "failed to register node label reconciler" (
            setup_node_label env
              (new_node_label_reconciler f.node_label_resync_delay f.node_label_resync_interval)
              f.node_label_sync_workers)
        else pure tt
    d ← or_fatal "failed to register node delete reconciler" (
        setup_node_delete env
          (new_node_delete_reconciler f.node_delete_gc_delay f.node_delete_gc_interval)
          f.node_delete_workers)
    e ← or_fatal "failed to register namespace delete reconciler" (
        setup_namespace_delete env
          (new_namespace_delete_reconciler f.namespace_delete_gc_delay
            f.namespace_delete_gc_interval)
          f.namespace_delete_workers)
    or_fatal "failed to register node fencing reconciler" (
        setup_fencer env (new_reconciler f.node_poll_interval f.node_expiry_interval)
          f.node_fencer_workers f.node_fencer_retry_interval f.node_fencer_timeout)

  -- What `main` does once it is connected.
  unfoldable pub start_up : Namespaces → M Unit
  start_up n = do
    a ← or_fatal "unable to start manager" (
        Client.perform env
          (new_manager f.metrics_addr 9443 f.enable_leader_election "storageos-api-manager-lease"))
    b ← or_fatal "failed to create raw client" (Client.perform env new_uncached_client)
    c ←
        or_fatal "unable to provision certificate"
          (Client.perform env (provision_certificate (cert_options f n)))
    d ← Client.perform env (start_refresh f.api_secret_path f.api_refresh_interval)
    e ← setup_controllers
    g ← or_fatal "failed to build decoder" (Client.perform env new_decoder)
    h ←
        Client.perform env
          (register_webhook f.webhook_mutate_pods_path (mutates_pods f.scheduler_name))
    i ←
        Client.perform env
          (register_webhook f.webhook_mutate_pvcs_path (mutates_pvcs default_labels))
    or_fatal "failed to start manager" (Client.perform env start_manager)

module _ (env : Env) (parse_url : String → Reply String Url) (join : (path file : String) → String)
    (in_cluster : Result String) where
  -- Over a number of attempts to connect: whether `main` has come past the connection.
  unfoldable pub main : Flags → (attempts : ℕ) → M Bool
  main f attempts = do
    a ←
        or_fatal "unable to setup telemetry exporter"
          (Client.perform env (install_telemetry "api-manager"))
    client ← connect env parse_url join f.api_secret_path f.api_endpoint attempts
    elim client [
      | none ↦ pure false
      | some c ↦ start_up env f (with_defaults in_cluster (namespaces_of f)) >>= λ u. pure true
    ]
