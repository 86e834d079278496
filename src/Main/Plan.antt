-- ===== src/Main/Plan.antt =====
-- The start of main.go against the list of what it is to set up.
use api_manager.Base.{String, List, [], ◌∷◌, ◌++◌, Bool, true, false, if◌then◌else◌}
use api_manager.Fencer.Poller.{Intervals, new_reconciler, clamped}
use api_manager.Go.Time.{times, Duration}
use api_manager.Go.Strconv.{ℤ}
use api_manager.Main.{default_labels, Namespaces}
use api_manager.Main.Flags.{Flags}
use api_manager.Main.Start.{or_fatal, cert_options, setup_controllers, start_up}
use api_manager.Main.Steps.{Follows, Follows-pure, Follows-perform, Follows-bind, Follows-relabel}
use api_manager.Wiring.{
  initialized, setup_node_label, setup_pvc_label, setup_node_delete, setup_namespace_delete,
  setup_fencer,
}
use api_manager.World.Client
use api_manager.World.Env.{Env}
use api_manager.World.Errors.{wrapped}
use api_manager.World.Monad.{◌>>=◌, M, pure}
use api_manager.World.Setup.{
  Setup, Watched, nodes, namespaces, claims, new_manager, new_uncached_client,
  provision_certificate, start_refresh, start_poller, add_shared_volumes, init_reconciler,
  init_action, index_field, complete_controller, complete_fencer, new_decoder, register_webhook,
  mutates_pods, mutates_pvcs, start_manager,
}

-- What the label controllers need, if they are enabled.
abbrev pub when : Bool → List Setup → List Setup
when true xs = xs
when false xs = []

-- The controllers, with the flags that each is to get.
abbrev pub controllers : Flags → List Setup
controllers f =
    add_shared_volumes (record {
      api_poll_interval = f.volume_poll_interval;
      cache_expiry_interval = f.volume_expiry_interval;
      k8s_create_poll_interval = f.k8s_create_poll_interval;
      k8s_create_wait_duration = f.k8s_create_wait_duration;
    })
    ∷ (when f.enable_pvc_label_sync (
          init_reconciler "volume-label-sync" claims f.pvc_label_resync_delay
            f.pvc_label_resync_interval
          ∷ complete_controller claims f.pvc_label_sync_workers
          ∷ [])
        ++ (when f.enable_node_label_sync (
              init_reconciler "node-label-sync" nodes f.node_label_resync_delay
                f.node_label_resync_interval
              ∷ complete_controller nodes f.node_label_sync_workers
              ∷ [])
            ++ (init_reconciler "node-delete" nodes f.node_delete_gc_delay f.node_delete_gc_interval
                ∷ complete_controller nodes f.node_delete_workers
                ∷ init_reconciler "ns-delete" namespaces f.namespace_delete_gc_delay
                    f.namespace_delete_gc_interval
                ∷ complete_controller namespaces f.namespace_delete_workers
                ∷ start_poller (clamped f.node_poll_interval) f.node_expiry_interval
                    (times 5 f.node_expiry_interval)
                ∷ index_field "Pod" "spec.nodeName"
                ∷ index_field "VolumeAttachment" "spec.nodeName"
                ∷ init_action (record {
                  name = "pod-fencer";
                  timeout = f.node_fencer_timeout;
                  retry_period = f.node_fencer_retry_interval;
                })
                ∷ complete_fencer f.node_fencer_workers
                ∷ [])))

-- What is to be set up, in this order, behind the connection to the StorageOS API: the manager comes
-- first, and is started last.
abbrev pub plan : Flags → Namespaces → List Setup
plan f n =
    new_manager f.metrics_addr 9443 f.enable_leader_election "storageos-api-manager-lease"
    ∷ new_uncached_client
    ∷ provision_certificate (cert_options f n)
    ∷ start_refresh f.api_secret_path f.api_refresh_interval
    ∷ (controllers f
        ++ (new_decoder
            ∷ register_webhook f.webhook_mutate_pods_path (mutates_pods f.scheduler_name)
            ∷ register_webhook f.webhook_mutate_pvcs_path (mutates_pvcs default_labels)
            ∷ start_manager
            ∷ []))

module _ (env : Env) where
  then_ :
      (s : Setup) (ys : List Setup) (n : M Unit)
      → Follows env ys n
      → Follows env (s ∷ ys) (Client.perform env s >>= λ u. n)
  then_ s ys n k = Follows-bind env (s ∷ []) ys _ n (Follows-perform env s) k

  fatally :
      (msg : String) (xs : List Setup) (m : M Unit)
      → Follows env xs m
      → Follows env xs (or_fatal msg m)
  unfolding or_fatal
  fatally msg xs m k = Follows-relabel env xs m (λ e. wrapped msg e) k

  -- `Init` and `Complete`.
  managed :
      (name : String) (watched : Watched) (delay period : Duration) (workers : ℤ)
      → Follows env
          (init_reconciler name watched delay period ∷ complete_controller watched workers ∷ [])
          (initialized env name watched delay period >>= λ u.
            Client.perform env (complete_controller watched workers))
  unfolding initialized
  managed name watched delay period workers =
      Follows-bind env (init_reconciler name watched delay period ∷ []) _ _ _
        (Follows-relabel env _ _ _ (Follows-perform env _)) (Follows-perform env _)

  fencer :
      (r : Intervals) (workers : ℤ) (retry timeout : Duration)
      → Follows env
          (start_poller r.poll_interval r.expiry_interval r.cleanup_interval
            ∷ index_field "Pod" "spec.nodeName"
            ∷ index_field "VolumeAttachment" "spec.nodeName"
            ∷ init_action (record { name = "pod-fencer"; timeout = timeout; retry_period = retry })
            ∷ complete_fencer workers
            ∷ [])
          (setup_fencer env r workers retry timeout)
  unfolding setup_fencer
  fencer r workers retry timeout =
      then_ _ _ _ (then_ _ _ _ (then_ _ _ _ (then_ _ _ _ (Follows-perform env _))))

  if_enabled :
      (b : Bool) (xs : List Setup) (m : M Unit)
      → Follows env xs m
      → Follows env (when b xs) (if b then m else pure tt)
  if_enabled true xs m k = k
  if_enabled false xs m k = Follows-pure env

module _ (env : Env) (f : Flags) where
  Follows-controllers : Follows env (controllers f) (setup_controllers env f)
  unfolding setup_controllers setup_pvc_label setup_node_label setup_node_delete
      setup_namespace_delete new_reconciler
  Follows-controllers =
      Follows-bind env (_ ∷ []) _ _ _ (fatally env _ _ _ (Follows-perform env _)) (
        Follows-bind env (when f.enable_pvc_label_sync _) _ _ _
          (if_enabled env f.enable_pvc_label_sync _ _ (fatally env _ _ _ (managed env _ _ _ _ _)))
          (Follows-bind env (when f.enable_node_label_sync _) _ _ _
            (if_enabled env f.enable_node_label_sync _ _
              (fatally env _ _ _ (managed env _ _ _ _ _)))
            (Follows-bind env (_ ∷ _ ∷ []) _ _ _ (fatally env _ _ _ (managed env _ _ _ _ _)) (
              Follows-bind env (_ ∷ _ ∷ []) _ _ _ (fatally env _ _ _ (managed env _ _ _ _ _))
                (fatally env _ _ _ (fencer env _ _ _ _))))))

  -- Behind its connection `main` does a beginning of the list of what is to be set up, in the order
  -- of the list and with the flags that each part is to get, the two web hooks with the name of the
  -- scheduler and with the default labels, and nothing else. It returns without an error only if that
  -- is the whole list and each step whose error it looks at was answered; it ends with an error only
  -- at a step that failed, with those before it answered; and if no step fails then it returns.
  pub start_up-Follows : (n : Namespaces) → Follows env (plan f n) (start_up env f n)
  unfolding start_up
  start_up-Follows n = Follows-bind env (_ ∷ []) _ _ _ (fatally env _ _ _ (Follows-perform env _)) (
      Follows-bind env (_ ∷ []) _ _ _ (fatally env _ _ _ (Follows-perform env _)) (
        Follows-bind env (_ ∷ []) _ _ _ (fatally env _ _ _ (Follows-perform env _)) (
          then_ env _ _ _ (
            Follows-bind env (controllers f) _ _ _ Follows-controllers (
              Follows-bind env (_ ∷ []) _ _ _ (fatally env _ _ _ (Follows-perform env _))
                (then_ env _ _ _ (then_ env _ _ _ (fatally env _ _ _ (Follows-perform env _)))))))))
