-- ===== src/World/Setup.antt =====
-- What the code asks of the Kubernetes machinery while it sets itself up: of controller-runtime, of
-- operator-toolkit and of the tracing exporter.
use api_manager.Base.{true, false, ℕ, String, Bool}
use api_manager.Go.Strconv.{ℤ}
use api_manager.Go.Time.{Duration}
use api_manager.World.Objects.{ObjectKey}
use api_manager.Go.Maps.{StringMap}

-- The kinds that the controllers watch.
pub data Watched : Type 0 where
  nodes namespaces claims : Watched

-- `cert.Options`
pub record CertOptions : Type 0 where
  pub validity : Duration
  pub refresh_interval : Duration
  pub service : ObjectKey
  pub secret : ObjectKey
  pub mutating_config : String

-- The options of the fencing action.
pub record ActionOptions : Type 0 where
  pub name : String
  pub timeout : Duration
  pub retry_period : Duration

-- The shared volume controller, as it is added to the manager.
pub record SharedVolumeIntervals : Type 0 where
  pub api_poll_interval : Duration
  pub cache_expiry_interval : Duration
  pub k8s_create_poll_interval : Duration
  pub k8s_create_wait_duration : Duration

-- The handler of a web hook: the mutator for pods with the name of the scheduler that it sets, or
-- those for claims with the labels of the secrets that they create.
pub data Handler : Type 0 where
  mutates_pods : (scheduler_name : String) → Handler
  mutates_pvcs : (labels : StringMap) → Handler

pub data Setup : Type 0 where
  install_telemetry : (service : String) → Setup
  new_manager :
      (metrics_addr : String) (port : ℕ) (leader_election : Bool) (leader_election_id : String)
      → Setup
  new_uncached_client : Setup
  provision_certificate : CertOptions → Setup
  -- the goroutine of `Refresh`
  start_refresh : (secret_path : String) (interval : Duration) → Setup
  -- the goroutine of `pollNodes`, with its cache
  start_poller : (poll_interval expiry_interval cleanup_interval : Duration) → Setup
  add_shared_volumes : SharedVolumeIntervals → Setup
  -- `Reconciler.Init`, with the delay and the period of the resync or of the garbage collection
  init_reconciler : (name : String) → Watched → (delay period : Duration) → Setup
  init_action : ActionOptions → Setup
  index_field : (kind field : String) → Setup
  -- the end of a chain that builds a controller
  complete_controller : Watched → (workers : ℤ) → Setup
  complete_fencer : (workers : ℤ) → Setup
  new_decoder : Setup
  register_webhook : (path : String) → Handler → Setup
  start_manager : Setup

-- Whether the code looks at an error of the call.
abbrev pub can_fail : Setup → Bool
can_fail (start_refresh secret_path interval) = false
can_fail (start_poller poll expiry cleanup) = false
can_fail (init_action options) = false
can_fail (register_webhook path handler) = false
can_fail _ = true
