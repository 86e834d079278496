-- ===== src/Main/Flags.antt =====
-- The command line of main.go. The package `flag` parses it; the options of the logger are left
-- out.
use api_manager.Base.{String, Bool, true, false, ◌*◌}
use api_manager.Go.Strconv.{ℤ, pos}
use api_manager.Go.Time.{Duration, seconds, minutes, hours}

pub record Flags : Type 0 where
  pub metrics_addr : String
  pub enable_leader_election : Bool
  pub namespace : String
  pub scheduler_name : String
  pub webhook_service_name : String
  pub webhook_service_namespace : String
  pub webhook_secret_name : String
  pub webhook_secret_namespace : String
  pub webhook_config_mutating : String
  pub webhook_mutate_pods_path : String
  pub webhook_mutate_pvcs_path : String
  pub webhook_cert_validity : Duration
  pub webhook_cert_refresh_interval : Duration
  pub api_secret_path : String
  pub api_endpoint : String
  pub volume_poll_interval : Duration
  pub node_poll_interval : Duration
  pub volume_expiry_interval : Duration
  pub node_expiry_interval : Duration
  pub api_refresh_interval : Duration
  pub api_retry_interval : Duration
  pub k8s_create_poll_interval : Duration
  pub k8s_create_wait_duration : Duration
  pub namespace_delete_gc_interval : Duration
  pub node_delete_gc_interval : Duration
  pub node_label_resync_interval : Duration
  pub pvc_label_resync_interval : Duration
  pub namespace_delete_gc_delay : Duration
  pub node_delete_gc_delay : Duration
  pub node_label_resync_delay : Duration
  pub pvc_label_resync_delay : Duration
  pub node_fencer_workers : ℤ
  pub node_fencer_retry_interval : Duration
  pub node_fencer_timeout : Duration
  pub node_delete_workers : ℤ
  pub namespace_delete_workers : ℤ
  pub node_label_sync_workers : ℤ
  pub pvc_label_sync_workers : ℤ
  pub enable_pvc_label_sync : Bool
  pub enable_node_label_sync : Bool

abbrev pub default_flags : Flags
default_flags = record {
  metrics_addr = ":8080";
  enable_leader_election = false;
  namespace = "";
  scheduler_name = "storageos-scheduler";
  webhook_service_name = "storageos-webhook";
  webhook_service_namespace = "";
  webhook_secret_name = "storageos-webhook";
  webhook_secret_namespace = "";
  webhook_config_mutating = "storageos-mutating-webhook";
  webhook_mutate_pods_path = "/mutate-pods";
  webhook_mutate_pvcs_path = "/mutate-pvcs";
  webhook_cert_validity = hours (365 * 24);
  webhook_cert_refresh_interval = minutes 30;
  api_secret_path = "/etc/storageos/secrets/api";
  api_endpoint = "storageos";
  volume_poll_interval = seconds 5;
  node_poll_interval = seconds 5;
  volume_expiry_interval = minutes 1;
  node_expiry_interval = hours 1;
  api_refresh_interval = minutes 1;
  api_retry_interval = seconds 5;
  k8s_create_poll_interval = seconds 1;
  k8s_create_wait_duration = seconds 20;
  namespace_delete_gc_interval = hours 1;
  node_delete_gc_interval = hours 1;
  node_label_resync_interval = hours 1;
  pvc_label_resync_interval = hours 1;
  namespace_delete_gc_delay = seconds 20;
  node_delete_gc_delay = seconds 30;
  node_label_resync_delay = seconds 10;
  pvc_label_resync_delay = seconds 5;
  node_fencer_workers = pos 5;
  node_fencer_retry_interval = seconds 5;
  node_fencer_timeout = seconds 25;
  node_delete_workers = pos 5;
  namespace_delete_workers = pos 5;
  node_label_sync_workers = pos 5;
  pvc_label_sync_workers = pos 5;
  enable_pvc_label_sync = true;
  enable_node_label_sync = true;
}
