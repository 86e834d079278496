-- ===== src/Tests/World.antt =====
-- A small cluster: one node that has gone offline, with one fenced pod on one StorageOS volume.
-- Every write succeeds, and what is not listed here is not found.
use api_manager.World.Objects.{
  NodeSpec, CapacityStats, offline, StorageClass, Volume, VolumeAttachment, Pod, ApiNode, Pvc,
  Namespace,
}
use api_manager.World.Env.{done, failed, Env, KubeReply}
use api_manager.Base.{
  replicate, ◌==◌, true, if◌then◌else◌, [], some, false, ◌∷◌, List, none, String-discrete,
}
use api_manager.Storageos.Node.{node_health_offline, Node}
use api_manager.Fencer.{driver_name}
use api_manager.Labels.{reserved_label_fencing}
use api_manager.Provisioner.{pvc_provisioner_annotation_key}

abbrev pub missing : {A : Type 0} → KubeReply A
missing = failed "NotFound"

abbrev pub sample_pvc : Pvc
sample_pvc = record {
  name = "data-0";
  namespace = "app";
  uid = "pvc-uid";
  labels = some (("storageos.com/replicas", "2") ∷ ("tier", "db") ∷ []);
  annotations = some ((pvc_provisioner_annotation_key, driver_name) ∷ []);
  volume_name = "pv-1";
  storage_class_name = some "fast";
  creation_timestamp = 20;
}

abbrev pub sample_pod : Pod
sample_pod = record {
  name = "db-0";
  namespace = "app";
  labels = some ((reserved_label_fencing, "true") ∷ []);
  annotations = none;
  volumes =
      record { name = "config"; claim_name = none }
      ∷ record { name = "data"; claim_name = some "data-0" }
      ∷ [];
  scheduler_name = "default-scheduler";
}

abbrev pub sample_attachment : VolumeAttachment
sample_attachment = record {
  name = "va-1";
  attacher = driver_name;
  node_name = "node-1";
  persistent_volume_name = some "pv-1";
}

abbrev pub inline_attachment : VolumeAttachment
inline_attachment = record {
  name = "va-0";
  attacher = "other.csi";
  node_name = "node-1";
  persistent_volume_name = none;
}

abbrev pub sample_volume : Volume
sample_volume = record {
  id = "vol-id";
  name = "pv-1";
  namespace_id = "ns-id";
  version = "v7";
  labels = some (("storageos.com/replicas", "1") ∷ ("tier", "web") ∷ []);
  service_endpoint = none;
  healthy = true;
}

abbrev pub sick_volume : Volume
sick_volume = record sample_volume { healthy = false }

abbrev pub sample_namespace : Namespace
sample_namespace = record { id = "ns-id"; name = "app"; version = "v1" }

abbrev sample_spec : NodeSpec
sample_spec = record {
  io_endpoint = "10.0.0.1:5703";
  supervisor_endpoint = "10.0.0.1:5704";
  gossip_endpoint = "10.0.0.1:5711";
  clustering_endpoint = "10.0.0.1:5710";
}

abbrev sample_capacity : CapacityStats
sample_capacity = record { total = 100; free = 60; available = 50 }

abbrev pub sample_api_node : ApiNode
sample_api_node = record {
  id = "node-id";
  name = "node-1";
  version = "v3";
  labels = some (("storageos.com/computeonly", "true") ∷ ("zone", "a") ∷ []);
  created_at = 5;
  endpoints = sample_spec;
  capacity = sample_capacity;
  health = offline;
}

abbrev pub sample_node : Node
sample_node = record {
  name = "node-1";
  uid = "node-id";
  resource_version = "v3";
  labels = none;
  creation_timestamp = 5;
  spec = sample_spec;
  capacity = sample_capacity;
  health = node_health_offline;
}

abbrev pub sample_class : StorageClass
sample_class = record {
  name = "fast";
  uid = "sc-uid";
  provisioner = driver_name;
  annotations = none;
  parameters = some (("storageos.com/encryption", "true") ∷ ("fsType", "ext4") ∷ []);
  creation_timestamp = 10;
}

-- The cluster, by its attachments and the state of its volume.
unfoldable pub cluster : List VolumeAttachment → Volume → Env
unfolding String-discrete
cluster attachments volume = record {
  node_exists = λ h key. if key.name == "node-1" then done tt else missing;
  pvc_at = λ h key. if key.name == "data-0" then done sample_pvc else missing;
  pv_at = λ h key. missing;
  storage_class_at = λ h key. if key.name == "fast" then done sample_class else missing;
  secret_at = λ h key. missing;
  service_at = λ h key. missing;
  endpoints_at = λ h key. missing;
  pods_on = λ h node. if node == "node-1" then done (sample_pod ∷ []) else done [];
  attachments_on = λ h node. done attachments;
  storage_classes = λ h. done (sample_class ∷ []);
  kube_write = λ h c. done tt;
  secret_created = λ h s. done s;
  service_updated = λ h s. done s;
  namespaces = λ h. done (sample_namespace ∷ []);
  nodes = λ h. done (sample_api_node ∷ []);
  volumes_in = λ h ns. if ns == "ns-id" then done (volume ∷ []) else done [];
  volume_at = λ h ns id. done volume;
  api_write = λ h c. done tt;
  token_refreshed = λ h. done "Bearer fresh";
  authenticated = λ h user password. done "Bearer new";
  random = λ h n. done (replicate n 7);
  uuid = λ h. "0-0";
  file_at = λ h path. done " secret ";
  set_up = λ h s. done tt;
}

abbrev pub healthy_cluster : Env
healthy_cluster = cluster (sample_attachment ∷ []) sample_volume

abbrev pub sick_cluster : Env
sick_cluster = cluster (sample_attachment ∷ []) sick_volume

abbrev pub inline_cluster : Env
inline_cluster = cluster (inline_attachment ∷ sample_attachment ∷ []) sample_volume
