-- ===== src/World/Calls.antt =====
-- Every call that the code makes of another system, with its arguments.
use api_manager.Base.{false, ◌≡◌, true, ℕ, String, Bool}
use api_manager.Go.Maps.{StringMap}
use api_manager.World.Setup.{Setup}
use api_manager.World.Objects.{ObjectKey, Pvc, Secret, Service, Endpoints, FailureModeIntent}

-- The kinds of the objects that are read from Kubernetes.
pub data Kind : Type 0 where
  k8s_node pod pvc pv volume_attachment storage_class secret service endpoints : Kind

pub data Call : Type 0 where
  -- the Kubernetes client
  kube_get : Kind → ObjectKey → Call
  kube_list : Kind → (node_name : String) → Call
  create_secret : Secret → Call
  create_service : Service → Call
  create_endpoints : Endpoints → Call
  update_service : Service → Call
  update_endpoints : Endpoints → Call
  update_pvc : Pvc → Call
  kube_delete : Kind → ObjectKey → (grace_period : ℕ) → Call
  -- the interface ControlPlane of the StorageOS API
  refresh_jwt : (token : String) → Call
  authenticate_user : (username password : String) → Call
  list_namespaces : Call
  delete_namespace : (id version : String) → Call
  list_nodes : Call
  update_node : (id : String) (labels : StringMap) (version : String) → Call
  delete_node : (id version : String) → Call
  set_compute_only : (id : String) (compute_only : Bool) (version : String) → Call
  list_volumes : (namespace_id : String) → Call
  get_volume : (namespace_id id : String) → Call
  update_volume : (namespace_id id : String) (labels : StringMap) (version : String) → Call
  set_replicas : (namespace_id id : String) (replicas : ℕ) (version : String) → Call
  set_failure_mode :
      (namespace_id id : String) (mode : FailureModeIntent) (threshold : ℕ) (version : String)
      → Call
  update_nfs_mount_endpoint : (namespace_id id endpoint version : String) → Call
  -- the random generator, the mounted secret files, the reset channel
  random_bytes : (n : ℕ) → Call
  new_uuid : Call
  read_file : (path : String) → Call
  api_reset : Call
  wait : Call
  -- the set-up of the process
  set_up : Setup → Call

-- The calls that change nothing in Kubernetes and in StorageOS.
abbrev pub is_read : Call → Bool
is_read (kube_get kind key) = true
is_read (kube_list kind node) = true
is_read list_namespaces = true
is_read list_nodes = true
is_read (list_volumes ns) = true
is_read (get_volume ns id) = true
is_read _ = false

abbrev pub IsRead : Call → Type 0
IsRead c = is_read c ≡ true
