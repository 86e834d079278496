-- ===== src/World/Client.antt =====
-- The calls of the Kubernetes client and of the interface ControlPlane, as the code makes them.
use api_manager.Base.{◌∷◌, if◌then◌else◌, ℕ, String, List}
use api_manager.World.Objects.{
  ObjectKey, Pod, Pvc, Pv, VolumeAttachment, StorageClass, Secret, Service, Endpoints, Namespace,
  ApiNode, Volume,
}
use api_manager.World.Calls
use api_manager.World.Calls.{Call, Kind, kube_get, kube_list, kube_delete}
use api_manager.World.Env.{failed, done, Reply, Env}
use api_manager.World.Monad.{M, ask_kube, ask_api}
use api_manager.World.Setup.{can_fail, Setup}
use api_manager.World.Errors.{message, err, ok, Result}

abbrev pub cluster_key : String → ObjectKey
cluster_key name = record { namespace = ""; name = name }

-- `gracePeriodSeconds` of controllers/fencer/fencer.go.
abbrev pub grace_period_seconds : ℕ
grace_period_seconds = 0

module _ (env : Env) where
  abbrev pub get_node : ObjectKey → M Unit
  get_node key = ask_kube (kube_get Kind.k8s_node key) (λ h. env.node_exists h key)

  abbrev pub get_pvc : ObjectKey → M Pvc
  get_pvc key = ask_kube (kube_get Kind.pvc key) (λ h. env.pvc_at h key)

  abbrev pub get_pv : ObjectKey → M Pv
  get_pv key = ask_kube (kube_get Kind.pv key) (λ h. env.pv_at h key)

  abbrev pub get_storage_class : ObjectKey → M StorageClass
  get_storage_class key =
      ask_kube (kube_get Kind.storage_class key) (λ h. env.storage_class_at h key)

  abbrev pub get_secret : ObjectKey → M Secret
  get_secret key = ask_kube (kube_get Kind.secret key) (λ h. env.secret_at h key)

  abbrev pub get_service : ObjectKey → M Service
  get_service key = ask_kube (kube_get Kind.service key) (λ h. env.service_at h key)

  abbrev pub get_endpoints : ObjectKey → M Endpoints
  get_endpoints key = ask_kube (kube_get Kind.endpoints key) (λ h. env.endpoints_at h key)

  abbrev pub list_pods : String → M (List Pod)
  list_pods node = ask_kube (kube_list Kind.pod node) (λ h. env.pods_on h node)

  abbrev pub list_volume_attachments : String → M (List VolumeAttachment)
  list_volume_attachments node =
      ask_kube (kube_list Kind.volume_attachment node) (λ h. env.attachments_on h node)

  abbrev pub list_storage_classes : M (List StorageClass)
  list_storage_classes = ask_kube (kube_list Kind.storage_class "") env.storage_classes

  -- Create, Update and Delete.
  abbrev pub kube_do : Call → M Unit
  kube_do c = ask_kube c (λ h. env.kube_write h c)

  abbrev pub delete_now : Kind → ObjectKey → M Unit
  delete_now kind key = kube_do (kube_delete kind key grace_period_seconds)

  abbrev pub create_secret : Secret → M Secret
  create_secret s = ask_kube (Calls.create_secret s) (λ h. env.secret_created h s)

  abbrev pub update_service : Service → M Service
  update_service s = ask_kube (Calls.update_service s) (λ h. env.service_updated h s)

  abbrev pub list_namespaces : M (List Namespace)
  list_namespaces = ask_api Calls.list_namespaces env.namespaces

  abbrev pub list_nodes : M (List ApiNode)
  list_nodes = ask_api Calls.list_nodes env.nodes

  abbrev pub list_volumes : String → M (List Volume)
  list_volumes ns = ask_api (Calls.list_volumes ns) (λ h. env.volumes_in h ns)

  abbrev pub get_volume : String → String → M Volume
  get_volume ns id = ask_api (Calls.get_volume ns id) (λ h. env.volume_at h ns id)

  -- The calls that change an object of the StorageOS API.
  abbrev pub api_do : Call → M Unit
  api_do c = ask_api c (λ h. env.api_write h c)

  -- A step of the set-up; the answer of one whose error the code does not look at counts as none.
  abbrev pub answered : Setup → Reply String (Unit {0}) → Result (Unit {0})
  answered s (done a) = ok tt
  answered s (failed reason) = if can_fail s then err (message reason) else ok tt

  abbrev pub perform : Setup → M Unit
  perform s h = (answered s (env.set_up h s), Calls.set_up s ∷ h)
