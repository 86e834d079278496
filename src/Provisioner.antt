-- ===== src/Provisioner.antt =====
-- internal/pkg/provisioner/storageos.go and storageclass.go: which claims and volumes are those of
-- the StorageOS driver, and the storage class of a claim.
pub mod Classes
use api_manager.World.Calls
use api_manager.World.Client
use text.Mathlib.Text.{starts_with}
use api_manager.Base.Dict.{lookup, insert, Dict, only}
use api_manager.World.Env.{Env}
use api_manager.Base.{
  is_none, not, true, ltb, ◌==◌, ◌!=◌, some, [], ◌∷◌, if◌then◌else◌, none, false, Option, Bool,
  String, List,
}
use api_manager.Go.Maps.{entries, index, get, StringMap}
use api_manager.World.Objects.{Pvc, StorageClass}
use api_manager.World.Monad.{◌>>◌, throw, fault, lift, ◌>>=◌, resume, pure, handle, M}
use api_manager.World.Errors.{wrapped, unsupported_kind, message, ok, err, nil_map_write, Result}

abbrev pub driver_name : String
driver_name = "csi.storageos.com"

abbrev pub node_driver_annotation_key : String
node_driver_annotation_key = "csi.volume.kubernetes.io/nodeid"

abbrev pub pvc_provisioner_annotation_key : String
pvc_provisioner_annotation_key = "volume.beta.kubernetes.io/storage-provisioner"

abbrev pub pvc_storage_class_key : String
pvc_storage_class_key = "volume.beta.kubernetes.io/storage-class"

abbrev pub default_storage_class_key : String
default_storage_class_key = "storageclass.kubernetes.io/is-default-class"

abbrev pub storage_class_uuid_annotation_key : String
storage_class_uuid_annotation_key = "storageos.com/storageclass"

abbrev pub reserved_param_prefix : String
reserved_param_prefix = "storageos.com/"

-- `unmarshal` is `json.Unmarshal` into a map of texts: nothing for a text that it refuses.
unfoldable pub is_storageos_node :
    (unmarshal : String → Option (Dict String)) → StringMap → Result Bool
is_storageos_node unmarshal annotations = elim (get annotations node_driver_annotation_key) [
  | none ↦ ok false
  | some drivers ↦ elim (unmarshal drivers) [
    | none ↦ err (message "invalid JSON")
    | some drivers_map ↦ ok (not (is_none (lookup driver_name drivers_map)))
  ]
]

unfoldable pub has_storageos_annotation : (annotations : StringMap) → Bool
has_storageos_annotation annotations = elim (get annotations pvc_provisioner_annotation_key) [
  | none ↦ false
  | some provisioner ↦ provisioner == driver_name
]

-- `IsStorageOS`, for an object of the given kind.
unfoldable pub is_storageos :
    (unmarshal : String → Option (Dict String)) (kind : String) (annotations : StringMap)
    → Result Bool
is_storageos unmarshal kind annotations =
    if kind == "Node"
    then is_storageos_node unmarshal annotations
    else if kind == "PersistentVolumeClaim"
    then ok (has_storageos_annotation annotations)
    else err unsupported_kind

unfoldable pub is_provisioned_storage_class : StorageClass → (provisioners : List String) → Bool
is_provisioned_storage_class sc [] = false
is_provisioned_storage_class sc (provisioner ∷ rest) =
    if sc.provisioner == provisioner then true else is_provisioned_storage_class sc rest

unfoldable pub pvc_storage_class_name : Pvc → String
pvc_storage_class_name pvc =
    let by_annotation = index pvc.annotations pvc_storage_class_key in
    elim pvc.storage_class_name [
      | none ↦ by_annotation
      | some name ↦ if name != "" then name else by_annotation
    ]

abbrev pub is_default : StorageClass → Bool
is_default sc = elim (get sc.annotations default_storage_class_key) [
  | none ↦ false
  | some val ↦ val == "true"
]

unfoldable pub find_default : List StorageClass → Result StorageClass
find_default [] = err (message "default StorageClass not found")
find_default (sc ∷ rest) = if is_default sc then ok sc else find_default rest

-- The parameters of a storage class that are StorageOS's.
unfoldable pub storage_class_reserved_params : StorageClass → Dict String
unfolding only
storage_class_reserved_params sc =
    only (λ k. starts_with k reserved_param_prefix) (entries sc.parameters)

module _ (env : Env) where
  unfoldable pub default_storage_class : M StorageClass
  default_storage_class =
      handle (Client.list_storage_classes env) (λ classes. lift (find_default classes))
        (λ e. throw (wrapped "failed to get StorageClasses" e))

  unfoldable pub storage_class : (name : String) → M StorageClass
  storage_class name =
      if name == ""
      then default_storage_class
      else handle (Client.get_storage_class env (Client.cluster_key name)) pure
          (λ e. throw (wrapped "failed to get StorageClass" e))

  unfoldable pub storage_class_for_pvc : Pvc → M StorageClass
  storage_class_for_pvc pvc =
      let name = pvc_storage_class_name pvc in
      if name == "" then default_storage_class else storage_class name

  unfoldable pub is_provisioned_pvc : Pvc → (provisioners : List String) → M Bool
  is_provisioned_pvc pvc provisioners = do
    sc ← storage_class_for_pvc pvc
    pure (is_provisioned_storage_class sc provisioners)

  -- `IsProvisionedVolume`, of the volume's claim.
  unfoldable pub is_provisioned_volume :
      (claim : Option String) (namespace : String) (provisioners : List String) → M Bool
  is_provisioned_volume none namespace provisioners = pure false
  is_provisioned_volume (some claim) namespace provisioners = do
    pvc ←
        handle (Client.get_pvc env (record { namespace = namespace; name = claim })) pure
          (λ e. throw (wrapped "failed to get PVC" e))
    is_provisioned_pvc pvc provisioners

  unfoldable pub is_storageos_volume : (claim : Option String) (namespace : String) → M Bool
  is_storageos_volume claim namespace = is_provisioned_volume claim namespace (driver_name ∷ [])

  -- The annotation of the claim as it was fetched is set. A write to a nil map is a fault.
  unfoldable pub set_storage_class_uid : StorageClass → Pvc → M Bool
  set_storage_class_uid sc pvc = elim pvc.annotations [
    | none ↦ fault nil_map_write
    | some annotations ↦
        Client.kube_do env (
          Calls.update_pvc (record pvc {
            annotations = some (insert storage_class_uuid_annotation_key sc.uid annotations);
          }))
        >> pure true
  ]

  unfoldable pub validate_or_set_storage_class_uid : StorageClass → Pvc → M Bool
  validate_or_set_storage_class_uid sc pvc =
      let provisioned_uid = index pvc.annotations storage_class_uuid_annotation_key in
      if provisioned_uid != ""
      then pure (sc.uid == provisioned_uid)
      else if ltb pvc.creation_timestamp sc.creation_timestamp
      then pure false
      else (Client.get_pvc env (record { namespace = pvc.namespace; name = pvc.name })
          >>= set_storage_class_uid sc)
