-- ===== src/PvcMutator/Encryption.antt =====
-- controllers/pvc-mutator/encryption/keygen.go: a new claim with encryption gets a secret with
-- keys, and annotations that point to it.
pub mod Namespaces
use api_manager.World.Calls
use api_manager.Provisioner.{is_provisioned_storage_class, storage_class_for_pvc, driver_name}
use api_manager.Go.Maps.{entries, get, index, StringMap}
use api_manager.Crypto.{Primitives}
use api_manager.World.Calls.{pvc}
use api_manager.World.Env.{Env}
use api_manager.Base.{
  not, ◌!=◌, some, ◌∷◌, false, none, [], ◌==◌, ◌<>◌, true, if◌then◌else◌, Bool, List, String,
}
use api_manager.World.Monad.{lift, pure, throw, handle, ◌>>=◌, resume, M}
use api_manager.World.Objects.{unset, Pvc, ObjectKey}
use api_manager.PvcMutator.{Mutator, annotated}
use api_manager.Labels.{reserved_label_encryption}
use api_manager.Storageos.VolumeLabels.{copy_if}
use api_manager.World.Errors.{parsed_result, wrapped, cross_namespace, Result, ok}
use api_manager.PvcMutator.Keys.{ensure_keys}
use api_manager.Go.Strconv.{parse_bool}
use api_manager.Base.Dict.{insert}

abbrev pub secret_name_annotation_key : String
secret_name_annotation_key = "storageos.com/encryption-secret-name"

abbrev pub secret_namespace_annotation_key : String
secret_namespace_annotation_key = "storageos.com/encryption-secret-namespace"

abbrev pub volume_secret_name_prefix : String
volume_secret_name_prefix = "storageos-volume-key"

abbrev pub volume_secret_pvc_name_label : String
volume_secret_pvc_name_label = "storageos.com/pvc"

abbrev pub namespace_secret_name : String
namespace_secret_name = "storageos-namespace-key"

-- The labels are those of the secrets that the key manager creates.
pub record EncryptionKeySetter : Type 0 where
  pub enabled_label : String
  pub secret_name_annotation : String
  pub secret_namespace_annotation : String
  pub labels : StringMap

abbrev pub new_key_setter : (labels : StringMap) → EncryptionKeySetter
new_key_setter labels = record {
  enabled_label = reserved_label_encryption;
  secret_name_annotation = secret_name_annotation_key;
  secret_namespace_annotation = secret_namespace_annotation_key;
  labels = labels;
}

-- `isEnabled`: the first of the maps with the label decides.
unfoldable pub is_enabled : (enabled_label : String) → List StringMap → Result Bool
is_enabled enabled_label [] = ok false
is_enabled enabled_label (hay_stack ∷ rest) = elim (get hay_stack enabled_label) [
  | none ↦ is_enabled enabled_label rest
  | some val ↦ parsed_result (parse_bool val)
]

abbrev pub namespace_secret_key_ref : (namespace : String) → ObjectKey
namespace_secret_key_ref namespace = record { namespace = namespace; name = namespace_secret_name }

-- The claim asks for a secret in another namespace.
unfoldable pub is_cross_namespace : EncryptionKeySetter → Pvc → (namespace : String) → Bool
is_cross_namespace s claim namespace = elim (get claim.annotations s.secret_namespace_annotation) [
  | none ↦ false
  | some requested ↦ requested != namespace
]

unfoldable pub volume_secret_labels : EncryptionKeySetter → (claim_name : String) → StringMap
volume_secret_labels s claim_name =
    let labels = copy_if (λ k. true) (entries s.labels) [] in
    if claim_name != ""
    then some (insert volume_secret_pvc_name_label claim_name labels)
    else some labels

unfoldable pub generate_volume_secret_name : Env → M String
generate_volume_secret_name env h =
    (ok (volume_secret_name_prefix <> "-" <> env.uuid h), Calls.new_uuid ∷ h)

-- The namespace of the volume's secret: the annotation's, or that of the request.
unfoldable pub secret_namespace : EncryptionKeySetter → Pvc → (namespace : String) → String
secret_namespace s claim namespace =
    let requested = index claim.annotations s.secret_namespace_annotation in
    if requested == "" then namespace else requested

unfoldable pub volume_secret_key_ref : Env → EncryptionKeySetter → Pvc → String → M ObjectKey
volume_secret_key_ref env s claim namespace =
    let requested = index claim.annotations s.secret_name_annotation in
    (if requested == "" then generate_volume_secret_name env else pure requested) >>= λ name.
    pure (record { namespace = secret_namespace s claim namespace; name = name })

-- The claim with the two annotations that point to the volume's secret.
abbrev pub pointing_to : EncryptionKeySetter → Pvc → ObjectKey → Pvc
pointing_to s claim ref = record claim {
  annotations =
      annotated (annotated claim.annotations s.secret_name_annotation ref.name)
        s.secret_namespace_annotation ref.namespace;
}

module _ (prim : Primitives) (env : Env) (s : EncryptionKeySetter) where
  unfoldable pub encrypt_claim : Mutator Pvc
  encrypt_claim claim namespace =
      if is_cross_namespace s claim namespace
      then throw cross_namespace
      else (volume_secret_key_ref env s claim namespace >>= λ ref.
          handle
            (ensure_keys prim env (namespace_secret_key_ref namespace) ref s.labels
              (volume_secret_labels s claim.name))
            pure (λ e. throw (wrapped "failed to ensure encryption key present for pvc" e))
          >>= λ _. pure (pointing_to s claim ref))

  -- `EncryptionKeySetter.MutatePVC`
  unfoldable pub set_encryption_keys : Mutator Pvc
  set_encryption_keys claim namespace = do
    sc ←
        handle (storage_class_for_pvc env claim) pure
          (λ e. throw (wrapped "failed to retrieve storageclass of pvc" e))
    if not (is_provisioned_storage_class sc (driver_name ∷ []))
        then pure claim
        else (handle (lift (is_enabled s.enabled_label (claim.labels ∷ sc.parameters ∷ []))) pure
              (λ e. throw (wrapped "failed to parse boolean value" e))
            >>= λ enabled. if enabled then encrypt_claim claim namespace else pure claim)
