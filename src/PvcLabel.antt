-- ===== src/PvcLabel.antt =====
-- controllers/pvc-label/controller.go and predicate.go: the labels of a claim are kept applied to
-- its StorageOS volume. `Delete` does nothing.
pub mod Sync
pub mod Stale
use api_manager.World.Objects.{Volume, Pvc, StorageClass, ObjectKey}
use api_manager.World.Env.{Env}
use api_manager.Base.Dict.{insert, Dict}
use api_manager.Base.{
  false, ◌==◌, List, some, not, [], none, if◌then◌else◌, ◌∷◌, String, Option, Bool,
}
use api_manager.World.Monad.{throw, pure, lift, handle, ◌>>=◌, M}
use api_manager.World.Errors.{wrapped, ok, message, err, Result}
use api_manager.Go.Maps.{deep_equal, entries}
use api_manager.Provisioner.{
  validate_or_set_storage_class_uid, has_storageos_annotation, storage_class,
  storage_class_reserved_params,
}
use api_manager.Storageos.VolumeLabels.{ensure_volume_labels}
use api_manager.Storageos.Volume.{volume_objects}
use api_manager.Predicate.{ignore_all, IgnoreFuncs}

-- `for k, v := range src { dst[k] = v }`
unfoldable pub overlay : (src dst : Dict String) → Dict String
overlay [] dst = dst
overlay ((k, v) ∷ src) dst = overlay src (insert k v dst)

-- The labels of the claim, over the parameters of its storage class.
unfoldable pub labels_to_ensure : StorageClass → Pvc → Dict String
labels_to_ensure sc claim = overlay (entries claim.labels) (storage_class_reserved_params sc)

-- The key of the volume: an empty name is left out when the claim is converted, so it is not found.
unfoldable pub volume_key : Pvc → Result ObjectKey
volume_key claim =
    if claim.volume_name == ""
    then err (message "pv for pvc not yet provisioned")
    else ok (record { namespace = claim.namespace; name = claim.volume_name })

abbrev pub spec_storage_class_name : Pvc → String
spec_storage_class_name claim = elim claim.storage_class_name [ none ↦ "" | some name ↦ name ]

module _ (env : Env) where
  unfoldable pub apply_to_volume : StorageClass → Pvc → M Unit
  apply_to_volume sc claim = do
    key ← lift (volume_key claim)
    ensure_volume_labels env key (some (labels_to_ensure sc claim))

  unfoldable pub ensure : Pvc → M Unit
  ensure claim = do
    sc ←
        handle (storage_class env (spec_storage_class_name claim)) pure
          (λ e. throw (wrapped "failed to get storageclass for pvc" e))
    same ←
        handle (validate_or_set_storage_class_uid env sc claim) pure
          (λ e. throw (wrapped "failed to set storageclass annotation on the pvc" e))
    if same then apply_to_volume sc claim else pure tt

-- The loop of `Diff`, over the map of `VolumeObjects`.
unfoldable pub diff : (volumes : ObjectKey → Option Volume) → List Pvc → List Pvc
diff volumes [] = []
diff volumes (claim ∷ rest) =
    let apply = diff volumes rest in
    elim (volumes (record { namespace = claim.namespace; name = claim.name })) [
      | none ↦ apply
      | some vol ↦ if deep_equal claim.labels vol.labels then apply else claim ∷ apply
    ]

-- Whether an update of a claim starts a reconcile.
unfoldable pub update : (object_old object_new : Pvc) → Bool
update object_old object_new =
    if not (has_storageos_annotation object_new.annotations)
    then false
    else not (deep_equal object_old.labels object_new.labels)

-- `Diff`
unfoldable pub stale_claims : Env → List Pvc → M (List Pvc)
unfolding diff
stale_claims env claims = do volumes ← volume_objects env; pure (diff volumes claims)

-- The predicate of controllers/pvc-label.
abbrev pub pvc_label_predicate : IgnoreFuncs Pvc
pvc_label_predicate = record ignore_all { update_func = some update }
