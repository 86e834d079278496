-- ===== src/PvcMutator.antt =====
-- controllers/pvc-mutator/controller.go and storageclass/annotation.go: the mutation of a new
-- claim.
pub mod Keys
pub mod Encryption
use api_manager.World.Env.{Env}
use api_manager.Base.{if◌then◌else◌, [], some, ◌∷◌, String, List}
use api_manager.World.Objects.{unset, Pvc}
use api_manager.Go.Maps.{entries, StringMap}
use api_manager.World.Monad.{throw, handle, M, pure, ◌>>=◌}
use api_manager.Provisioner.{
  storage_class_uuid_annotation_key, driver_name, is_provisioned_storage_class,
  storage_class_for_pvc,
}
use api_manager.Base.Dict.{insert}
use api_manager.World.Errors.{wrapped}
use api_manager.Admission.{Mutator}

-- `annotations[k] = v`, after a nil map was replaced by an empty one.
abbrev pub annotated : StringMap → String → String → StringMap
annotated m k v = some (insert k v (entries m))

-- `AnnotationSetter.MutatePVC`
unfoldable pub set_storage_class_annotation : Env → Mutator Pvc
set_storage_class_annotation env claim namespace = do
  sc ←
      handle (storage_class_for_pvc env claim) pure
        (λ e. throw (wrapped "failed to check pvc provisioner" e))
  pure (
      if is_provisioned_storage_class sc (driver_name ∷ [])
      then record claim {
        annotations = annotated claim.annotations storage_class_uuid_annotation_key sc.uid;
      }
      else claim)
