-- ===== src/PodMutator.antt =====
-- controllers/pod-mutator/scheduler/scheduler.go and controller.go: the scheduler of a pod with
-- volumes of StorageOS.
pub mod Scheduling
pub mod Decided
use api_manager.Base.{
  not, ◌&&◌, ◌++◌, is_none, some, is_empty, false, [], ◌==◌, none, if◌then◌else◌, ◌∷◌, Bool, List,
  String,
}
use api_manager.World.Objects.{PodVolume, Pod}
use api_manager.World.Env.{Env}
use api_manager.Fencer.{driver_name}
use api_manager.World.Monad.{throw, handle, ◌>>=◌, pure, M}
use api_manager.Go.Maps.{get}
use api_manager.Provisioner.{is_storageos_volume}
use api_manager.Go.Strconv.{parse_bool}
use api_manager.World.Errors.{wrapped}

abbrev pub pod_scheduler_annotation_key : String
pod_scheduler_annotation_key = "storageos.com/scheduler"

pub record PodSchedulerSetter : Type 0 where
  pub provisioners : List String
  pub scheduler_name : String
  pub scheduler_annotation_key : String

abbrev pub new_pod_scheduler_setter : (scheduler : String) → PodSchedulerSetter
new_pod_scheduler_setter scheduler = record {
  provisioners = driver_name ∷ [];
  scheduler_name = scheduler;
  scheduler_annotation_key = pod_scheduler_annotation_key;
}

-- The annotation of the pod is set to a text that reads as false.
unfoldable pub opted_out : PodSchedulerSetter → Pod → Bool
opted_out setter pod = elim (get pod.annotations setter.scheduler_annotation_key) [
  | none ↦ false
  | some val ↦ let enabled = parse_bool val in is_none enabled.error && not enabled.value
]

module _ (env : Env) where
  -- The loop over the volumes of the pod.
  unfoldable pub managed_volumes :
      (namespace : String) (managed vols : List PodVolume) → M (List PodVolume)
  managed_volumes namespace managed [] = pure managed
  managed_volumes namespace managed (vol ∷ rest) = do
    ours ←
        handle (is_storageos_volume env vol.claim_name namespace) pure
          (λ e. throw (wrapped "failed to determine if the volume is managed" e))
    managed_volumes namespace (if ours then managed ++ vol ∷ [] else managed) rest

  -- The pod as the mutation leaves it.
  unfoldable pub mutate_pod : PodSchedulerSetter → Pod → (namespace : String) → M Pod
  mutate_pod setter pod namespace =
      if setter.scheduler_name == ""
      then pure pod
      else if opted_out setter pod
      then pure pod
      else (managed_volumes namespace [] pod.volumes >>= λ managed.
          pure (
            if is_empty managed
            then pod
            else record pod { scheduler_name = setter.scheduler_name }))
