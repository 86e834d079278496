-- ===== src/PodMutator/Scheduling.antt =====
-- Which pods controllers/pod-mutator/scheduler/scheduler.go changes, and how.
use api_manager.PodMutator.{
  PodVolume, List, Pod, String, Env, PodSchedulerSetter, opted_out, managed_volumes, mutate_pod,
}
use api_manager.Base.{
  refl, true, arith, inr, All-append, inl, [], ◌++◌, is_empty, if◌then◌else◌, false, Bool, ◌≢◌,
  All-map, ◌==◌, some, ◌⊎◌, ◌∷◌, In, All, ◌≡◌,
}
use api_manager.World.Trace.{
  Ensures-throw, Ensures-if, Ensures-handle, Ensures-bind, Ensures-pure, Ensures,
}
use api_manager.World.Calls.{IsRead}
use api_manager.Provisioner.Classes.{is_storageos_volume-Ensures, ManagedIf, IsManaged}

module _ (env : Env) (setter : PodSchedulerSetter) (namespace : String) where
  -- A volume of the pod whose claim is provisioned by StorageOS.
  abbrev pub ManagedVolume : List PodVolume → PodVolume → Type 0
  ManagedVolume vols vol =
      In vol vols
      × ((claim : String) × (vol.claim_name ≡ some claim) × IsManaged env namespace claim)

  ManagedVolume-cons :
      (v : PodVolume) (vols managed : List PodVolume)
      → All (ManagedVolume vols) managed
      → All (ManagedVolume (v ∷ vols)) managed
  ManagedVolume-cons v vols managed =
      All-map (ManagedVolume vols) (ManagedVolume (v ∷ vols)) managed (λ w m. (In.there m.0, m.1))

  managed_volumes-Ensures :
      (P : PodVolume → Type 0) (managed vols : List PodVolume)
      → All P managed
      → ((v : PodVolume) → ManagedVolume vols v → P v)
      → Ensures IsRead (All P) (managed_volumes env namespace managed vols)
  unfolding managed_volumes
  managed_volumes-Ensures P managed [] all_managed into = Ensures-pure _ all_managed
  managed_volumes-Ensures P managed (vol ∷ rest) all_managed into =
      Ensures-bind {R = ManagedIf env vol.claim_name namespace}
        (Ensures-handle (is_storageos_volume-Ensures env vol.claim_name namespace)
          (λ b m. Ensures-pure b m) (λ e. Ensures-throw _))
        (λ b m. managed_volumes-Ensures P _ rest (extended b m) (λ v q. into v (In.there q.0, q.1)))
    where
      extended :
          (b : Bool)
          → ManagedIf env vol.claim_name namespace b
          → All P (if b then managed ++ vol ∷ [] else managed)
      extended true m =
          All-append P managed (vol ∷ []) all_managed (into vol (In.here refl, m refl), tt)
      extended false m = all_managed

  -- The pod is unchanged; or only its scheduler is, which is the configured one, the pod has not
  -- opted out, and it has a volume of StorageOS.
  abbrev pub IsScheduled : (pod result : Pod) → Type 0
  IsScheduled pod result =
      (result ≡ pod)
      ⊎ ((result ≡ record pod { scheduler_name = setter.scheduler_name })
          × (setter.scheduler_name ≢ "")
          × (opted_out setter pod ≡ false)
          × ((vol : PodVolume) × ManagedVolume pod.volumes vol))

  -- Mutating a pod only reads, and it leaves the pod as it is, or sets its scheduler to the
  -- configured one and nothing else; and it does that only if a scheduler is configured, the pod
  -- has not opted out, and the class of a claim of one of its volumes has the StorageOS
  -- provisioner.
  pub mutate_pod-Ensures :
      (pod : Pod) → Ensures IsRead (IsScheduled pod) (mutate_pod env setter pod namespace)
  unfolding mutate_pod
  mutate_pod-Ensures pod =
      Ensures-if (setter.scheduler_name == "") _ _ (λ _. Ensures-pure _ (inl refl))
        (λ configured.
          Ensures-if (opted_out setter pod) _ _ (λ _. Ensures-pure _ (inl refl))
            (λ not_out.
              Ensures-bind
                (managed_volumes-Ensures (ManagedVolume pod.volumes) [] pod.volumes tt (λ v m. m))
                (λ managed m. Ensures-pure _ (outcome configured not_out managed m))))
    where
      outcome :
          (setter.scheduler_name == "") ≡ false
          → opted_out setter pod ≡ false
          → (managed : List PodVolume) → All (ManagedVolume pod.volumes) managed
          → IsScheduled pod (
              if is_empty managed
              then pod
              else record pod { scheduler_name = setter.scheduler_name })
      outcome configured not_out [] m = inl refl
      outcome configured not_out (v ∷ vs) m = inr (refl, (λ e. ground arith), not_out, (v, m.0))
