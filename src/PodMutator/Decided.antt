-- ===== src/PodMutator/Decided.antt =====
-- What controllers/pod-mutator/scheduler makes of a pod whose claims can be looked up.
use mathlib.Core.List.{append-nil, append_assoc}
use api_manager.PodMutator.{
  is_storageos_volume, is_empty, List, Pod, Bool, PodVolume, String, Env, PodSchedulerSetter,
  opted_out, managed_volumes, mutate_pod,
}
use api_manager.Base.{
  ◌∙◌, false, !=_of_apart, true, refl, [], arith, inr, inl, ◌==◌, Bool-cases, ◌∷◌, sym, ◌&&◌, ◌!=◌,
  any, ◌++◌, if◌then◌else◌, not, ◌≡◌, keep, All,
}
use api_manager.World.Ending.{
  Ends-weaken, Ends-handle, Ends-bind, Ends-if, Ends-pure, NoError, NoFault, Ends,
}

off : {A : Type 0} (b c : Bool) (x y : A) → (if b && false && c then x else y) ≡ y
off true c x y = refl
off false c x y = refl

flipped :
    {A : Type 0} (b : Bool) (x y : A)
    → (if not b then y else x) ≡ (if true && true && b then x else y)
flipped true x y = refl
flipped false x y = refl

module _ (env : Env) (namespace : String) (ours : PodVolume → Bool) where
  -- Each lookup of a volume is answered, with whether the volume is one of StorageOS.
  abbrev pub AreDecided : List PodVolume → Type 0
  AreDecided vols =
      All
        (λ vol.
          Ends NoFault NoError (λ b. b ≡ ours vol)
            (is_storageos_volume env vol.claim_name namespace))
        vols

  managed_volumes-Ends :
      (managed vols : List PodVolume)
      → AreDecided vols
      → Ends NoFault NoError
          (λ r. r ≡ managed ++ keep ours vols)
          (managed_volumes env namespace managed vols)
  unfolding managed_volumes
  managed_volumes-Ends managed [] d = Ends-pure _ (sym (append-nil managed))
  managed_volumes-Ends managed (vol ∷ rest) (k, d) =
      Ends-bind {R = λ b. b ≡ ours vol} (Ends-handle k (λ b e. Ends-pure _ e) (λ e x. absurd x))
        (λ b e.
          Ends-weaken (λ r at. at ∙ go b e)
            (managed_volumes-Ends (if b then managed ++ vol ∷ [] else managed) rest d))
    where
      go :
          (b : Bool)
          → b ≡ ours vol
          → (if b then managed ++ vol ∷ [] else managed) ++ keep ours rest
            ≡ managed ++ (if ours vol then vol ∷ keep ours rest else keep ours rest)
      go true e = rw⁻¹ e (append_assoc managed (vol ∷ []) (keep ours rest))
      go false e = rw⁻¹ e refl

  is_empty-keep : (vols : List PodVolume) → is_empty (keep ours vols) ≡ not (any ours vols)
  is_empty-keep [] = refl
  is_empty-keep (vol ∷ rest) = elim (Bool-cases (ours vol)) [
    | inl e ↦ rw e refl
    | inr e ↦ rw e (is_empty-keep rest)
  ]

  -- If each lookup of a volume of the pod is answered, then mutating the pod succeeds. The
  -- scheduler of the pod is then set exactly when one is configured, the pod has not opted out, and
  -- one of its volumes is of StorageOS; and nothing else changes.
  pub mutate_pod-Ends :
      (setter : PodSchedulerSetter) (pod : Pod)
      → AreDecided pod.volumes
      → Ends NoFault NoError
          (λ r. r ≡ (
            if setter.scheduler_name != "" && not (opted_out setter pod) && any ours pod.volumes
            then record pod { scheduler_name = setter.scheduler_name }
            else pod))
          (mutate_pod env setter pod namespace)
  unfolding mutate_pod
  mutate_pod-Ends setter pod d =
      Ends-if (setter.scheduler_name == "") _ _ (λ e. Ends-pure _ (ground arith))
        (λ configured.
          Ends-if (opted_out setter pod) _ _ (λ e. Ends-pure _ (rw e (sym (off _ _ _ _))))
            (λ not_out. Ends-bind (managed_volumes-Ends [] pod.volumes d) (λ managed e.
              Ends-pure _ (
                rw
                  (
                    e,
                    is_empty-keep pod.volumes,
                    !=_of_apart setter.scheduler_name "" configured,
                    not_out,
                  )
                  (flipped (any ours pod.volumes)
                    (record pod { scheduler_name = setter.scheduler_name }) pod)))))
