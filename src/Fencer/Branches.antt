-- ===== src/Fencer/Branches.antt =====
-- The branches of controllers/fencer/fencer.go: what happens when a volume is unhealthy, a call
-- fails or a pod cannot be fenced.
use api_manager.World.Env.{done, failed, History, Env}
use api_manager.World.Errors.{kube, panic, err, ok, Result}
use api_manager.World.Trace.{Extends-refl, Ensures-weaken, Extends-trans, Extends}
use api_manager.Base.{[], All-map, All, refl, ◌∷◌, false, String, true, all, ◌≡◌, List}
use api_manager.World.Objects.{Volume, Pvc, Pod, VolumeAttachment}
use api_manager.Fencer.{
  throw, pure, fence_pods, delete_attachments, wrapped, pod_key, Kind, delete_pod, ◌>>=◌, fence_pod,
  volume_keys, stos_volumes, pod_pvcs,
}
use api_manager.World.Calls.{IsRead, kube_delete, Call}
use api_manager.World.Monad.{resume, ◌>>=◌, ask_kube}
use api_manager.Fencer.PodClaims.{stos_volumes-Ensures, pod_pvcs-Ensures}
use api_manager.Fencer.Safety.{fence_pod-Ensures}

-- `h'` is `h` with more calls.
abbrev pub Later : History → History → Type 0
Later = Extends (λ c. Unit)

module _ (env : Env) (vas : List VolumeAttachment) (pod : Pod) (h h1 h2 : History) (pvcs : List Pvc)
    (volumes : List Volume) (claims : pod_pvcs env pod h ≡ (ok pvcs, h1))
    (found : stos_volumes env (volume_keys pvcs) h1 ≡ (ok volumes, h2)) where
  abbrev deletion : Call
  deletion = kube_delete Kind.pod (pod_key pod) 0

  -- If one of the volumes that were found is not healthy, the pod is left running: the run returns
  -- without an error, and every call that it made is a read.
  pub fence_pod_unhealthy :
      all (λ v. v.healthy) volumes ≡ false
      → ((fence_pod env pod vas h).0 ≡ ok tt) × Extends IsRead h (fence_pod env pod vas h).1
  unfolding fence_pod ◌>>=◌
  fence_pod_unhealthy unhealthy =
      rw (claims, found, unhealthy)
        (
          refl,
          Extends-trans (rw claims at ((pod_pvcs-Ensures env pod).calls h))
              (rw found at ((stos_volumes-Ensures env (volume_keys pvcs)).calls h1)),
        )

  -- If all are healthy and the deletion of the pod fails, the run fails with that error, and its
  -- last call is the deletion: no attachment is deleted.
  pub fence_pod_delete_failed :
      (reason : String)
      → all (λ v. v.healthy) volumes ≡ true
      → env.kube_write h2 deletion ≡ failed reason
      → fence_pod env pod vas h
        ≡ (err (wrapped "failed to delete pod" (kube reason)), deletion ∷ h2)
  unfolding fence_pod delete_pod ◌>>=◌ ask_kube
  fence_pod_delete_failed reason healthy fails = rw (claims, found, healthy, fails)

  -- If all are healthy and the pod is deleted, the attachments are deleted after the pod.
  pub fence_pod_deleted :
      all (λ v. v.healthy) volumes ≡ true
      → env.kube_write h2 deletion ≡ done tt
      → fence_pod env pod vas h ≡ delete_attachments env vas pvcs (deletion ∷ h2)
  unfolding fence_pod delete_pod ◌>>=◌ ask_kube
  fence_pod_deleted healthy works = rw (claims, found, healthy, works)

module _ (env : Env) (vas : List VolumeAttachment) where
  fence_pod-Later : (pod : Pod) (h : History) → Later h (fence_pod env pod vas h).1
  fence_pod-Later pod h =
      (Ensures-weaken {P' = λ c. Unit} (λ c f. tt) (λ a q. q) (fence_pod-Ensures env vas pod)).calls
        h

  -- The pod was fenced from some point of the run from `h` to `h'`.
  pub record Attempted (h h' : History) (pod : Pod) : Type 0 where
    pub start : History
    pub before : Later h start
    pub after : Later (fence_pod env pod vas start).1 h'

  Attempted-earlier :
      (h h1 h' : History) (pods : List Pod)
      → Later h h1
      → All (Attempted h1 h') pods
      → All (Attempted h h') pods
  Attempted-earlier h h1 h' pods l =
      All-map (Attempted h1 h') (Attempted h h') pods
        (λ pod a. record { start = a.start; before = Extends-trans l a.before; after = a.after })

  unfoldable pub Swept : History → List Pod → Result (Unit {0}) × History → Type 0
  Swept h pods (ok a, h') = Later h h' × All (Attempted h h') pods
  Swept h pods (err e, h') = ⊥
  Swept h pods (panic f, h') = Unit

  Swept-cons :
      (h h1 : History) (pod : Pod) (pods : List Pod) (o : Result (Unit {0}) × History)
      → h1 ≡ (fence_pod env pod vas h).1
      → Later h h1
      → Swept h1 pods o
      → Swept h (pod ∷ pods) o
  unfolding Swept
  Swept-cons h h1 pod pods (ok a, h') e l s = (
    Extends-trans l s.0,
    (
      record { start = h; before = Extends-refl h; after = rw (← e) s.0 },
      Attempted-earlier h h1 h' pods l s.1,
    ),
  )
  Swept-cons h h1 pod pods (err x, h') e l s = s
  Swept-cons h h1 pod pods (panic f, h') e l s = tt

  -- However the single pods end, the loop over the pods of a node never ends with an error; and if
  -- it ends without a fault, fencing was attempted for each of the pods.
  pub fence_pods-Swept : (pods : List Pod) (h : History) → Swept h pods (fence_pods env vas pods h)
  unfolding fence_pods Swept ◌>>=◌
  fence_pods-Swept [] h = (Extends-refl h, tt)
  fence_pods-Swept (pod ∷ rest) h =
      go (fence_pod env pod vas h).0 (fence_pod env pod vas h).1 refl (fence_pod-Later pod h)
        (λ h1. fence_pods-Swept rest h1)
    where
      go :
          (r : Result (Unit {0})) (h1 : History)
          → h1 ≡ (fence_pod env pod vas h).1
          → Later h h1
          → ((h1 : History) → Swept h1 rest (fence_pods env vas rest h1))
          → Swept h (pod ∷ rest) (
              resume
                (resume r pure (λ e. pure tt) h1).0
                (λ _. fence_pods env vas rest)
                throw
                (resume r pure (λ e. pure tt) h1).1)
      go (ok a) h1 e l ih = Swept-cons h h1 pod rest (fence_pods env vas rest h1) e l (ih h1)
      go (err x) h1 e l ih = Swept-cons h h1 pod rest (fence_pods env vas rest h1) e l (ih h1)
      go (panic f) h1 e l ih = tt
