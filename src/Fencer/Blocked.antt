-- ===== src/Fencer/Blocked.antt =====
-- How one pod stops the fencing of its node in controllers/fencer/fencer.go, and how one attachment
-- stops the process.
use api_manager.World.Errors.{err, ok, Result}
use api_manager.World.Env.{done, History, Env}
use api_manager.Fencer.{
  fence_pods, Kind, is_fenced, VolumeAttachment, pod_pvcs, List, String, M, panic, Error, handle,
  get_target_pods, ◌>>=◌, target_pod, target_pods_from, fence_node,
}
use api_manager.World.Objects.{Pod}
use api_manager.World.Monad.{handle, resume, ask_kube, ◌>>=◌, throw}
use api_manager.Base.{refl, [], ◌≢◌, ◌∷◌, true, ◌≡◌, In}
use api_manager.World.Calls.{IsRead, kube_list}
use api_manager.World.Trace.{Extends-cons, Extends-trans, Extends}
use api_manager.Fencer.Nodes.{target_pods_from-Ensures}

-- The claims of the pod cannot be read, whenever it is tried.
abbrev pub Unreadable : Env → Pod → Type 0
Unreadable env pod = (h : History) → (e : Error) × ((pod_pvcs env pod h).0 ≡ err e)

abbrev NotOk {ℓ} : {A : Type ℓ} → Result A → Type 0
NotOk (ok a) = ⊥
NotOk (err e) = Unit
NotOk (panic f) = Unit

module _ (env : Env) where
  target_pod-NotOk :
      (pod : Pod) (found : List Pod) (h : History)
      → is_fenced pod ≡ true
      → Unreadable env pod
      → NotOk (target_pod env found pod h).0
  unfolding target_pod handle
  target_pod-NotOk pod found h fenced bad = rw fenced (rw ((bad h).1) tt)

  bind-NotOk :
      {A B : Type 0} (r : Result A) (h : History) (f : A → M B)
      → ((a : A) (h : History) → NotOk (f a h).0)
      → NotOk (resume r f throw h).0
  unfolding throw
  bind-NotOk (ok a) h f k = k a h
  bind-NotOk (err e) h f k = tt
  bind-NotOk (panic x) h f k = tt

  stop-NotOk :
      {A B : Type 0} (r : Result A) (h : History) (f : A → M B)
      → NotOk r
      → NotOk (resume r f throw h).0
  unfolding throw
  stop-NotOk (ok a) h f k = absurd k
  stop-NotOk (err e) h f k = tt
  stop-NotOk (panic x) h f k = tt

  target_pods_from-NotOk :
      (pod : Pod) (found rest : List Pod) (h : History)
      → In pod rest
      → is_fenced pod ≡ true
      → Unreadable env pod
      → NotOk (target_pods_from env found rest h).0
  unfolding target_pods_from ◌>>=◌
  target_pods_from-NotOk pod found [] h i fenced bad = elim i [ ]
  target_pods_from-NotOk pod found (p ∷ rest) h (In.here e) fenced bad =
      stop-NotOk (target_pod env found p h).0 _ _
        (target_pod-NotOk p found h (rw (← e) fenced) (λ k. rw (← e) (bad k)))
  target_pods_from-NotOk pod found (p ∷ rest) h (In.there i) fenced bad =
      bind-NotOk (target_pod env found p h).0 _ _
        (λ found' k. target_pods_from-NotOk pod found' rest k i fenced bad)

  -- If the claims of a single fenced pod of the node cannot be read, then fencing the node deletes
  -- nothing at all: the run does not return, and every call that it makes is a read.
  pub fence_node_blocked :
      (node_name : String) (h : History) (vas : List VolumeAttachment) (pods : List Pod) (pod : Pod)
      → env.attachments_on h node_name ≡ done vas
      → env.pods_on (kube_list Kind.volume_attachment node_name ∷ h) node_name ≡ done pods
      → In pod pods
      → is_fenced pod ≡ true
      → Unreadable env pod
      → Extends IsRead h (fence_node env node_name h).1 × ((fence_node env node_name h).0 ≢ ok tt)
  unfolding fence_node get_target_pods ◌>>=◌ ask_kube throw
  fence_node_blocked node_name h vas pods pod attached listed among fenced bad =
      rw (attached, listed)
        (go _ _ (target_pods_from-NotOk pod [] pods h2 among fenced bad)
          ((target_pods_from-Ensures env node_name h1 pods [] pods listed (λ p i. i) tt).calls h2))
    where
      h1 : History
      h1 = kube_list Kind.volume_attachment node_name ∷ h

      h2 : History
      h2 = kube_list Kind.pod node_name ∷ h1

      reads : {k : History} → Extends IsRead h2 k → Extends IsRead h k
      reads x = Extends-trans (Extends-cons _ h refl) (Extends-trans (Extends-cons _ h1 refl) x)

      go :
          (r : Result (List Pod)) (k : History)
          → NotOk r
          → Extends IsRead h2 k
          → Extends IsRead h (resume r (fence_pods env vas) throw k).1
            × ((resume r (fence_pods env vas) throw k).0 ≢ ok tt)
      go (ok l) k n x = absurd n
      go (err e) k n x = (reads x, λ p. cc)
      go (panic f) k n x = (reads x, λ p. cc)
