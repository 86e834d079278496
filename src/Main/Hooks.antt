-- ===== src/Main/Hooks.antt =====
-- The answers of the two web hooks, with the mutators that main.go registers.
use api_manager.Main.{done, new_pod_scheduler_setter, failed, Pod, String, Reply, Env, pod_mutators}
use api_manager.Admission.{
  status_internal_server_error, Mutator, status_bad_request, Request, Response, handle_request,
  mutated, answer, run_mutators, errored, patch, marshalled,
}
use api_manager.World.Calls.{IsRead, Call}
use api_manager.Base.{inr, inl, refl, ◌⊎◌, List, ◌≡◌}
use api_manager.World.Trace.{Ensures-handle, Ensures-bind, Ensures-pure, Ensures}
use api_manager.PodMutator.Scheduling.{mutate_pod-Ensures, IsScheduled}

-- The answer about a request: a refusal; or the patch to the text of an object that is related to
-- the one in the request.
abbrev pub Answers :
    {A : Type 0}
    → (Request → Reply String A)
    → (A → Reply String String)
    → (A → A → Type 0)
    → Request
    → Response
    → Type 0
Answers decode marshal Related req (errored status e) =
    ((status ≡ status_bad_request) × ((reason : String) × (decode req ≡ failed reason)))
    ⊎ (status ≡ status_internal_server_error)
Answers {A = A} decode marshal Related req (patch original text) =
    (original ≡ req.raw)
    × ((obj : A) × ((obj' : A) × ((decode req ≡ done obj)
            × (marshal obj' ≡ done text)
            × Related obj obj')))

module _ {A : Type 0} (decode : Request → Reply String A) (marshal : A → Reply String String)
    (P : Call → Type 0) (Related : A → A → Type 0) (mutators : List (Mutator A)) (req : Request)
    (each : (obj : A) → Ensures P (Related obj) (run_mutators mutators obj req.namespace)) where
  answer-Ensures :
      (r : Reply String A)
      → decode req ≡ r
      → Ensures P (Answers decode marshal Related req) (answer decode marshal mutators req r)
  unfolding mutated
  answer-Ensures (failed reason) e = Ensures-pure _ (inl (refl, (reason, e)))
  answer-Ensures (done obj) e =
      Ensures-handle (each obj) (λ o k. Ensures-pure _ (go o k (marshal o) refl))
        (λ x. Ensures-pure _ (inr refl))
    where
      go :
          (o : A)
          → Related obj o
          → (m : Reply String String) → marshal o ≡ m
          → Answers decode marshal Related req (marshalled decode marshal req.raw m)
      go o k (done text) at = (refl, (obj, (o, (e, at, k))))
      go o k (failed reason) at = inr refl

  pub handle_request-Ensures :
      Ensures P (Answers decode marshal Related req) (handle_request decode marshal mutators req)
  unfolding handle_request
  handle_request-Ensures = answer-Ensures (decode req) refl

module _ (env : Env) (scheduler_name : String) (decode : Request → Reply String Pod)
    (marshal : Pod → Reply String String) (req : Request) where
  -- The web hook of pods only reads. It refuses a request as bad only if it cannot be decoded;
  -- otherwise it refuses it with an internal error, or it answers with the patch to the pod of the
  -- request, as it is or with the configured scheduler and no other change; and it sets the
  -- scheduler only for a pod that has not opted out and has a volume of StorageOS.
  pub handle_pod-Ensures :
      Ensures IsRead
        (Answers decode marshal
          (IsScheduled env (new_pod_scheduler_setter scheduler_name) req.namespace)
          req)
        (handle_request decode marshal (pod_mutators env scheduler_name) req)
  unfolding run_mutators
  handle_pod-Ensures =
      handle_request-Ensures decode marshal IsRead _ (pod_mutators env scheduler_name) req one
    where
      one :
          (pod : Pod)
          → Ensures IsRead
              (IsScheduled env (new_pod_scheduler_setter scheduler_name) req.namespace pod)
              (run_mutators (pod_mutators env scheduler_name) pod req.namespace)
      one pod =
          Ensures-bind
            (mutate_pod-Ensures env (new_pod_scheduler_setter scheduler_name) req.namespace pod)
            (λ p k. Ensures-pure _ k)
