-- ===== src/Admission.antt =====
-- `Handle` of controllers/pod-mutator/controller.go and of controllers/pvc-mutator/controller.go:
-- the answer to an admission request. The decoder of the request and json.Marshal are parameters.
use api_manager.Base.{ℕ, String, List, [], ◌∷◌}
use api_manager.World.Env.{Reply, done, failed}
use api_manager.World.Errors.{Error, message}
use api_manager.World.Monad.{M, pure, handle, ◌>>=◌}

-- The namespace of the request, and the object as it was sent.
pub record Request : Type 0 where
  pub namespace : String
  pub raw : String

-- A refusal with a status, or the patch from one text of the object to another.
pub data Response : Type 0 where
  errored : (status : ℕ) → Error → Response
  patch : (original mutated : String) → Response

abbrev pub status_bad_request : ℕ
status_bad_request = 400

abbrev pub status_internal_server_error : ℕ
status_internal_server_error = 500

-- A change of an object in a namespace; the object as the change leaves it.
abbrev pub Mutator : Type 0 → Type 0
Mutator A = A → (namespace : String) → M A

module _ {A : Type 0} where
  -- The loop over the mutators. An error ends it.
  unfoldable pub run_mutators : List (Mutator A) → Mutator A
  run_mutators [] obj namespace = pure obj
  run_mutators (m ∷ rest) obj namespace = m obj namespace >>= λ o. run_mutators rest o namespace

module _ {A : Type 0} (decode : Request → Reply String A) (marshal : A → Reply String String) where
  abbrev pub marshalled : (raw : String) → Reply String String → Response
  marshalled raw (done text) = patch raw text
  marshalled raw (failed reason) = errored status_internal_server_error (message reason)

  -- The answer about a decoded object.
  unfoldable pub mutated : List (Mutator A) → Request → A → M Response
  unfolding run_mutators
  mutated mutators req obj =
      handle (run_mutators mutators obj req.namespace) (λ o. pure (marshalled req.raw (marshal o)))
        (λ e. pure (errored status_internal_server_error e))

  abbrev pub answer : List (Mutator A) → Request → Reply String A → M Response
  answer mutators req (done obj) = mutated mutators req obj
  answer mutators req (failed reason) = pure (errored status_bad_request (message reason))

  unfoldable pub handle_request : List (Mutator A) → Request → M Response
  unfolding mutated
  handle_request mutators req = answer mutators req (decode req)
