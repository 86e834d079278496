-- ===== src/World/Monad.antt =====
-- Go functions that call other systems: they extend the history, and end with a value, an error or
-- a fault.
use api_manager.Base.{◌∷◌}
use api_manager.World.Errors.{Error, kube, api, Fault, Result, ok, err, panic}
use api_manager.World.Calls.{Call}
use api_manager.World.Env.{History, done, failed, KubeReply, ApiReply}

abbrev pub M : Type 0 → Type 0
M A = History → Result A × History

module _ {A : Type 0} where
  unfoldable pub pure : A → M A
  pure a h = (ok a, h)

  unfoldable pub throw : Error → M A
  throw e h = (err e, h)

  unfoldable pub fault : Fault → M A
  fault f h = (panic f, h)

  unfoldable pub lift : Result A → M A
  lift r h = (r, h)

module _ {A B : Type 0} where
  -- `v, err := m; if err != nil { on_error } else { on_value }`
  abbrev pub resume : Result A → (A → M B) → (Error → M B) → M B
  resume (ok a) f g h = f a h
  resume (err e) f g h = g e h
  resume (panic x) f g h = (panic x, h)

  unfoldable pub handle : M A → (A → M B) → (Error → M B) → M B
  unfolding pure throw fault lift
  handle m f g h = let (r, h') = m h in resume r f g h'

  -- `v, err := m; if err != nil { return err }`
  infixl 10 ◌>>=◌ ◌>>◌
  unfoldable pub ◌>>=◌ : M A → (A → M B) → M B
  unfolding handle
  m >>= f = handle m f throw

  abbrev pub ◌>>◌ : M A → M B → M B
  m >> n = m >>= λ _. n

module _ {A : Type 0} where
  abbrev pub kube_result : KubeReply A → Result A
  kube_result (done a) = ok a
  kube_result (failed reason) = err (kube reason)

  abbrev pub api_result : ApiReply A → Result A
  api_result (done a) = ok a
  api_result (failed f) = err (api f)

  -- A call of the Kubernetes API, and one of the StorageOS API.
  unfoldable pub ask_kube : Call → (History → KubeReply A) → M A
  ask_kube c f h = (kube_result (f h), c ∷ h)

  unfoldable pub ask_api : Call → (History → ApiReply A) → M A
  ask_api c f h = (api_result (f h), c ∷ h)
