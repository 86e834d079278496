-- ===== src/World/Run.antt =====
-- Running a function step by step: one rule for each way to build a function, from the runs of its
-- parts.
use api_manager.Base.{◌≡◌, ◌∷◌, ap, ◌∙◌, String, refl}
use api_manager.World.Errors.{Error, kube, Result, ok, err}
use api_manager.World.Calls.{Call}
use api_manager.World.Env.{History, KubeReply, done, failed}
use api_manager.World.Monad.{lift, M, pure, throw, handle, resume, ◌>>=◌, ask_kube, kube_result}

-- From one history the function ends so, with another.
pub data Runs {A : Type 0} (m : M A) (h : History) (r : Result A) (h' : History) : Type 0 where
  runs : m h ≡ (r, h') → Runs m h r h'

module _ {A B : Type 0} where
  handle-resume :
      (m : M A) (f : A → M B) (g : Error → M B) (h : History)
      → handle m f g h ≡ resume (m h).0 f g (m h).1
  unfolding handle
  handle-resume m f g h = refl

  bind-handle : (m : M A) (f : A → M B) (h : History) → (m >>= f) h ≡ handle m f throw h
  unfolding ◌>>=◌
  bind-handle m f h = refl

ask_kube-result :
    {A : Type 0} (c : Call) (f : History → KubeReply A) (h : History)
    → ask_kube c f h ≡ (kube_result (f h), c ∷ h)
unfolding ask_kube
ask_kube-result c f h = refl

module _ {A : Type 0} where
  pub Runs-pure : (a : A) (h : History) → Runs (pure a) h (ok a) h
  unfolding pure
  Runs-pure a h = runs refl

  pub Runs-ask :
      {c : Call} (f : History → KubeReply A) {h : History} (a : A)
      → f h ≡ done a
      → Runs (ask_kube c f) h (ok a) (c ∷ h)
  Runs-ask {c} f {h} a e = runs (ask_kube-result c f h ∙ ap (λ r. (kube_result r, c ∷ h)) e)

  pub Runs-ask_failed :
      {c : Call} (f : History → KubeReply A) {h : History} (reason : String)
      → f h ≡ failed reason
      → Runs (ask_kube c f) h (err (kube reason)) (c ∷ h)
  Runs-ask_failed {c} f {h} reason e =
      runs (ask_kube-result c f h ∙ ap (λ r. (kube_result r, c ∷ h)) e)

module _ {A B : Type 0} {m : M A} (f : A → M B) {h h' h'' : History} {r : Result B} where
  pub Runs-handle :
      (g : Error → M B) {a : A}
      → Runs m h (ok a) h'
      → Runs (f a) h' r h''
      → Runs (handle m f g) h r h''
  Runs-handle g (runs k) (runs l) =
      runs (handle-resume m f g h ∙ ap (λ s. resume s.0 f g s.1) k ∙ l)

  pub Runs-handle_failed :
      (g : Error → M B) {x : Error}
      → Runs m h (err x) h'
      → Runs (g x) h' r h''
      → Runs (handle m f g) h r h''
  Runs-handle_failed g (runs k) (runs l) =
      runs (handle-resume m f g h ∙ ap (λ s. resume s.0 f g s.1) k ∙ l)

  pub Runs-bind : {a : A} → Runs m h (ok a) h' → Runs (f a) h' r h'' → Runs (m >>= f) h r h''
  Runs-bind (runs k) (runs l) =
      runs (bind-handle m f h ∙ handle-resume m f throw h ∙ ap (λ s. resume s.0 f throw s.1) k ∙ l)

pub Runs-lift : {A : Type 0} (r : Result A) (h : History) → Runs (lift r) h r h
unfolding lift
Runs-lift r h = runs refl

pub Runs-lift_ok :
    {A : Type 0} (r : Result A) {a : A} (h : History) → r ≡ ok a → Runs (lift r) h (ok a) h
unfolding lift
Runs-lift_ok r h e = runs (ap (λ r. (r, h)) e)
