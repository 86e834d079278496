-- ===== src/World/Ending.antt =====
-- How a function ends: with a value, an error or a fault, each with what holds of it. One rule for
-- each way to build a function.
use api_manager.Base.{Bool, true, false, ◌≡◌, refl, if◌then◌else◌}
use api_manager.World.Errors.{Error, Fault, Result, ok, err, panic}
use api_manager.World.Calls.{Call}
use api_manager.World.Env.{History, ApiReply, done, failed}
use api_manager.World.Monad.{M, pure, throw, lift, handle, resume, ask_api, api_result, ◌>>=◌}

abbrev pub Ending :
    {A : Type 0} → (Fault → Type 0) → (Error → Type 0) → (A → Type 0) → Result A → Type 0
Ending F X Q (ok a) = Q a
Ending F X Q (err e) = X e
Ending F X Q (panic f) = F f

-- Nothing that ends the process, and no error.
abbrev pub NoFault : Fault → Type 0
NoFault f = ⊥

abbrev pub NoError : Error → Type 0
NoError e = ⊥

pub record Ends {A : Type 0} (F : Fault → Type 0) (X : Error → Type 0) (Q : A → Type 0) (m : M A)
    : Type 0 where
  pub ending : (h : History) → Ending F X Q (m h).0

module _ {F : Fault → Type 0} {X : Error → Type 0} {A : Type 0} {Q : A → Type 0} where
  pub Ends-pure : (a : A) → Q a → Ends F X Q (pure a)
  unfolding pure
  Ends-pure a q = record { ending = λ h. q }

  pub Ends-throw : (e : Error) → X e → Ends F X Q (throw e)
  unfolding throw
  Ends-throw e x = record { ending = λ h. x }

  pub Ends-lift : (r : Result A) → Ending F X Q r → Ends F X Q (lift r)
  unfolding lift
  Ends-lift r q = record { ending = λ h. q }

  pub Ends-ask_api :
      (c : Call) (f : History → ApiReply A)
      → ((e : Error) → X e)
      → ((h : History) (a : A) → f h ≡ done a → Q a)
      → Ends F X Q (ask_api c f)
  unfolding ask_api
  Ends-ask_api c f x q = record { ending = λ h. go h (f h) refl }
    where
      go : (h : History) (r : ApiReply A) → f h ≡ r → Ending F X Q (api_result r)
      go h (done a) e = q h a e
      go h (failed s) e = x _

  pub Ends-if :
      (b : Bool) (m n : M A)
      → (b ≡ true → Ends F X Q m)
      → (b ≡ false → Ends F X Q n)
      → Ends F X Q (if b then m else n)
  Ends-if true m n km kn = km refl
  Ends-if false m n km kn = kn refl

module _ {F : Fault → Type 0} {X Y : Error → Type 0} {A B : Type 0} {R : A → Type 0}
    {Q : B → Type 0} where
  pub Ends-handle :
      {m : M A} {f : A → M B} {g : Error → M B}
      → Ends F X R m
      → ((a : A) → R a → Ends F Y Q (f a))
      → ((e : Error) → X e → Ends F Y Q (g e))
      → Ends F Y Q (handle m f g)
  unfolding handle
  Ends-handle {m} {f} {g} km kf kg = record { ending = λ h. go (m h).0 (m h).1 (km.ending h) }
    where
      go : (r : Result A) (h : History) → Ending F X R r → Ending F Y Q (resume r f g h).0
      go (ok a) h q = (kf a q).ending h
      go (err e) h x = (kg e x).ending h
      go (panic z) h w = w

module _ {F : Fault → Type 0} {X : Error → Type 0} {A B : Type 0} {R : A → Type 0}
    {Q : B → Type 0} where
  pub Ends-bind :
      {m : M A} {f : A → M B}
      → Ends F X R m
      → ((a : A) → R a → Ends F X Q (f a))
      → Ends F X Q (m >>= f)
  unfolding ◌>>=◌
  Ends-bind km kf = Ends-handle km kf Ends-throw

module _ {F : Fault → Type 0} {X : Error → Type 0} {A : Type 0} {Q Q' : A → Type 0} where
  pub Ends-weaken : {m : M A} → ((a : A) → Q a → Q' a) → Ends F X Q m → Ends F X Q' m
  Ends-weaken {m} g k = record { ending = λ h. go (m h).0 (k.ending h) }
    where
      go : (r : Result A) → Ending F X Q r → Ending F X Q' r
      go (ok a) q = g a q
      go (err e) x = x
      go (panic f) w = w
