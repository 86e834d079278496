-- ===== src/World/Alike.antt =====
-- Two runs that differ in the order of the entries of maps: one rule for each way to build a
-- function.
use mathlib.Core.Path.{subst}
use api_manager.Base.{◌≡◌, refl, ◌∷◌, [], Bool, true, false, if◌then◌else◌, String}
use api_manager.Go.Maps.{StringMap, get}
use api_manager.World.Calls
use api_manager.World.Calls.{Call}
use api_manager.World.Env.{Env, History, ApiReply}
use api_manager.World.Errors.{Error, Result, ok, err, panic}
use api_manager.World.Monad.{M, pure, throw, lift, handle, resume, ask_api, api_result, ◌>>=◌}

-- Two calls that are one to a receiver of maps: equal, or updates with the same labels.
pub data SameCall : Call → Call → Type 0 where
  same : {c : Call} → SameCall c c
  same_update :
      {ns id version : String} {l l' : StringMap}
      → ((k : String) → get l k ≡ get l' k)
      → SameCall (Calls.update_volume ns id l version) (Calls.update_volume ns id l' version)

abbrev pub SameHistory : History → History → Type 0
SameHistory [] [] = Unit
SameHistory [] (d ∷ h') = ⊥
SameHistory (c ∷ h) [] = ⊥
SameHistory (c ∷ h) (d ∷ h') = SameCall c d × SameHistory h h'

-- The StorageOS API receives maps: its answers do not depend on the order in which an update listed
-- its labels.
pub record ReceivesMaps (env : Env) : Type 0 where
  pub namespaces : (h h' : History) → SameHistory h h' → env.namespaces h ≡ env.namespaces h'
  pub volumes_in :
      (h h' : History) (ns : String) → SameHistory h h' → env.volumes_in h ns ≡ env.volumes_in h' ns
  pub api_write :
      (h h' : History) (c d : Call)
      → SameHistory h h'
      → SameCall c d
      → env.api_write h c ≡ env.api_write h' d

abbrev pub SameResult :
    {A : Type 0} → (A → A → Type 0) → (Error → Error → Type 0) → Result A → Result A → Type 0
SameResult R X (ok a) (ok b) = R a b
SameResult R X (err e) (err f) = X e f
SameResult R X (panic f) (panic g) = f ≡ g
SameResult R X (ok a) (err f) = ⊥
SameResult R X (ok a) (panic g) = ⊥
SameResult R X (err e) (ok b) = ⊥
SameResult R X (err e) (panic g) = ⊥
SameResult R X (panic f) (ok b) = ⊥
SameResult R X (panic f) (err e) = ⊥

abbrev pub Equal : {A : Type 0} → A → A → Type 0
Equal a b = a ≡ b

-- From histories that are the same to a receiver of maps, the two functions end alike, with such
-- histories again.
pub record Alike {A : Type 0} (R : A → A → Type 0) (X : Error → Error → Type 0) (m n : M A)
    : Type 0 where
  pub alike :
      (h h' : History)
      → SameHistory h h'
      → SameResult R X (m h).0 (n h').0 × SameHistory (m h).1 (n h').1

module _ {A : Type 0} {R : A → A → Type 0} {X : Error → Error → Type 0} where
  pub Alike-pure : (a b : A) → R a b → Alike R X (pure a) (pure b)
  unfolding pure
  Alike-pure a b r = record { alike = λ h h' s. (r, s) }

  pub Alike-throw : (e f : Error) → X e f → Alike R X (throw e) (throw f)
  unfolding throw
  Alike-throw e f x = record { alike = λ h h' s. (x, s) }

  pub Alike-lift : (r s : Result A) → SameResult R X r s → Alike R X (lift r) (lift s)
  unfolding lift
  Alike-lift r s k = record { alike = λ h h' t. (k, t) }

  pub Alike-if :
      (b c : Bool) (m n m' n' : M A)
      → b ≡ c
      → Alike R X m m'
      → Alike R X n n'
      → Alike R X (if b then m else n) (if c then m' else n')
  Alike-if true true m n m' n' e km kn = km
  Alike-if true false m n m' n' e km kn = cc e
  Alike-if false true m n m' n' e km kn = cc e
  Alike-if false false m n m' n' e km kn = kn

module _ {A : Type 0} where
  pub SameResult-refl : (r : Result A) → SameResult Equal Equal r r
  SameResult-refl (ok a) = refl
  SameResult-refl (err e) = refl
  SameResult-refl (panic f) = refl

  same_result : (r s : ApiReply A) → r ≡ s → SameResult Equal Equal (api_result r) (api_result s)
  same_result r s e =
      subst (λ s. SameResult Equal Equal (api_result r) (api_result s)) e
        (SameResult-refl (api_result r))

  pub Alike-ask_api :
      (c d : Call) (f : History → ApiReply A)
      → (g : History → ApiReply A) → SameCall c d
      → ((h h' : History) → SameHistory h h' → f h ≡ g h')
      → Alike Equal Equal (ask_api c f) (ask_api d g)
  unfolding ask_api
  Alike-ask_api c d f g s k = record {
    alike = λ h h' t. (same_result (f h) (g h') (k h h' t), (s, t));
  }

module _ {A B : Type 0} {R : A → A → Type 0} {Q : B → B → Type 0}
    {X Y : Error → Error → Type 0} where
  pub Alike-handle :
      {m n : M A} {f f' : A → M B} {g g' : Error → M B}
      → Alike R X m n
      → ((a b : A) → R a b → Alike Q Y (f a) (f' b))
      → ((e e' : Error) → X e e' → Alike Q Y (g e) (g' e'))
      → Alike Q Y (handle m f g) (handle n f' g')
  unfolding handle
  Alike-handle {m} {n} {f} {f'} {g} {g'} km kf kg = record {
    alike = λ h h' s. go (m h).0 (n h').0 (m h).1 (n h').1 (km.alike h h' s).0 (km.alike h h' s).1;
  }
    where
      go :
          (r s : Result A) (h h' : History)
          → SameResult R X r s
          → SameHistory h h'
          → SameResult Q Y (resume r f g h).0 (resume s f' g' h').0
            × SameHistory (resume r f g h).1 (resume s f' g' h').1
      go (ok a) (ok b) h h' q t = (kf a b q).alike h h' t
      go (err e) (err e') h h' x t = (kg e e' x).alike h h' t
      go (panic y) (panic z) h h' p t = (p, t)
      go (ok a) (err e) h h' q t = absurd q
      go (ok a) (panic z) h h' q t = absurd q
      go (err e) (ok b) h h' q t = absurd q
      go (err e) (panic z) h h' q t = absurd q
      go (panic y) (ok b) h h' q t = absurd q
      go (panic y) (err e) h h' q t = absurd q

module _ {A B : Type 0} {R : A → A → Type 0} {Q : B → B → Type 0} {X : Error → Error → Type 0} where
  pub Alike-bind :
      {m n : M A} {f f' : A → M B}
      → Alike R X m n
      → ((a b : A) → R a b → Alike Q X (f a) (f' b))
      → Alike Q X (m >>= f) (n >>= f')
  unfolding ◌>>=◌
  Alike-bind km kf = Alike-handle km kf Alike-throw

module _ {A B : Type 0} {Q : B → B → Type 0} {X : Error → Error → Type 0} where
  -- After equal values it is enough to look at each value.
  pub Alike-bind_value :
      {m n : M A} {f f' : A → M B}
      → Alike Equal X m n
      → ((a : A) → Alike Q X (f a) (f' a))
      → Alike Q X (m >>= f) (n >>= f')
  Alike-bind_value {f} {f'} km kf =
      Alike-bind km (λ a b e. subst (λ b. Alike Q X (f a) (f' b)) e (kf a))
