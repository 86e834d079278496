-- ===== src/World/Trace.antt =====
-- What a function may call, and what holds of its value: one rule for each way to build a function.
use mathlib.Core.List.{append_assoc}
use api_manager.World.Errors.{kube, panic, err, ok, Fault, Error, Result}
use api_manager.World.Calls.{Call}
use api_manager.World.Monad.{
  kube_result, api_result, resume, ask_kube, pure, ask_api, lift, fault, handle, M, throw, ◌>>=◌,
}
use api_manager.World.Env.{failed, done, KubeReply, ApiReply, History}
use api_manager.Base.{
  String, All-map, refl, All-append, sym, if◌then◌else◌, false, ap, true, All, ◌∙◌, ◌∷◌, ◌≡◌, ◌++◌,
  List, [], Bool,
}

abbrev pub OkHas : {A : Type 0} → (A → Type 0) → Result A → Type 0
OkHas Q (ok a) = Q a
OkHas Q (err e) = Unit
OkHas Q (panic f) = Unit

pub any_result : (r : Result (Unit {0})) → OkHas (λ _. Unit) r
any_result (ok a) = tt
any_result (err e) = tt
any_result (panic f) = tt

pub OkHas-self : {A : Type 0} (r : Result A) → OkHas (λ a. r ≡ ok a) r
OkHas-self (ok a) = refl
OkHas-self (err e) = tt
OkHas-self (panic f) = tt

-- `h'` is `h` with more calls, each of which satisfies `P`.
pub record Extends (P : Call → Type 0) (h h' : History) : Type 0 where
  pub new : List Call
  pub split : h' ≡ new ++ h
  pub each : All P new

-- From any history, `m` makes calls that satisfy `P` only, and a value that it returns satisfies
-- `Q`.
pub record Ensures {A : Type 0} (P : Call → Type 0) (Q : A → Type 0) (m : M A) : Type 0 where
  pub calls : (h : History) → Extends P h (m h).1
  pub value : (h : History) → OkHas Q (m h).0

module _ {P : Call → Type 0} where
  pub Extends-refl : (h : History) → Extends P h h
  Extends-refl h = record { new = []; split = refl; each = tt }

  pub Extends-cons : (c : Call) (h : History) → P c → Extends P h (c ∷ h)
  Extends-cons c h p = record { new = c ∷ []; split = refl; each = (p, tt) }

  pub Extends-trans : {h h' h'' : History} → Extends P h h' → Extends P h' h'' → Extends P h h''
  Extends-trans {h} a b = record {
    new = b.new ++ a.new;
    split = b.split ∙ ap (λ l. b.new ++ l) a.split ∙ sym (append_assoc b.new a.new h);
    each = All-append P b.new a.new b.each a.each;
  }

module _ {A : Type 0} {P : Call → Type 0} {Q : A → Type 0} where
  pub Ensures-pure : (a : A) → Q a → Ensures P Q (pure a)
  unfolding pure
  Ensures-pure a q = record { calls = Extends-refl; value = λ h. q }

  pub Ensures-throw : (e : Error) → Ensures P Q (throw e)
  unfolding throw
  Ensures-throw e = record { calls = Extends-refl; value = λ h. tt }

  pub Ensures-fault : (f : Fault) → Ensures P Q (fault f)
  unfolding fault
  Ensures-fault f = record { calls = Extends-refl; value = λ h. tt }

  pub Ensures-lift : (r : Result A) → OkHas Q r → Ensures P Q (lift r)
  unfolding lift
  Ensures-lift r q = record { calls = Extends-refl; value = λ h. q }

  pub Ensures-ask_kube :
      (c : Call) (f : History → KubeReply A)
      → P c
      → ((h : History) (a : A) → f h ≡ done a → Q a)
      → Ensures P Q (ask_kube c f)
  unfolding ask_kube
  Ensures-ask_kube c f p q = record {
    calls = λ h. Extends-cons c h p;
    value = λ h. go h (f h) refl;
  }
    where
      go : (h : History) (r : KubeReply A) → f h ≡ r → OkHas Q (kube_result r)
      go h (done a) e = q h a e
      go h (failed s) e = tt

  pub Ensures-ask_api :
      (c : Call) (f : History → ApiReply A)
      → P c
      → ((h : History) (a : A) → f h ≡ done a → Q a)
      → Ensures P Q (ask_api c f)
  unfolding ask_api
  Ensures-ask_api c f p q = record { calls = λ h. Extends-cons c h p; value = λ h. go h (f h) refl }
    where
      go : (h : History) (r : ApiReply A) → f h ≡ r → OkHas Q (api_result r)
      go h (done a) e = q h a e
      go h (failed s) e = tt

  pub Ensures-if :
      (b : Bool) (m n : M A)
      → (b ≡ true → Ensures P Q m)
      → (b ≡ false → Ensures P Q n)
      → Ensures P Q (if b then m else n)
  Ensures-if true m n km kn = km refl
  Ensures-if false m n km kn = kn refl

-- A call of the Kubernetes API, and what is done with each answer.
pub Ensures-answered :
    {A B : Type 0} {P : Call → Type 0} {Q : B → Type 0} (c : Call) (f : History → KubeReply A)
    (k : A → M B) (g : Error → M B)
    → P c
    → ((h : History) (a : A) → f h ≡ done a → Ensures P Q (k a))
    → ((h : History) (s : String) → f h ≡ failed s → Ensures P Q (g (kube s)))
    → Ensures P Q (handle (ask_kube c f) k g)
unfolding handle ask_kube
Ensures-answered {A} {B} {P} {Q} c f k g p kd kf = record {
  calls = λ h. calls_after h (f h) refl;
  value = λ h. value_after h (f h) refl;
}
  where
    calls_after :
        (h : History) (r : KubeReply A)
        → f h ≡ r
        → Extends P h (resume (kube_result r) k g (c ∷ h)).1
    calls_after h (done a) e = Extends-trans (Extends-cons c h p) ((kd h a e).calls (c ∷ h))
    calls_after h (failed s) e = Extends-trans (Extends-cons c h p) ((kf h s e).calls (c ∷ h))

    value_after :
        (h : History) (r : KubeReply A) → f h ≡ r → OkHas Q (resume (kube_result r) k g (c ∷ h)).0
    value_after h (done a) e = (kd h a e).value (c ∷ h)
    value_after h (failed s) e = (kf h s e).value (c ∷ h)

-- What two statements say of the value.
pub Ensures-and :
    {A : Type 0} {P : Call → Type 0} {Q R : A → Type 0} {m : M A}
    → Ensures P Q m
    → Ensures P R m
    → Ensures P (λ a. Q a × R a) m
Ensures-and {A} {P} {Q} {R} {m} k l = record {
  calls = k.calls;
  value = λ h. go (m h).0 (k.value h) (l.value h);
}
  where
    go : (r : Result A) → OkHas Q r → OkHas R r → OkHas (λ a. Q a × R a) r
    go (ok a) q r = (q, r)
    go (err x) q r = tt
    go (panic x) q r = tt

-- `m` returns the value, from some history.
abbrev pub Returns : {A : Type 0} → M A → A → Type 0
Returns m a = (h : History) × ((m h).0 ≡ ok a)

-- The value of `m` is one that it returns.
pub Ensures-returned :
    {A : Type 0} {P : Call → Type 0} {Q : A → Type 0} {m : M A}
    → Ensures P Q m
    → Ensures P (λ a. Q a × Returns m a) m
Ensures-returned {A} {P} {Q} {m} k = record {
  calls = k.calls;
  value = λ h. go h (m h).0 refl (k.value h);
}
  where
    go : (h : History) (r : Result A) → (m h).0 ≡ r → OkHas Q r → OkHas (λ a. Q a × Returns m a) r
    go h (ok a) e q = (q, (h, e))
    go h (err x) e q = tt
    go h (panic x) e q = tt

module _ {A B : Type 0} {P : Call → Type 0} {R : A → Type 0} {Q : B → Type 0} where
  pub Ensures-handle :
      {m : M A} {f : A → M B} {g : Error → M B}
      → Ensures P R m
      → ((a : A) → R a → Ensures P Q (f a))
      → ((e : Error) → Ensures P Q (g e))
      → Ensures P Q (handle m f g)
  unfolding handle
  Ensures-handle {m} {f} {g} km kf kg = record {
    calls = λ h. calls_after (m h).0 (m h).1 (km.calls h) (km.value h);
    value = λ h. value_after (m h).0 (m h).1 (km.value h);
  }
    where
      calls_after :
          {h : History} (r : Result A) (h' : History)
          → Extends P h h'
          → OkHas R r
          → Extends P h (resume r f g h').1
      calls_after (ok a) h' x q = Extends-trans x ((kf a q).calls h')
      calls_after (err e) h' x q = Extends-trans x ((kg e).calls h')
      calls_after (panic y) h' x q = x

      value_after : (r : Result A) (h' : History) → OkHas R r → OkHas Q (resume r f g h').0
      value_after (ok a) h' q = (kf a q).value h'
      value_after (err e) h' q = (kg e).value h'
      value_after (panic y) h' q = tt

  pub Ensures-bind :
      {m : M A} {f : A → M B}
      → Ensures P R m
      → ((a : A) → R a → Ensures P Q (f a))
      → Ensures P Q (m >>= f)
  unfolding ◌>>=◌
  Ensures-bind km kf = Ensures-handle km kf Ensures-throw

module _ {A : Type 0} {P P' : Call → Type 0} {Q Q' : A → Type 0} where
  pub Ensures-weaken :
      {m : M A}
      → ((c : Call) → P c → P' c)
      → ((a : A) → Q a → Q' a)
      → Ensures P Q m
      → Ensures P' Q' m
  Ensures-weaken {m} f g k = record {
    calls = λ h.
        let x = k.calls h in
        record { new = x.new; split = x.split; each = All-map P P' x.new f x.each };
    value = λ h. go (m h).0 (k.value h);
  }
    where
      go : (r : Result A) → OkHas Q r → OkHas Q' r
      go (ok a) q = g a q
      go (err e) q = tt
      go (panic x) q = tt
