-- ===== src/Main/Steps.antt =====
-- Steps of the set-up in a row: one rule for each way to build a function from them.
use api_manager.Base.{
  ◌≡◌, refl, sym, ◌∙◌, ap, String, List, [], ◌∷◌, ◌++◌, Bool, true, false, if◌then◌else◌,
}
use api_manager.World.Calls
use api_manager.World.Client
use api_manager.World.Env.{Env, History, done, failed, Reply}
use mathlib.Core.Path.{subst}
use mathlib.Core.List.{append_assoc, append-nil}
use api_manager.World.Errors.{message, Result, ok, err, panic, Error}
use api_manager.World.Monad.{M, pure, throw, handle, resume, ◌>>=◌}
use api_manager.World.Setup.{Setup, can_fail}

-- The history after these steps, the first one first.
abbrev pub after : List Setup → History → History
after [] h = h
after (s ∷ ss) h = after ss (Calls.set_up s ∷ h)

-- A value only if nothing is left to do, and no fault.
abbrev pub Finished : (rest : List Setup) → Result (Unit {0}) → Type 0
Finished rest (ok a) = rest ≡ []
Finished rest (err e) = Unit
Finished rest (panic f) = ⊥

module _ (env : Env) where
  -- The steps are answered without an error that the code looks at.
  abbrev pub Passed : List Setup → History → Type 0
  Passed [] h = Unit
  Passed (s ∷ ss) h =
      (can_fail s ≡ true → env.set_up h s ≡ done tt) × Passed ss (Calls.set_up s ∷ h)

  -- The last step fails, and those before it are answered.
  pub record FailsAtLast (steps : List Setup) (h : History) : Type 0 where
    pub before : List Setup
    pub last : Setup
    pub ends : steps ≡ before ++ last ∷ []
    pub passed : Passed before h
    pub reason : String
    pub failing : env.set_up (after before h) last ≡ failed reason
    pub looked_at : can_fail last ≡ true

  -- A value only if all steps were answered, and an error only if the last one failed.
  abbrev pub Went : List Setup → History → Result (Unit {0}) → Type 0
  Went steps h (ok a) = Passed steps h
  Went steps h (err e) = FailsAtLast steps h
  Went steps h (panic f) = Unit

-- No step is answered with an error.
abbrev pub Works : Env → Type 0
Works env = (h : History) (s : Setup) → env.set_up h s ≡ done tt

module _ (env : Env) where
  -- A beginning of the list is done, in its order, and nothing else is called. It is the whole list
  -- if the function ends with a value, and it does if no step fails.
  pub record Done (steps : List Setup) (h : History) (o : Result (Unit {0}) × History)
      : Type 0 where
    pub first : List Setup
    pub rest : List Setup
    pub split : steps ≡ first ++ rest
    pub calls : o.1 ≡ after first h
    pub finished : Finished rest o.0
    pub went : Went env first h o.0
    pub succeeds : Works env → o.0 ≡ ok tt

  pub record Follows (steps : List Setup) (m : M Unit) : Type 0 where
    pub follows : (h : History) → Done steps h (m h)

  pub Follows-pure : Follows [] (pure tt)
  unfolding pure
  Follows-pure = record {
    follows = λ h. record {
      first = [];
      rest = [];
      split = refl;
      calls = refl;
      finished = refl;
      went = tt;
      succeeds = λ w. refl;
    };
  }

  answered-Finished :
      (s : Setup) (r : Reply String (Unit {0})) → Finished [] (Client.answered env s r)
  answered-Finished s (done a) = refl
  answered-Finished s (failed reason) = go (can_fail s)
    where
      go : (b : Bool) → Finished [] (if b then err (message reason) else ok tt)
      go true = tt
      go false = refl

  answered-Went :
      (s : Setup) (h : History) (r : Reply String (Unit {0}))
      → env.set_up h s ≡ r
      → Went env (s ∷ []) h (Client.answered env s r)
  answered-Went s h (done a) e = (λ c. e, tt)
  answered-Went s h (failed reason) e = go (can_fail s) refl
    where
      go :
          (b : Bool)
          → can_fail s ≡ b
          → Went env (s ∷ []) h (if b then err (message reason) else ok tt)
      go true c = record {
        before = [];
        last = s;
        ends = refl;
        passed = tt;
        reason = reason;
        failing = e;
        looked_at = c;
      }
      go false c = (λ t. absurd (cc), tt)

  pub Follows-perform : (s : Setup) → Follows (s ∷ []) (Client.perform env s)
  Follows-perform s = record {
    follows = λ h. record {
      first = s ∷ [];
      rest = [];
      split = refl;
      calls = refl;
      finished = answered-Finished s (env.set_up h s);
      went = answered-Went s h (env.set_up h s) refl;
      succeeds = λ w. rw (w h s) refl;
    };
  }

  after-append : (xs ys : List Setup) (h : History) → after (xs ++ ys) h ≡ after ys (after xs h)
  after-append [] ys h = refl
  after-append (x ∷ xs) ys h = after-append xs ys (Calls.set_up x ∷ h)

  Passed-append :
      (xs ys : List Setup) (h : History)
      → Passed env xs h
      → Passed env ys (after xs h)
      → Passed env (xs ++ ys) h
  Passed-append [] ys h p q = q
  Passed-append (x ∷ xs) ys h (a, p) q = (a, Passed-append xs ys (Calls.set_up x ∷ h) p q)

  Went-append :
      (xs ys : List Setup) (h : History) (r : Result (Unit {0}))
      → Passed env xs h
      → Went env ys (after xs h) r
      → Went env (xs ++ ys) h r
  Went-append xs ys h (ok a) p q = Passed-append xs ys h p q
  Went-append xs ys h (err e) p q = record {
    before = xs ++ q.before;
    last = q.last;
    ends = ap (λ zs. xs ++ zs) q.ends ∙ sym (append_assoc xs q.before (q.last ∷ []));
    passed = Passed-append xs q.before h p q.passed;
    reason = q.reason;
    failing = ap (λ k. env.set_up k q.last) (after-append xs q.before h) ∙ q.failing;
    looked_at = q.looked_at;
  }
  Went-append xs ys h (panic f) p q = tt

  chained :
      (xs ys : List Setup) (h : History) (o : Result (Unit {0}) × History) (n : M Unit)
      → Done xs h o
      → Follows ys n
      → Done (xs ++ ys) h (resume o.0 (λ u. n) throw o.1)
  unfolding throw
  chained xs ys h (ok tt, h') n d f =
      let e = f.follows h' in
      let whole : xs ≡ d.first =
        d.split ∙ ap (λ zs. d.first ++ zs) d.finished ∙ append-nil d.first in
      record {
        first = xs ++ e.first;
        rest = e.rest;
        split = ap (λ zs. xs ++ zs) e.split ∙ sym (append_assoc xs e.first e.rest);
        calls =
            e.calls
            ∙ ap (after e.first) (d.calls ∙ ap (λ zs. after zs h) (sym whole))
            ∙ sym (after-append xs e.first h);
        finished = e.finished;
        went =
            Went-append xs e.first h (n h').0 (subst (λ zs. Passed env zs h) (sym whole) d.went) (
              subst (λ k. Went env e.first k (n h').0) (d.calls ∙ ap (λ zs. after zs h) (sym whole))
                e.went);
        succeeds = e.succeeds;
      }
  chained xs ys h (err x, h') n d f = record {
    first = d.first;
    rest = d.rest ++ ys;
    split = ap (λ zs. zs ++ ys) d.split ∙ append_assoc d.first d.rest ys;
    calls = d.calls;
    finished = tt;
    went = d.went;
    succeeds = λ w. absurd (cc (d.succeeds w));
  }
  chained xs ys h (panic x, h') n d f = absurd d.finished

  pub Follows-bind :
      (xs ys : List Setup) (m n : M Unit)
      → Follows xs m
      → Follows ys n
      → Follows (xs ++ ys) (m >>= λ u. n)
  unfolding ◌>>=◌ handle
  Follows-bind xs ys m n k l = record { follows = λ h. chained xs ys h (m h) n (k.follows h) l }

  -- An error may be replaced by another.
  relabelled :
      (xs : List Setup) (h : History) (o : Result (Unit {0}) × History) (g : Error → Error)
      → Done xs h o
      → Done xs h (resume o.0 pure (λ e. throw (g e)) o.1)
  unfolding pure throw
  relabelled xs h (ok a, h') g d = d
  relabelled xs h (err x, h') g d = record {
    first = d.first;
    rest = d.rest;
    split = d.split;
    calls = d.calls;
    finished = tt;
    went = d.went;
    succeeds = λ w. absurd (cc (d.succeeds w));
  }
  relabelled xs h (panic x, h') g d = absurd d.finished

  pub Follows-relabel :
      (xs : List Setup) (m : M Unit) (g : Error → Error)
      → Follows xs m
      → Follows xs (handle m pure (λ e. throw (g e)))
  unfolding handle
  Follows-relabel xs m g k = record { follows = λ h. relabelled xs h (m h) g (k.follows h) }
