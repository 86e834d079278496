-- ===== src/Storageos/Mock/Agreement.antt =====
-- The labels that the client in memory takes, against those that
-- internal/pkg/storageos/volume_labels.go takes.
use api_manager.Base.{
  false, ◌∙◌, sym, ◌++◌, if◌then◌else◌, ◌≡◌, ◌↔◌, refl, true, none, some, [], ◌∷◌, String, Bool,
  List, arith, all, is_empty, is_none, ◌&&◌, ◌||◌, ◌==◌, not,
}
use api_manager.Base.Dict.{Dict}
use api_manager.Go.Strconv.{parse_uint}
use api_manager.Labels.{is_reserved_label, reserved_label_replicas}
use api_manager.Labels.Laws.{replicas_is_reserved, replicas-ne-failure_mode}
use api_manager.Storageos.VolumeLabels.{
  ensure_volume_labels, noting, volume_labels_from, nothing_desired,
}
use api_manager.Storageos.VolumeLabels.Collect.{
  is_applicable, errors-volume_labels_from, is_empty-snoc,
}
use api_manager.Storageos.Mock.{
  err, Result, MockObject, MockClient, find, keep_label, kept_labels, accepted_of_volume,
}
use api_manager.Storageos.Mock.Objects.{mock_ensure_volume_labels}
use api_manager.World.Errors.{panic, Error, ok, error_or_nil, reserved_label_unknown}
use api_manager.World.Objects.{ObjectKey}
use api_manager.World.Env.{Env}
use api_manager.World.Monad.{M}
use api_manager.World.Ending.{
  Ends-pure, Ends-handle, Ends-lift, Ends-bind, Ending, Ends-weaken, Ends,
}

abbrev taken : (String → Bool) → String → Bool
taken accepted k = not (is_reserved_label k) || accepted k

-- A label for the number of replicas is a number.
abbrev pub is_number : String → String → Bool
is_number k v = not (k == reserved_label_replicas) || is_none (parse_uint v).error

errors-keep_label :
    (accepted : String → Bool) (d : Dict String × List Error) (k v : String)
    → is_empty (keep_label accepted d k v).1 ≡ (is_empty d.1 && taken accepted k)
errors-keep_label accepted d k v = ground (arith, is_empty-snoc d.1 reserved_label_unknown)

errors-kept_labels :
    (accepted : String → Bool) (d : Dict String × List Error) (labels : Dict String)
    → is_empty (kept_labels accepted d labels).1
      ≡ (is_empty d.1 && all (λ (k, v). taken accepted k) labels)
unfolding kept_labels
errors-kept_labels accepted d [] = ground arith
errors-kept_labels accepted d ((k, v) ∷ labels) = ground (
  arith,
  errors-kept_labels accepted (keep_label accepted d k v) labels,
  errors-keep_label accepted d k v,
)

applicable_iff : (k v : String) → is_applicable k v ≡ (taken accepted_of_volume k && is_number k v)
unfolding is_applicable
applicable_iff k v = ground (arith, replicas_is_reserved, replicas-ne-failure_mode)

all-and :
    (p q r : String × String → Bool) (l : Dict String)
    → ((x : String × String) → p x ≡ (q x && r x))
    → all p l ≡ (all q l && all r l)
all-and p q r [] e = refl
all-and p q r (x ∷ l) e = ground (arith, e x, all-and p q r l e)

-- The loop of the client collects no error from the labels exactly when the client in memory finds none and every
-- number of replicas is a number.
same_errors :
    (labels : Dict String)
    → is_empty (volume_labels_from nothing_desired labels).errors ≡ (
        is_empty (kept_labels accepted_of_volume ([], []) labels).1
        && all (λ (k, v). is_number k v) labels)
same_errors labels =
    rw
      (
        errors-volume_labels_from nothing_desired labels,
        errors-kept_labels accepted_of_volume ([], []) labels,
      )
      (all-and _ _ _ labels (λ (k, v). applicable_iff k v))

ok_iff_empty : (es : List Error) → (error_or_nil es ≡ ok tt) ↔ (is_empty es ≡ true)
unfolding error_or_nil
ok_iff_empty [] = (λ e. refl, λ e. refl)
ok_iff_empty (x ∷ es) = (λ e. absurd (cc e), λ e. absurd (cc e))

-- Any end, with no condition on an error or a fault.
abbrev pub Succeeds : {A : Type 0} → Type 0 → M A → Type 0
Succeeds Q m = Ends (λ _. Unit {0}) (λ _. Unit {0}) (λ _. Q) m

Ends-any : {A : Type 0} (m : M A) → Succeeds (Unit {0}) m
Ends-any m = record { ending = λ h. go (m h).0 }
  where
    go : {A : Type 0} (r : Result A) → Ending (λ _. Unit {0}) (λ _. Unit {0}) (λ _. Unit {0}) r
    go (ok a) = tt
    go (err e) = tt
    go (panic f) = tt

-- An error that was met stays among the errors.
noting_keeps :
    (ignored : Error → Bool) (errors : List Error) (m : M Unit)
    → Ends
        (λ _. Unit {0})
        (λ _. Unit {0})
        (λ errors'. is_empty errors' ≡ true → is_empty errors ≡ true)
        (noting ignored errors m)
unfolding noting
noting_keeps ignored errors m =
    Ends-handle (Ends-any m) (λ _ _. Ends-pure errors (λ e. e))
      (λ x _. Ends-pure _ (kept x (ignored x)))
  where
    kept :
        (x : Error) (b : Bool)
        → is_empty (if b then errors else errors ++ x ∷ []) ≡ true
        → is_empty errors ≡ true
    kept x true e = e
    kept x false e = absurd (cc (sym (is_empty-snoc errors x) ∙ e))

-- The client of the API succeeds only if its loop collects no error.
success_collects_none :
    (env : Env) (key : ObjectKey) (labels : Dict String)
    → Succeeds
        (is_empty (volume_labels_from nothing_desired labels).errors ≡ true)
        (ensure_volume_labels env key (some labels))
unfolding ensure_volume_labels error_or_nil
success_collects_none env key labels = Ends-bind (noting_keeps _ _ _) (λ a ka.
    Ends-bind (noting_keeps _ a _)
      (λ b kb. Ends-bind (noting_keeps _ b _) (λ c kc. Ends-lift _ (last c (λ e. ka (kb (kc e)))))))
  where
    last :
        {P : Type 0} (l : List Error)
        → (is_empty l ≡ true → P)
        → Ending (λ _. Unit {0}) (λ _. Unit {0}) (λ _. P) (error_or_nil l)
    last [] k = k refl
    last (x ∷ l) k = tt

mock_agrees :
    (key : ObjectKey) (labels : Dict String) (c : MockClient) (o : MockObject)
    → c.errors.ensure_volume_labels ≡ none
    → find key c.volumes ≡ some o
    → (is_empty (volume_labels_from nothing_desired labels).errors ≡ true) ↔ (
        ((mock_ensure_volume_labels key labels c).0 ≡ ok tt)
        × (all (λ (k, v). is_number k v) labels ≡ true))
unfolding mock_ensure_volume_labels
mock_agrees key labels c o none_set known =
    rw (none_set, known, same_errors labels)
      (go (kept_labels accepted_of_volume ([], []) labels).1 (all (λ (k, v). is_number k v) labels))
  where
    go :
        (es : List Error) (b : Bool)
        → ((is_empty es && b) ≡ true) ↔ ((error_or_nil es ≡ ok tt) × (b ≡ true))
    go es b = ground (arith, ok_iff_empty es)

-- With no error configured, and for a volume that it has, `EnsureVolumeLabels` of the client in
-- memory succeeds, with each number of replicas a number, exactly for those labels from which the
-- loop of `EnsureVolumeLabels` of the client of the API collects no error; and it does so whenever
-- `EnsureVolumeLabels` of the client of the API succeeds, whatever is answered to that.
pub mock_ensure_volume_labels_iff :
    (env : Env) (key : ObjectKey) (labels : Dict String) (c : MockClient) (o : MockObject)
    → c.errors.ensure_volume_labels ≡ none
    → find key c.volumes ≡ some o
    → ((is_empty (volume_labels_from nothing_desired labels).errors ≡ true) ↔ (
        ((mock_ensure_volume_labels key labels c).0 ≡ ok tt)
        × (all (λ (k, v). is_number k v) labels ≡ true)))
      × Succeeds
          (((mock_ensure_volume_labels key labels c).0 ≡ ok tt)
            × (all (λ (k, v). is_number k v) labels ≡ true))
          (ensure_volume_labels env key (some labels))
mock_ensure_volume_labels_iff env key labels c o none_set known = (
  mock_agrees key labels c o none_set known,
  Ends-weaken (λ _ e. (mock_agrees key labels c o none_set known).0 e)
      (success_collects_none env key labels),
)
