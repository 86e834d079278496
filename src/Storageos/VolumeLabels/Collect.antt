-- ===== src/Storageos/VolumeLabels/Collect.antt =====
-- What `EnsureVolumeLabels` of internal/pkg/storageos/volume_labels.go collects from the labels of
-- a claim. Go visits a map in no fixed order: each result is stated by lookups, so it depends on
-- none.
use mathlib.Core.Option.{or_else}
use api_manager.Storageos.VolumeLabels.{
  number, reserved_label_unknown, reserved_label_fixed, reserved_label_invalid, wrapped,
  nothing_desired, reserved_label_replicas, reserved_label_failure_mode, is_reserved_label,
  parse_uint, Desired, volume_labels_from, volume_label,
}
use api_manager.Base.{
  ◌∙◌, false, all, ◌++◌, is_none, is_empty, List, refl, ◌&&◌, [], ◌∷◌, ◌==◌, arith, ◌||◌,
  if◌then◌else◌, none, some, ◌≡◌, not, Option, Bool, ℕ, String,
}
use api_manager.Base.Dict.{lookup-insert, insert, NodupKeys, Dict, lookup}
use api_manager.Labels.Laws.{
  replicas-ne-failure_mode, failure_mode-ne-no_compress, replicas-ne-no_compress,
  replicas-ne-no_cache, failure_mode-ne-no_cache, failure_mode-ne-compute_only,
  replicas-ne-compute_only, replicas_is_reserved, failure_mode_is_reserved,
}
use api_manager.Go.Strconv.{max_uint64, NumError}
use api_manager.Go.Strconv.Laws.{parse_uint_range}

replicas-volume_label :
    (d : Desired) (k v : String)
    → (volume_label d k v).replicas
      ≡ (if k == reserved_label_replicas then (parse_uint v).value else d.replicas)
unfolding volume_label
replicas-volume_label d k v = ground (
  arith, replicas_is_reserved, replicas-ne-compute_only, replicas-ne-no_cache,
  replicas-ne-no_compress, replicas-ne-failure_mode,
)

failure_mode-volume_label :
    (d : Desired) (k v : String)
    → (volume_label d k v).failure_mode
      ≡ (if k == reserved_label_failure_mode then v else d.failure_mode)
unfolding volume_label
failure_mode-volume_label d k v = ground (
  arith, failure_mode_is_reserved, failure_mode-ne-compute_only, failure_mode-ne-no_cache,
  failure_mode-ne-no_compress,
)

pub unreserved-volume_label :
    (d : Desired) (k v : String)
    → (volume_label d k v).unreserved
      ≡ (if is_reserved_label k then d.unreserved else insert k v d.unreserved)
unfolding volume_label
unreserved-volume_label d k v = ground arith

-- The label is one that can be applied: it is not reserved, or it is the failure mode, or it is a
-- number of replicas.
unfoldable pub is_applicable : String → String → Bool
is_applicable k v =
    not (is_reserved_label k)
    || k == reserved_label_failure_mode
    || (k == reserved_label_replicas && is_none (parse_uint v).error)

abbrev pub replicas_or : ℕ → Option String → ℕ
replicas_or n none = n
replicas_or n (some v) = (parse_uint v).value

abbrev pub text_or : String → Option String → String
text_or s none = s
text_or s (some v) = v

replicas-volume_labels_from :
    (d : Desired) (labels : Dict String)
    → NodupKeys labels
    → (volume_labels_from d labels).replicas
      ≡ replicas_or d.replicas (lookup reserved_label_replicas labels)
unfolding volume_labels_from lookup
replicas-volume_labels_from d [] u = refl
replicas-volume_labels_from d ((k, v) ∷ rest) (fresh, u) =
    ground
      (arith, replicas-volume_label d k v, replicas-volume_labels_from (volume_label d k v) rest u)

failure_mode-volume_labels_from :
    (d : Desired) (labels : Dict String)
    → NodupKeys labels
    → (volume_labels_from d labels).failure_mode
      ≡ text_or d.failure_mode (lookup reserved_label_failure_mode labels)
unfolding volume_labels_from lookup
failure_mode-volume_labels_from d [] u = refl
failure_mode-volume_labels_from d ((k, v) ∷ rest) (fresh, u) = ground (
  arith,
  failure_mode-volume_label d k v,
  failure_mode-volume_labels_from (volume_label d k v) rest u,
)

unreserved-volume_labels_from :
    (d : Desired) (labels : Dict String) (j : String)
    → NodupKeys labels
    → lookup j (volume_labels_from d labels).unreserved ≡ (
        if is_reserved_label j
        then lookup j d.unreserved
        else or_else (lookup j labels) (lookup j d.unreserved))
unfolding volume_labels_from lookup or_else
unreserved-volume_labels_from d [] j u = ground arith
unreserved-volume_labels_from d ((k, v) ∷ rest) j (fresh, u) = ground (
  arith,
  unreserved-volume_label d k v,
  lookup-insert k j v d.unreserved,
  unreserved-volume_labels_from (volume_label d k v) rest j u,
)

pub is_empty-snoc : {A : Type 0} (l : List A) (a : A) → is_empty (l ++ a ∷ []) ≡ false
is_empty-snoc [] a = refl
is_empty-snoc (x ∷ l) a = refl

errors-volume_label :
    (d : Desired) (k v : String)
    → is_empty (volume_label d k v).errors ≡ (is_empty d.errors && is_applicable k v)
unfolding volume_label is_applicable
errors-volume_label d k v = ground (
  arith,
  failure_mode_is_reserved,
  failure_mode-ne-compute_only,
  failure_mode-ne-no_cache,
  failure_mode-ne-no_compress,
  replicas-ne-compute_only,
  replicas-ne-no_cache,
  replicas-ne-no_compress,
  replicas-ne-failure_mode,
  is_empty-snoc d.errors (wrapped k reserved_label_invalid),
  is_empty-snoc d.errors (wrapped k reserved_label_fixed),
  is_empty-snoc d.errors (wrapped k reserved_label_unknown),
  is_empty-snoc d.errors (wrapped k (number NumError.syntax)),
  is_empty-snoc d.errors (wrapped k (number NumError.range)),
)

pub errors-volume_labels_from :
    (d : Desired) (labels : Dict String)
    → is_empty (volume_labels_from d labels).errors
      ≡ (is_empty d.errors && all (λ (k, v). is_applicable k v) labels)
unfolding volume_labels_from
errors-volume_labels_from d [] = ground arith
errors-volume_labels_from d ((k, v) ∷ rest) =
    ground (arith, errors-volume_label d k v, errors-volume_labels_from (volume_label d k v) rest)

-- What is to be applied to the volume, from the labels of the claim.
pub record Collected (labels : Dict String) (d : Desired) : Type 0 where
  pub replicas : d.replicas ≡ replicas_or 0 (lookup reserved_label_replicas labels)
  pub failure_mode : d.failure_mode ≡ text_or "" (lookup reserved_label_failure_mode labels)
  pub unreserved :
      (k : String) → lookup k d.unreserved ≡ (if is_reserved_label k then none else lookup k labels)
  pub errors : is_empty d.errors ≡ all (λ (k, v). is_applicable k v) labels

-- From labels with no key twice, the loop collects the number of replicas and the failure mode that
-- their labels give, no replicas and the empty failure mode where these are missing, and all
-- unreserved labels with no others; and there is an error exactly when some label cannot be
-- applied.
pub volume_labels_from-Collected :
    (labels : Dict String)
    → NodupKeys labels
    → Collected labels (volume_labels_from nothing_desired labels)
unfolding or_else lookup
volume_labels_from-Collected labels u = record {
  replicas = replicas-volume_labels_from nothing_desired labels u;
  failure_mode = failure_mode-volume_labels_from nothing_desired labels u;
  unreserved = λ k. kept k;
  errors = errors-volume_labels_from nothing_desired labels;
}
  where
    kept :
        (k : String)
        → lookup k (volume_labels_from nothing_desired labels).unreserved
          ≡ (if is_reserved_label k then none else lookup k labels)
    kept k = ground (arith, unreserved-volume_labels_from nothing_desired labels k u)

one_fails :
    (p : String × String → Bool) (k v : String) (labels : Dict String)
    → lookup k labels ≡ some v
    → p (k, v) ≡ false
    → all p labels ≡ false
unfolding lookup
one_fails p k v [] e n = absurd (cc e)
one_fails p k v ((j, w) ∷ rest) e n = ground (arith, one_fails p k v rest)

range_not_applicable :
    (v : String)
    → (parse_uint v).error ≡ some NumError.range
    → is_applicable reserved_label_replicas v ≡ false
unfolding is_applicable
range_not_applicable v r = ground (arith, replicas_is_reserved, replicas-ne-failure_mode)

-- From labels with no key twice: a number of replicas that does not fit 64 bits leaves an error among
-- those that the loop collects; but the largest number is collected all the same, and not the
-- default.
pub replicas_overflow :
    (labels : Dict String) (v : String)
    → NodupKeys labels
    → lookup reserved_label_replicas labels ≡ some v
    → (parse_uint v).error ≡ some NumError.range
    → ((volume_labels_from nothing_desired labels).replicas ≡ max_uint64)
      × (is_empty (volume_labels_from nothing_desired labels).errors ≡ false)
replicas_overflow labels v u e r = (
  ground (arith, replicas-volume_labels_from nothing_desired labels u, parse_uint_range v),
  errors-volume_labels_from nothing_desired labels
      ∙ one_fails _ reserved_label_replicas v labels e (range_not_applicable v r),
)
