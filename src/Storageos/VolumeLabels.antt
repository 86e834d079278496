-- ===== src/Storageos/VolumeLabels.antt =====
-- internal/pkg/storageos/volume_labels.go: the labels of a PVC, applied to its StorageOS volume.
pub mod Apply
pub mod Updates
pub mod Collect
pub mod Bounds
pub mod Settled
pub mod Order
pub mod AnyOrder
pub mod SameLabels
pub mod Abstract
use api_manager.World.Calls
use api_manager.World.Client
use api_manager.Base.{
  false, true, none, eqb, ◌||◌, ◌∷◌, ◌&&◌, some, ◌==◌, ◌++◌, not, is_empty, List, ℕ, if◌then◌else◌,
  Bool, [], String, Option,
}
use api_manager.Base.Dict.{insert, Dict}
use api_manager.Go.Maps.{get, index, deep_equal, entries, StringMap}
use api_manager.World.Env.{Env}
use api_manager.Labels.{
  reserved_label_no_compress, reserved_label_replicas, reserved_label_no_cache,
  reserved_label_failure_mode, reserved_label_compute_only, is_reserved_label,
}
use api_manager.World.Errors.{
  parsed_result, number, err, volume_not_found, reserved_label_unknown, reserved_label_fixed,
  reserved_label_invalid, error_or_nil, wrapped, ok, Result, Error,
}
use api_manager.Go.Strconv.{parse_uint, Parsed}
use api_manager.World.Objects.{always_on, hard, soft, unset, FailureModeIntent, ObjectKey}
use api_manager.World.Monad.{pure, lift, handle, ◌>>=◌, M}
use api_manager.Storageos.Volume.{get_volume}

abbrev pub failure_mode_soft : String
failure_mode_soft = "soft"

abbrev pub failure_mode_hard : String
failure_mode_hard = "hard"

abbrev pub failure_mode_always_on : String
failure_mode_always_on = "alwayson"

-- What the loop of `EnsureVolumeLabels` has collected.
pub record Desired : Type 0 where
  pub unreserved : Dict String
  pub replicas : ℕ
  pub failure_mode : String
  pub errors : List Error

abbrev pub nothing_desired : Desired
nothing_desired = record { unreserved = []; replicas = 0; failure_mode = ""; errors = [] }

abbrev pub refuse : Desired → String → Error → Desired
refuse d k e = record d { errors = d.errors ++ wrapped k e ∷ [] }

-- `replicas, err = strconv.ParseUint(v, 10, 64)`: the number is kept beside an error.
unfoldable pub with_replicas : Desired → String → Parsed ℕ → Desired
with_replicas d k r = elim r.error [
  | none ↦ record d { replicas = r.value }
  | some e ↦ refuse (record d { replicas = r.value }) k (number e)
]

-- The switch on one label.
unfoldable pub volume_label : Desired → String → String → Desired
unfolding with_replicas
volume_label d k v =
    if not (is_reserved_label k)
    then record d { unreserved = insert k v d.unreserved }
    else if k == reserved_label_compute_only
    then refuse d k reserved_label_invalid
    else if k == reserved_label_no_cache || k == reserved_label_no_compress
    then refuse d k reserved_label_fixed
    else if k == reserved_label_failure_mode
    then record d { failure_mode = v }
    else if k == reserved_label_replicas
    then with_replicas d k (parse_uint v)
    else refuse d k reserved_label_unknown

unfoldable pub volume_labels_from : Desired → Dict String → Desired
unfolding volume_label
volume_labels_from d [] = d
volume_labels_from d ((k, v) ∷ rest) = volume_labels_from (volume_label d k v) rest

-- `for k, v := range src { if p(k) { dst[k] = v } }`
unfoldable pub copy_if : (String → Bool) → Dict String → Dict String → Dict String
unfolding insert
copy_if p [] dst = dst
copy_if p ((k, v) ∷ src) dst = copy_if p src (if p k then insert k v dst else dst)

-- The unreserved labels that are desired, and the reserved labels that are set.
unfoldable pub apply_labels : (desired current : StringMap) → Dict String
unfolding copy_if
apply_labels desired current =
    copy_if is_reserved_label (entries current)
      (copy_if (λ k. not (is_reserved_label k)) (entries desired) [])

-- The two tests after which the update is skipped.
unfoldable pub unchanged : (current : StringMap) → (applied : Dict String) → Bool
unchanged current applied =
    (is_empty (entries current) && is_empty applied) || deep_equal current (some applied)

-- `ErrBadFailureMode`
abbrev bad_failure_mode : String
bad_failure_mode =
    "failed to parse failure-mode label, must be hard, soft, alwayson or an integer toleration"

abbrev pub failure_threshold : Parsed ℕ → Result (FailureModeIntent × ℕ)
failure_threshold r = elim r.error [
  | none ↦ ok (unset, r.value)
  | some e ↦ err (wrapped bad_failure_mode (number e))
]

unfoldable pub parse_failure_mode : String → Result (FailureModeIntent × ℕ)
parse_failure_mode s =
    if s == failure_mode_soft
    then ok (soft, 0)
    else if s == failure_mode_hard
    then ok (hard, 0)
    else if s == failure_mode_always_on
    then ok (always_on, 0)
    else if s == ""
    then ok (hard, 0)
    else failure_threshold (parse_uint s)

-- The number of replicas that the volume's label gives.
unfoldable pub current_replicas : Option String → Result ℕ
current_replicas none = ok 0
current_replicas (some v) = parsed_result (parse_uint v)

abbrev pub is_volume_not_found : Error → Bool
is_volume_not_found volume_not_found = true
is_volume_not_found _ = false

-- `if err := m(); err != nil && err != ErrNotFound { errs = append(errs, err) }`
unfoldable pub noting : (ignored : Error → Bool) → List Error → M Unit → M (List Error)
noting ignored errors m =
    handle m (λ _. pure errors) (λ e. pure (if ignored e then errors else errors ++ e ∷ []))

module _ (env : Env) (key : ObjectKey) where
  unfoldable pub ensure_replicas : ℕ → M Unit
  ensure_replicas desired = do
    vol ← get_volume env key
    current ← lift (current_replicas (get vol.labels reserved_label_replicas))
    if eqb current desired
        then pure tt
        else Client.api_do env (Calls.set_replicas vol.namespace_id vol.id desired vol.version)

  unfoldable pub ensure_failure_mode : String → M Unit
  ensure_failure_mode desired = do
    vol ← get_volume env key
    if index vol.labels reserved_label_failure_mode == desired
        then pure tt
        else (lift (parse_failure_mode desired) >>= λ (mode, threshold).
            Client.api_do env
              (Calls.set_failure_mode vol.namespace_id vol.id mode threshold vol.version))

  unfoldable pub ensure_unreserved_volume_labels : StringMap → M Unit
  ensure_unreserved_volume_labels labels = do
    vol ← get_volume env key
    let applied = apply_labels labels vol.labels
    if unchanged vol.labels applied
        then pure tt
        else Client.api_do env
            (Calls.update_volume vol.namespace_id vol.id (some applied) vol.version)

  unfoldable pub ensure_volume_labels : StringMap → M Unit
  ensure_volume_labels labels = do
    let d = volume_labels_from nothing_desired (entries labels)
    errors ← noting is_volume_not_found d.errors (ensure_replicas d.replicas)
    errors' ← noting is_volume_not_found errors (ensure_failure_mode d.failure_mode)
    errors'' ←
        noting is_volume_not_found errors' (ensure_unreserved_volume_labels (some d.unreserved))
    lift (error_or_nil errors'')
