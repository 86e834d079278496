-- ===== src/Storageos/VolumeLabels/Bounds.antt =====
-- The numbers that the label sync of internal/pkg/storageos/volume_labels.go sends.
use api_manager.World.Calls
use api_manager.Storageos.VolumeLabels.{
  number, entries, ok, StringMap, ObjectKey, FailureModeIntent, Env, String, Dict,
  ensure_volume_labels, volume_labels_from, nothing_desired, Desired, volume_label, with_replicas,
  refuse, parse_failure_mode,
}
use api_manager.Storageos.VolumeLabels.Updates.{LabelCall, ensure_volume_labels-Ensures}
use api_manager.World.Calls.{Call}
use api_manager.Base.{Option, some, none, ◌∷◌, ◌≡◌, [], arith, ℕ, ◌≤◌}
use api_manager.Go.Strconv.{NumError, parse_uint, max_uint64}
use api_manager.World.Trace.{Ensures-weaken, Ensures}
use api_manager.Go.Strconv.Laws.{parse_uint_bound}

-- The numbers in a call fit in 64 bits.
abbrev pub Fits : Call → Type 0
Fits (Calls.set_replicas ns id n version) = n ≤ max_uint64
Fits (Calls.set_failure_mode ns id mode threshold version) = threshold ≤ max_uint64
Fits c = Unit

with_replicas-bound :
    (d : Desired) (k v : String)
    → d.replicas ≤ max_uint64
    → (with_replicas d k (parse_uint v)).replicas ≤ max_uint64
unfolding with_replicas
with_replicas-bound d k v le = go (parse_uint v).error (parse_uint_bound v)
  where
    picked : Option NumError → Desired
    picked none = record d { replicas = (parse_uint v).value }
    picked (some e) = refuse (record d { replicas = (parse_uint v).value }) k (number e)

    go :
        (o : Option NumError) → (parse_uint v).value ≤ max_uint64 → (picked o).replicas ≤ max_uint64
    go none b = b
    go (some e) b = b

volume_label-bound :
    (d : Desired) (k v : String)
    → d.replicas ≤ max_uint64
    → (volume_label d k v).replicas ≤ max_uint64
unfolding volume_label
volume_label-bound d k v le = ground (arith, with_replicas-bound d k v le)

labels-bound :
    (d : Desired) (l : Dict String)
    → d.replicas ≤ max_uint64
    → (volume_labels_from d l).replicas ≤ max_uint64
unfolding volume_labels_from
labels-bound d [] le = le
labels-bound d ((k, v) ∷ rest) le =
    labels-bound (volume_label d k v) rest (volume_label-bound d k v le)

threshold-bound :
    (s : String) (mode : FailureModeIntent) (t : ℕ)
    → parse_failure_mode s ≡ ok (mode, t)
    → t ≤ max_uint64
unfolding parse_failure_mode
threshold-bound s mode t e = ground (arith, parse_uint_bound s)

module _ (env : Env) (key : ObjectKey) (labels : StringMap) where
  fits : (d : Desired) → d.replicas ≤ max_uint64 → (c : Call) → LabelCall env key d c → Fits c
  fits d le (Calls.set_replicas ns id n version) (vol, a, same, r) = omega (arith, same, le)
  fits d le (Calls.set_failure_mode ns id mode threshold version) (vol, a, parsed, r) =
      threshold-bound d.failure_mode mode threshold parsed
  fits d le _ r = tt

  -- Whatever the labels are, each number of replicas and each failure threshold that is sent to
  -- StorageOS fits in 64 bits.
  pub ensure_volume_labels-Fits : Ensures Fits (λ _. Unit {0}) (ensure_volume_labels env key labels)
  ensure_volume_labels-Fits =
      Ensures-weaken
        (fits (volume_labels_from nothing_desired (entries labels))
          (labels-bound nothing_desired (entries labels) (omega arith)))
        (λ _ _. tt) (ensure_volume_labels-Ensures env key labels)
