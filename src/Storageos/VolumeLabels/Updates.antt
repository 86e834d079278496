-- ===== src/Storageos/VolumeLabels/Updates.antt =====
-- The changes that internal/pkg/storageos/volume_labels.go makes to a volume.
use api_manager.World.Calls
use api_manager.World.Env.{Env}
use api_manager.World.Objects.{Volume, ObjectKey}
use api_manager.Storageos.VolumeLabels.{nothing_desired, Desired}
use api_manager.Storageos.VolumeLabels.{
  parse_failure_mode, apply_labels, reserved_label_replicas, reserved_label_failure_mode,
  is_volume_not_found, index, get, unchanged, M, entries, err, Error, current_replicas, get_volume,
  ok, volume_labels_from, ensure_unreserved_volume_labels, ensure_replicas, StringMap,
  ensure_failure_mode, noting, ensure_volume_labels,
}
use api_manager.Base.{false, arith, ◌≢◌, eqb, ◌==◌, ℕ, refl, List, some, ◌≡◌, String}
use api_manager.World.Errors.{panic, Result}
use api_manager.World.Trace.{
  OkHas-self, Ensures-ask_api, Ensures-pure, Ensures-handle, Ensures-lift, Ensures-weaken,
  Ensures-if, Ensures-bind, Ensures, OkHas,
}
use api_manager.World.Calls.{IsRead, Call}
use api_manager.Storageos.Volume.Lookup.{get_volume-IsListed, IsListed}

module _ (env : Env) (key : ObjectKey) where
  -- The volume that a change is about: listed under the key, and named in the call by its
  -- identifiers and the version that was read.
  pub record Addresses (namespace_id id version : String) (vol : Volume) : Type 0 where
    pub listed : IsListed env key vol
    pub same_namespace : namespace_id ≡ vol.namespace_id
    pub same_id : id ≡ vol.id
    pub same_version : version ≡ vol.version

  -- The calls that applying the collected labels may make.
  abbrev pub LabelCall : Desired → Call → Type 0
  LabelCall d (Calls.set_replicas ns id n version) =
      (vol : Volume) × Addresses ns id version vol
      × (n ≡ d.replicas)
      × ((current : ℕ) × (current_replicas (get vol.labels reserved_label_replicas) ≡ ok current)
          × (current ≢ n))
  LabelCall d (Calls.set_failure_mode ns id mode threshold version) =
      (vol : Volume) × Addresses ns id version vol
      × (parse_failure_mode d.failure_mode ≡ ok (mode, threshold))
      × (index vol.labels reserved_label_failure_mode ≢ d.failure_mode)
  LabelCall d (Calls.update_volume ns id labels version) =
      (vol : Volume) × Addresses ns id version vol
      × (labels ≡ some (apply_labels (some d.unreserved) vol.labels))
      × (unchanged vol.labels (apply_labels (some d.unreserved) vol.labels) ≡ false)
  LabelCall d c = IsRead c

  module _ (d : Desired) where
    read-LabelCall : (c : Call) → IsRead c → LabelCall d c
    read-LabelCall (Calls.set_replicas ns id n version) r = absurd (cc)
    read-LabelCall (Calls.set_failure_mode ns id mode threshold version) r = absurd (cc)
    read-LabelCall (Calls.update_volume ns id labels version) r = absurd (cc)
    read-LabelCall _ r = r

    found : Ensures (LabelCall d) (IsListed env key) (get_volume env key)
    found = Ensures-weaken read-LabelCall (λ v l. l) (get_volume-IsListed env key)

    addressed :
        (vol : Volume) → IsListed env key vol → Addresses vol.namespace_id vol.id vol.version vol
    addressed vol l = record {
      listed = l;
      same_namespace = refl;
      same_id = refl;
      same_version = refl;
    }

    ensure_replicas-Ensures : Ensures (LabelCall d) (λ _. Unit) (ensure_replicas env key d.replicas)
    unfolding ensure_replicas
    ensure_replicas-Ensures = Ensures-bind found (λ vol l.
        Ensures-bind {R = λ n. current_replicas (get vol.labels reserved_label_replicas) ≡ ok n}
          (Ensures-lift _ (OkHas-self _))
          (λ n e.
            Ensures-if (eqb n d.replicas) _ _ (λ _. Ensures-pure _ tt)
              (λ differ.
                Ensures-ask_api _ _ (vol, addressed vol l, refl, (n, e, ground arith))
                  (λ h a x. tt))))

    ensure_failure_mode-Ensures :
        Ensures (LabelCall d) (λ _. Unit) (ensure_failure_mode env key d.failure_mode)
    unfolding ensure_failure_mode
    ensure_failure_mode-Ensures = Ensures-bind found (λ vol l.
        Ensures-if (index vol.labels reserved_label_failure_mode == d.failure_mode) _ _
          (λ _. Ensures-pure _ tt)
          (λ differ.
            Ensures-bind {R = λ m. parse_failure_mode d.failure_mode ≡ ok m}
              (Ensures-lift _ (OkHas-self _))
              (λ m e. Ensures-ask_api _ _ (vol, addressed vol l, e, ground arith) (λ h a x. tt))))

    ensure_unreserved-Ensures :
        Ensures
          (LabelCall d)
          (λ _. Unit)
          (ensure_unreserved_volume_labels env key (some d.unreserved))
    unfolding ensure_unreserved_volume_labels
    ensure_unreserved-Ensures = Ensures-bind found (λ vol l.
        Ensures-if (unchanged vol.labels (apply_labels (some d.unreserved) vol.labels)) _ _
          (λ _. Ensures-pure _ tt)
          (λ differ. Ensures-ask_api _ _ (vol, addressed vol l, refl, differ) (λ h a x. tt)))

    noting-Ensures :
        (errors : List Error) (m : M Unit)
        → Ensures (LabelCall d) (λ _. Unit) m
        → Ensures (LabelCall d) (λ _. Unit) (noting is_volume_not_found errors m)
    unfolding noting
    noting-Ensures errors m k = Ensures-handle k (λ a _. Ensures-pure _ tt) (λ e. Ensures-pure _ tt)

  any_result : (r : Result (Unit {0})) → OkHas (λ _. Unit) r
  any_result (ok a) = tt
  any_result (err e) = tt
  any_result (panic f) = tt

  -- Applying labels makes no change but these three, each to a listed volume of the key's name, at
  -- the version that was read: it sets the collected number of replicas where the volume's label
  -- gives another number; it sets the failure mode that the collected text stands for where the
  -- volume's label is another text; and it updates the labels to the applied ones where they are
  -- not in step.
  pub ensure_volume_labels-Ensures :
      (labels : StringMap)
      → Ensures
          (LabelCall (volume_labels_from nothing_desired (entries labels)))
          (λ _. Unit)
          (ensure_volume_labels env key labels)
  unfolding ensure_volume_labels
  ensure_volume_labels-Ensures labels =
      Ensures-bind (noting-Ensures d _ _ (ensure_replicas-Ensures d)) (λ e _.
        Ensures-bind (noting-Ensures d _ _ (ensure_failure_mode-Ensures d)) (λ e' _.
          Ensures-bind (noting-Ensures d _ _ (ensure_unreserved-Ensures d))
            (λ e'' _. Ensures-lift _ (any_result _))))
    where
      d : Desired
      d = volume_labels_from nothing_desired (entries labels)
