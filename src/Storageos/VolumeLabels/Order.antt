-- ===== src/Storageos/VolumeLabels/Order.antt =====
-- Go visits the labels of a claim in no fixed order: what `EnsureVolumeLabels` of
-- internal/pkg/storageos/volume_labels.go collects in two orders.
use api_manager.Base.{◌≡◌, sym, ◌∙◌, is_empty, String, if◌then◌else◌, ap, none}
use api_manager.Base.Dict.{Dict, NodupKeys}
use api_manager.Go.Maps.Equality.{SameMap}
use api_manager.Go.Maps.Order.{all-SameMap}
use api_manager.Storageos.VolumeLabels.{Desired, volume_labels_from, nothing_desired}
use api_manager.Storageos.VolumeLabels.Collect.{
  volume_labels_from-Collected, Collected, is_applicable, replicas_or, text_or,
}
use api_manager.Labels.{is_reserved_label, reserved_label_replicas, reserved_label_failure_mode}

-- The same number of replicas and failure mode, the same unreserved labels in any order, and errors
-- in both or in none.
pub record SameDesired (d e : Desired) : Type 0 where
  pub replicas : d.replicas ≡ e.replicas
  pub failure_mode : d.failure_mode ≡ e.failure_mode
  pub unreserved : SameMap d.unreserved e.unreserved
  pub errors : is_empty d.errors ≡ is_empty e.errors

module _ (c d : Dict String) (u : NodupKeys c) (w : NodupKeys d) (s : SameMap c d) where
  from_Collected : (x y : Desired) → Collected c x → Collected d y → SameDesired x y
  from_Collected x y cx cy = record {
    replicas = cx.replicas ∙ ap (replicas_or 0) (s reserved_label_replicas) ∙ sym cy.replicas;
    failure_mode =
        cx.failure_mode ∙ ap (text_or "") (s reserved_label_failure_mode) ∙ sym cy.failure_mode;
    unreserved = λ k.
        cx.unreserved k
        ∙ ap (λ v. if is_reserved_label k then none else v) (s k)
        ∙ sym (cy.unreserved k);
    errors = cx.errors ∙ all-SameMap (λ (k, v). is_applicable k v) c d u w s ∙ sym cy.errors;
  }

  -- For two lists of the entries of one map of labels, in any two orders and with no key twice, the
  -- loop collects the same number of replicas, the same failure mode, and the same unreserved
  -- labels, and it finds an error in both or in none.
  pub volume_labels_from-SameDesired :
      SameDesired (volume_labels_from nothing_desired c) (volume_labels_from nothing_desired d)
  volume_labels_from-SameDesired =
      from_Collected _ _ (volume_labels_from-Collected c u) (volume_labels_from-Collected d w)
