-- ===== src/Tests/VolumeSync.antt =====
-- Labels applied to the sample volume.
use api_manager.World.Calls
use api_manager.Storageos.Volume.{find_volume, get_volume}
use api_manager.Tests.World.{cluster, sample_volume, healthy_cluster}
use api_manager.World.Objects.{Volume, ObjectKey}
use api_manager.Storageos.VolumeLabels.{
  with_replicas, parse_failure_mode, current_replicas, copy_if, volume_label, noting,
  ensure_unreserved_volume_labels, ensure_failure_mode, ensure_replicas, nothing_desired,
  apply_labels, volume_labels_from, ensure_volume_labels, unchanged,
}
use api_manager.Base.Dict.{insert, NodupKeys, lookup, Dict}
use api_manager.World.Trace.{Ensures}
use api_manager.Storageos.VolumeLabels.Collect.{
  replicas_overflow, volume_labels_from-Collected, Collected,
}
use api_manager.Base.{
  false, is_empty, refl, String-discrete, ◌↔◌, true, if◌then◌else◌, ◌≡◌, [], ◌∷◌, String, some,
}
use api_manager.Storageos.VolumeLabels.Updates.{ensure_volume_labels-Ensures, LabelCall}
use api_manager.Storageos.VolumeLabels.Apply.{lookup-apply_labels, IsMap}
use api_manager.World.Errors.{error_or_nil, ok}
use api_manager.Go.Strconv.{parse_uint, max_uint64}
use api_manager.Labels.{is_reserved_label}
use api_manager.Go.Maps.{StringMap, deep_equal, index, get}
use api_manager.Storageos.Namespace.{find_namespace, get_namespace}
use api_manager.World.Monad.{handle, ask_api, ◌>>=◌}
use api_manager.World.Env.{History}
use api_manager.Storageos.VolumeLabels.Bounds.{ensure_volume_labels-Fits, Fits}
use api_manager.Storageos.VolumeLabels.Abstract.{unchanged-refines, abstract, apply}
use api_manager.Go.Maps.Equality.{deep_equal_iff, SameMap}
use api_manager.World.Alike.{Equal, Alike, ReceivesMaps}
use api_manager.Storageos.VolumeLabels.AnyOrder.{ensure_volume_labels-Alike}

program : Unit {0}
unfolding String-discrete cluster ensure_volume_labels ensure_replicas ensure_failure_mode
    ensure_unreserved_volume_labels noting volume_labels_from volume_label copy_if apply_labels
    unchanged current_replicas parse_failure_mode get index lookup insert get_volume get_namespace
    find_namespace find_volume parse_uint with_replicas ◌>>=◌ ask_api handle
program = tt

abbrev claim_labels : Dict String
claim_labels = ("storageos.com/replicas", "2") ∷ ("tier", "db") ∷ []

-- The replicas and the labels are changed; the failure mode has no label, and is left.
ensure_volume_labels_run :
    (ensure_volume_labels healthy_cluster
      (record { namespace = "app"; name = "pv-1" })
      (some claim_labels)
      []).0
    ≡ ok tt
unfolding program is_reserved_label deep_equal error_or_nil
ensure_volume_labels_run = refl

abbrev sample_key : ObjectKey
sample_key = record { namespace = "app"; name = "pv-1" }

claim_labels-NodupKeys : NodupKeys claim_labels
unfolding lookup String-discrete
claim_labels-NodupKeys = (refl, (refl, tt))

volume-IsMap : IsMap sample_volume.labels
unfolding lookup String-discrete
volume-IsMap = (refl, (refl, tt))

ensure_volume_labels-Ensures_example :
    Ensures
      (LabelCall healthy_cluster sample_key (volume_labels_from nothing_desired claim_labels))
      (λ _. Unit {0})
      (ensure_volume_labels healthy_cluster sample_key (some claim_labels))
ensure_volume_labels-Ensures_example =
    ensure_volume_labels-Ensures healthy_cluster sample_key (some claim_labels)

lookup-apply_labels_example :
    lookup "storageos.com/replicas" (apply_labels (some claim_labels) sample_volume.labels) ≡ (
      if is_reserved_label "storageos.com/replicas"
      then get sample_volume.labels "storageos.com/replicas"
      else get (some claim_labels) "storageos.com/replicas")
lookup-apply_labels_example =
    lookup-apply_labels (some claim_labels) sample_volume.labels "storageos.com/replicas"
      claim_labels-NodupKeys volume-IsMap

-- The labels of the volume, and the same in another order.
abbrev turned_labels : Dict String
turned_labels = ("tier", "db") ∷ ("storageos.com/replicas", "2") ∷ []

unchanged-refines_example :
    (unchanged sample_volume.labels (apply_labels (some claim_labels) sample_volume.labels) ≡ true)
    ↔ (apply
          (abstract (some claim_labels, claim_labels-NodupKeys))
          (abstract (sample_volume.labels, volume-IsMap))
        ≡ abstract (sample_volume.labels, volume-IsMap))
unchanged-refines_example =
    unchanged-refines (some claim_labels, claim_labels-NodupKeys)
      (sample_volume.labels, volume-IsMap)

turned_labels-NodupKeys : NodupKeys turned_labels
unfolding lookup String-discrete
turned_labels-NodupKeys = (refl, (refl, tt))

turned_labels-SameMap : SameMap claim_labels turned_labels
unfolding deep_equal lookup String-discrete
turned_labels-SameMap =
    (deep_equal_iff claim_labels turned_labels claim_labels-NodupKeys turned_labels-NodupKeys).0
      refl

healthy_cluster-ReceivesMaps : ReceivesMaps healthy_cluster
unfolding cluster
healthy_cluster-ReceivesMaps = record {
  namespaces = λ h h' s. refl;
  volumes_in = λ h h' ns s. refl;
  api_write = λ h h' c d s t. refl;
}

ensure_volume_labels-Alike_example :
    Alike Equal
      (λ e f. Unit)
      (ensure_volume_labels healthy_cluster sample_key (some claim_labels))
      (ensure_volume_labels healthy_cluster sample_key (some turned_labels))
ensure_volume_labels-Alike_example =
    ensure_volume_labels-Alike healthy_cluster healthy_cluster-ReceivesMaps sample_key claim_labels
      turned_labels claim_labels-NodupKeys turned_labels-NodupKeys turned_labels-SameMap

volume_labels_from-Collected_example :
    Collected claim_labels (volume_labels_from nothing_desired claim_labels)
volume_labels_from-Collected_example =
    volume_labels_from-Collected claim_labels claim_labels-NodupKeys

abbrev huge_labels : Dict String
huge_labels = ("storageos.com/replicas", "18446744073709551616") ∷ []

replicas_overflow_example :
    ((volume_labels_from nothing_desired huge_labels).replicas ≡ max_uint64)
    × (is_empty (volume_labels_from nothing_desired huge_labels).errors ≡ false)
unfolding program
replicas_overflow_example =
    replicas_overflow huge_labels "18446744073709551616" (refl, tt) refl refl

abbrev tier_only : StringMap
tier_only = some (("tier", "db") ∷ [])

abbrev labelled_volume : Volume
labelled_volume = record sample_volume {
  labels = some (apply_labels tier_only sample_volume.labels);
}

abbrev found_after : History
found_after = Calls.list_volumes "ns-id" ∷ (Calls.list_namespaces ∷ [])

ensure_volume_labels-Fits_example :
    Ensures Fits
      (λ _. Unit {0})
      (ensure_volume_labels healthy_cluster
        (record { namespace = "app"; name = "pv-1" })
        (some (("storageos.com/replicas", "99999999999999999999") ∷ [])))
ensure_volume_labels-Fits_example =
    ensure_volume_labels-Fits healthy_cluster (record { namespace = "app"; name = "pv-1" })
      (some (("storageos.com/replicas", "99999999999999999999") ∷ []))
