-- ===== src/Storageos/VolumeLabels/Settled.antt =====
-- That the label sync of internal/pkg/storageos/volume_labels.go comes to rest, and the numbers that
-- it sends.
use mathlib.Core.Path.{subst}
use api_manager.Go.Maps.{get}
use api_manager.Storageos.VolumeLabels.{
  ok, get_volume, StringMap, ObjectKey, Env, pure, handle, get, ◌>>=◌, apply_labels, unchanged,
  ensure_unreserved_volume_labels,
}
use api_manager.Storageos.VolumeLabels.Apply.{
  IsMap, InSync, lookup-apply_labels, apply_labels-NodupKeys, unchanged_iff,
}
use api_manager.World.Monad.{◌>>=◌, handle, pure}
use api_manager.World.Objects.{Volume}
use api_manager.World.Env.{History}
use api_manager.Base.{refl, sym, ◌∙◌, true, some, ◌≡◌}

applied-InSync :
    (desired current : StringMap)
    → IsMap desired
    → IsMap current
    → InSync desired (some (apply_labels desired current))
unfolding get
applied-InSync desired current u w k free = lookup-apply_labels desired current k u w ∙ rw free refl

-- Over maps with no key twice: if the volume has the labels that an update sends, then the next run
-- with the same desired labels sends nothing.
pub ensure_unreserved_settles :
    (env : Env) (key : ObjectKey) (desired current : StringMap) (vol : Volume) (h h' : History)
    → IsMap desired
    → IsMap current
    → vol.labels ≡ some (apply_labels desired current)
    → get_volume env key h ≡ (ok vol, h')
    → ensure_unreserved_volume_labels env key desired h ≡ (ok tt, h')
unfolding ensure_unreserved_volume_labels ◌>>=◌ handle pure
ensure_unreserved_settles env key desired current vol h h' u w labelled found =
    rw (found, settled vol.labels labelled) refl
  where
    settled :
        (m : StringMap)
        → m ≡ some (apply_labels desired current)
        → unchanged m (apply_labels desired m) ≡ true
    settled m e =
        subst (λ m. unchanged m (apply_labels desired m) ≡ true) (sym e)
          ((unchanged_iff desired u (some (apply_labels desired current))
              (apply_labels-NodupKeys desired current)).1
            (applied-InSync desired current u w))
