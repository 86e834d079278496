-- ===== src/Storageos/Index.antt =====
-- The maps that NodeObjects and VolumeObjects of internal/pkg/storageos build: objects by their
-- key, where a later object takes the place of an earlier one.
pub mod Laws
use api_manager.Base.{Bool, Option, none, some, List, [], ◌∷◌, ◌==◌, ◌&&◌, if◌then◌else◌}
use api_manager.Base.{String-discrete}
use api_manager.World.Objects.{ObjectKey}

abbrev pub same_key : ObjectKey → ObjectKey → Bool
same_key a b = a.namespace == b.namespace && a.name == b.name

module _ {A : Type 0} (key : A → ObjectKey) where
  unfoldable pub indexed : List A → ObjectKey → Option A
  indexed [] k = none
  indexed (a ∷ rest) k = elim (indexed rest k) [
    | none ↦ if same_key (key a) k then some a else none
    | some b ↦ some b
  ]
