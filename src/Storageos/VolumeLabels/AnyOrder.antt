-- ===== src/Storageos/VolumeLabels/AnyOrder.antt =====
-- `EnsureVolumeLabels` of internal/pkg/storageos/volume_labels.go over the labels of a claim in two
-- orders: the calls that it makes.
use mathlib.Core.Path.{subst}
use api_manager.World.Calls
use api_manager.World.Client
use api_manager.Base.{
  ◌≡◌, refl, sym, is_empty, ◌++◌, String, Bool, true, false, List, [], ◌∷◌, some, arith,
  if◌then◌else◌, ℕ,
}
use api_manager.Base.Dict.{Dict, insert, NodupKeys, insert-NodupKeys}
use api_manager.Go.Maps.Equality.{SameMap}
use api_manager.World.Alike.{
  SameCall, same, same_update, ReceivesMaps, SameResult, SameResult-refl, Equal, Alike, Alike-pure,
  Alike-lift, Alike-if, Alike-ask_api, Alike-handle, Alike-bind, Alike-bind_value,
}
use api_manager.World.Env.{Env}
use api_manager.World.Errors.{Error, error_or_nil, Result}
use api_manager.World.Monad.{M, lift}
use api_manager.World.Objects.{ObjectKey}
use api_manager.Labels.{is_reserved_label}
use api_manager.Storageos.Namespace.{get_namespace}
use api_manager.Storageos.Volume.{get_volume}
use api_manager.Storageos.VolumeLabels.{
  Desired, volume_labels_from, nothing_desired, noting, is_volume_not_found, ensure_replicas,
  ensure_failure_mode, ensure_unreserved_volume_labels, ensure_volume_labels, volume_label,
}
use api_manager.Storageos.VolumeLabels.Apply.{apply_labels-NodupKeys}
use api_manager.Storageos.VolumeLabels.Order.{SameDesired, volume_labels_from-SameDesired}
use api_manager.Storageos.VolumeLabels.Collect.{unreserved-volume_label, is_empty-snoc}
use api_manager.Storageos.VolumeLabels.SameLabels.{
  get-SameMap, apply_labels-SameMap, unchanged-SameMap,
}

module _ (env : Env) (receives : ReceivesMaps env) (key : ObjectKey) where
  Alike-api_do :
      (c d : Calls.Call)
      → SameCall c d
      → Alike Equal Equal (Client.api_do env c) (Client.api_do env d)
  Alike-api_do c d s = Alike-ask_api c d _ _ s (λ h h' t. receives.api_write h h' c d t s)

  Alike-lift_same : {A : Type 0} (r : Result A) → Alike Equal Equal (lift r) (lift r)
  Alike-lift_same r = Alike-lift r r (SameResult-refl r)

  Alike-get_volume : Alike Equal Equal (get_volume env key) (get_volume env key)
  unfolding get_volume get_namespace
  Alike-get_volume =
      Alike-bind_value
        (Alike-bind_value (Alike-ask_api _ _ _ _ same (λ h h' t. receives.namespaces h h' t))
          (λ namespaces. Alike-lift_same _))
        (λ ns.
          Alike-bind_value (Alike-ask_api _ _ _ _ same (λ h h' t. receives.volumes_in h h' ns.id t))
            (λ volumes. Alike-lift_same _))

  Alike-replicas :
      (n : ℕ) → Alike Equal Equal (ensure_replicas env key n) (ensure_replicas env key n)
  unfolding ensure_replicas
  Alike-replicas n = Alike-bind_value Alike-get_volume (λ vol.
      Alike-bind_value (Alike-lift_same _)
        (λ current. Alike-if _ _ _ _ _ _ refl (Alike-pure tt tt refl) (Alike-api_do _ _ same)))

  Alike-failure_mode :
      (mode : String)
      → Alike Equal Equal (ensure_failure_mode env key mode) (ensure_failure_mode env key mode)
  unfolding ensure_failure_mode
  Alike-failure_mode mode = Alike-bind_value Alike-get_volume (λ vol.
      Alike-if _ _ _ _ _ _ refl (Alike-pure tt tt refl)
        (Alike-bind_value (Alike-lift_same _) (λ m. Alike-api_do _ _ same)))

  Alike-unreserved :
      (c d : Dict String)
      → NodupKeys c
      → NodupKeys d
      → SameMap c d
      → Alike Equal Equal
          (ensure_unreserved_volume_labels env key (some c))
          (ensure_unreserved_volume_labels env key (some d))
  unfolding ensure_unreserved_volume_labels
  Alike-unreserved c d u w s = Alike-bind_value Alike-get_volume (λ vol.
      Alike-if _ _ _ _ _ _
        (unchanged-SameMap _ _ (apply_labels-NodupKeys _ _) (apply_labels-NodupKeys _ _)
          (apply_labels-SameMap c d u w s vol.labels) vol.labels)
        (Alike-pure tt tt refl)
        (Alike-api_do _ _
          (same_update (get-SameMap _ _ (apply_labels-SameMap c d u w s vol.labels)))))

  -- What is alike of two lists of errors: whether they are empty.
  SameErrors : List Error → List Error → Type 0
  SameErrors es fs = is_empty es ≡ is_empty fs

  Alike-noting :
      (ignored : Error → Bool) (es fs : List Error) (m n : M Unit)
      → SameErrors es fs
      → Alike Equal Equal m n
      → Alike SameErrors (λ e f. Unit) (noting ignored es m) (noting ignored fs n)
  unfolding noting SameErrors
  Alike-noting ignored es fs m n s k =
      Alike-handle k (λ a b e. Alike-pure es fs s) (λ e f p. Alike-pure _ _ (noted e f p))
    where
      noted :
          (e f : Error)
          → e ≡ f
          → SameErrors
              (if ignored e then es else es ++ e ∷ [])
              (if ignored f then fs else fs ++ f ∷ [])
      noted e f p = rw p (ground (arith, s, is_empty-snoc es f, is_empty-snoc fs f))

  ended :
      (es fs : List Error)
      → SameErrors es fs
      → SameResult Equal (λ e f. Unit) (error_or_nil es) (error_or_nil fs)
  unfolding error_or_nil SameErrors
  ended [] [] s = refl
  ended [] (f ∷ fs) s = cc s
  ended (e ∷ es) [] s = cc s
  ended (e ∷ es) (f ∷ fs) s = tt

  added-NodupKeys :
      (d : Desired) (k v : String)
      → NodupKeys d.unreserved
      → NodupKeys (volume_label d k v).unreserved
  added-NodupKeys d k v u =
      subst NodupKeys (sym (unreserved-volume_label d k v)) (go (is_reserved_label k))
    where
      go : (b : Bool) → NodupKeys (if b then d.unreserved else insert k v d.unreserved)
      go true = u
      go false = insert-NodupKeys k v d.unreserved u

  labels-NodupKeys :
      (d : Desired) (labels : Dict String)
      → NodupKeys d.unreserved
      → NodupKeys (volume_labels_from d labels).unreserved
  unfolding volume_labels_from
  labels-NodupKeys d [] u = u
  labels-NodupKeys d ((k, v) ∷ labels) u =
      labels-NodupKeys (volume_label d k v) labels (added-NodupKeys d k v u)

  -- If the answers of the StorageOS API do not depend on the order in which an update lists its
  -- labels, then for two lists of the entries of one map of labels, in any two orders and with no
  -- key twice, and from histories that differ at most in such orders, the label sync makes the same
  -- calls, but for the order of the labels in an update, and it succeeds or fails in both cases.
  pub ensure_volume_labels-Alike :
      (c d : Dict String)
      → NodupKeys c
      → NodupKeys d
      → SameMap c d
      → Alike Equal
          (λ e f. Unit)
          (ensure_volume_labels env key (some c))
          (ensure_volume_labels env key (some d))
  unfolding ensure_volume_labels SameErrors
  ensure_volume_labels-Alike c d u w s =
      Alike-bind {R = SameErrors}
        (Alike-noting is_volume_not_found _ _ _ _ alike.errors (
          subst
            (λ n.
              Alike Equal Equal (ensure_replicas env key x.replicas) (ensure_replicas env key n))
            alike.replicas (Alike-replicas x.replicas)))
        (λ es fs t.
          Alike-bind {R = SameErrors}
            (Alike-noting is_volume_not_found es fs _ _ t (
              subst
                (λ n.
                  Alike Equal Equal (ensure_failure_mode env key x.failure_mode)
                    (ensure_failure_mode env key n))
                alike.failure_mode (Alike-failure_mode x.failure_mode)))
            (λ es fs t.
              Alike-bind {R = SameErrors}
                (Alike-noting is_volume_not_found es fs _ _ t (
                  Alike-unreserved x.unreserved y.unreserved (labels-NodupKeys nothing_desired c tt)
                    (labels-NodupKeys nothing_desired d tt) alike.unreserved))
                (λ es fs t. Alike-lift _ _ (ended es fs t))))
    where
      x : Desired
      x = volume_labels_from nothing_desired c

      y : Desired
      y = volume_labels_from nothing_desired d

      alike : SameDesired x y
      alike = volume_labels_from-SameDesired c d u w s
