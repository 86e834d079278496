-- ===== src/Provisioner/Classes.antt =====
-- What the lookups of internal/pkg/provisioner/storageclass.go call and return.

use api_manager.World.Calls
use api_manager.Provisioner.{
  storage_class_uuid_annotation_key, nil_map_write, lookup, index, ◌>>=◌, set_storage_class_uid,
  validate_or_set_storage_class_uid, err, ok, Result, ◌∷◌, StorageClass, List, String, Pvc, Env,
  is_default, find_default, default_storage_class, storage_class, storage_class_for_pvc,
  is_provisioned_storage_class, is_storageos_volume, is_provisioned_volume, is_provisioned_pvc,
  pvc_storage_class_name, driver_name,
}
use api_manager.World.Trace.{
  Ensures-bind, Ensures-throw, Ensures-pure, Ensures-lift, Ensures-ask_kube, Ensures-handle,
  Ensures-if, OkHas, Ensures,
}
use api_manager.World.Env.{done, History}
use api_manager.World.Calls.{IsRead}
use api_manager.Base.{
  false, ltb, ◌!=◌, ◌≤◌, none, some, Bool, Option, refl, arith, [], ◌⊎◌, inr, ◌==◌, inl, true, In,
  ◌≡◌, ◌≢◌, Bool-cases,
}
use api_manager.World.Client.{cluster_key}
use api_manager.World.Errors.{panic}
use api_manager.World.Monad.{◌>>=◌, ask_kube}
use api_manager.Base.Dict.{lookup}
use api_manager.Go.Maps.{index}

module _ (env : Env) where
  -- A class that the API returned for the name, or, for the empty name, one of its list that is
  -- annotated as the default.
  abbrev pub IsClass : (name : String) → StorageClass → Type 0
  IsClass name sc =
      ((h : History) × (name ≢ "") × (env.storage_class_at h (cluster_key name) ≡ done sc))
      ⊎ ((h : History) × (name ≡ "")
          × (is_default sc ≡ true)
          × ((classes : List StorageClass) × (env.storage_classes h ≡ done classes)
              × In sc classes))

  Chosen : List StorageClass → Result StorageClass → Type 0
  Chosen l r = OkHas (λ sc. (is_default sc ≡ true) × In sc l) r

  Chosen-cons :
      (c : StorageClass) (l : List StorageClass) (r : Result StorageClass)
      → Chosen l r
      → Chosen (c ∷ l) r
  unfolding Chosen
  Chosen-cons c l (ok w) p = (p.0, In.there p.1)
  Chosen-cons c l (err e) p = tt
  Chosen-cons c l (panic f) p = tt

  find_default-Chosen : (l : List StorageClass) → Chosen l (find_default l)
  unfolding find_default Chosen
  find_default-Chosen [] = tt
  find_default-Chosen (c ∷ rest) = elim (Bool-cases (is_default c)) [
    | inl p ↦ rw p (p, In.here refl)
    | inr p ↦ rw p (Chosen-cons c rest _ (find_default-Chosen rest))
  ]

  default_storage_class-Ensures :
      (name : String) → name ≡ "" → Ensures IsRead (IsClass name) (default_storage_class env)
  unfolding default_storage_class Chosen
  default_storage_class-Ensures name p =
      Ensures-handle {R = λ l. (h : History) × (env.storage_classes h ≡ done l)}
        (Ensures-ask_kube _ _ refl (λ h a e. (h, e)))
        (λ l at. Ensures-lift _ (go l at (find_default l) (find_default-Chosen l)))
        (λ e. Ensures-throw _)
    where
      go :
          (l : List StorageClass)
          → (h : History) × (env.storage_classes h ≡ done l)
          → (r : Result StorageClass) → Chosen l r
          → OkHas (IsClass name) r
      go l at (ok sc) c = inr (at.0, p, c.0, (l, at.1, c.1))
      go l at (err e) c = tt
      go l at (panic f) c = tt

  pub storage_class-Ensures :
      (name : String) → Ensures IsRead (IsClass name) (storage_class env name)
  unfolding storage_class
  storage_class-Ensures name =
      Ensures-if (name == "") _ _ (λ empty. default_storage_class-Ensures _ (ground arith))
        (λ full.
          Ensures-handle {R = IsClass name}
            (Ensures-ask_kube _ _ refl (λ h a e. inl (h, ground arith, e)))
            (λ sc c. Ensures-pure _ c) (λ e. Ensures-throw _))

  pub storage_class_for_pvc-Ensures :
      (claim : Pvc)
      → Ensures IsRead (IsClass (pvc_storage_class_name claim)) (storage_class_for_pvc env claim)
  unfolding storage_class_for_pvc
  storage_class_for_pvc-Ensures claim =
      Ensures-if (pvc_storage_class_name claim == "") _ _
        (λ empty. default_storage_class-Ensures _ (ground arith))
        (λ full. storage_class-Ensures (pvc_storage_class_name claim))

  -- The claim was read under the name, and the class that was found for it is one of the driver.
  pub record IsManaged (namespace : String) (claim : String) : Type 0 where
    pub pvc_read : Pvc
    pub at : History
    pub read : env.pvc_at at (record { namespace = namespace; name = claim }) ≡ done pvc_read
    pub class : StorageClass
    pub is_class : IsClass (pvc_storage_class_name pvc_read) class
    pub provisioned : class.provisioner ≡ driver_name

  abbrev pub ManagedIf : (claim : Option String) (namespace : String) → Bool → Type 0
  ManagedIf claim namespace b =
      b ≡ true → (name : String) × (claim ≡ some name) × IsManaged namespace name

  provisioned_by_driver :
      (sc : StorageClass)
      → is_provisioned_storage_class sc (driver_name ∷ []) ≡ true
      → sc.provisioner ≡ driver_name
  unfolding is_provisioned_storage_class
  provisioned_by_driver sc p = ground arith

  pub is_storageos_volume-Ensures :
      (claim : Option String) (namespace : String)
      → Ensures IsRead (ManagedIf claim namespace) (is_storageos_volume env claim namespace)
  unfolding is_storageos_volume is_provisioned_volume is_provisioned_pvc
  is_storageos_volume-Ensures none namespace = Ensures-pure _ (λ e. absurd (cc))
  is_storageos_volume-Ensures (some name) namespace =
      Ensures-bind
        {R = λ p.
          (h : History) × (env.pvc_at h (record { namespace = namespace; name = name }) ≡ done p)}
        (Ensures-handle
          {R = λ p.
            (h : History) × (env.pvc_at h (record { namespace = namespace; name = name }) ≡ done p)}
          (Ensures-ask_kube _ _ refl (λ h a e. (h, e))) (λ p at. Ensures-pure _ at)
          (λ e. Ensures-throw _))
        (λ p at. Ensures-bind (storage_class_for_pvc-Ensures p) (λ sc c. Ensures-pure _ (λ e. (
          name,
          refl,
          record {
            pvc_read = p;
            at = at.0;
            read = at.1;
            class = sc;
            is_class = c;
            provisioned = provisioned_by_driver sc e;
          },
        ))))

  unset : (k : String) → (index none k != "") ≡ false
  unfolding index lookup
  unset k = ground arith

  -- If neither the claim nor the claim as it is read again has annotations, and the class is not
  -- younger, then the process ends with a write to a nil map, after no call but that read.
  pub validate_without_annotations :
      (sc : StorageClass) (claim q : Pvc) (h : History)
      → claim.annotations ≡ none
      → sc.creation_timestamp ≤ claim.creation_timestamp
      → env.pvc_at h (record { namespace = claim.namespace; name = claim.name }) ≡ done q
      → q.annotations ≡ none
      → validate_or_set_storage_class_uid env sc claim h ≡ (
        panic nil_map_write,
        Calls.kube_get Calls.pvc (record { namespace = claim.namespace; name = claim.name }) ∷ h,
      )
  unfolding validate_or_set_storage_class_uid set_storage_class_uid ◌>>=◌ ask_kube
  validate_without_annotations sc claim q h bare older read q_bare =
      rw (bare, unset storage_class_uuid_annotation_key, not_younger, read, q_bare) refl
    where
      not_younger : ltb claim.creation_timestamp sc.creation_timestamp ≡ false
      not_younger = ground arith
