-- ===== src/PvcLabel/Sync.antt =====
-- What the label sync of controllers/pvc-label/controller.go applies, and to which volume.
use mathlib.Core.Option.{or_else}
use mathlib.Core.Logic.{if_pos, if_neg}
use text.Mathlib.Text.{starts_with}
use api_manager.World.Calls
use api_manager.Provisioner.{
  validate_or_set_storage_class_uid, set_storage_class_uid, storage_class_reserved_params,
  reserved_param_prefix, storage_class_uuid_annotation_key,
}
use api_manager.PvcLabel.{
  String, ObjectKey, StorageClass, Pvc, Env, overlay, labels_to_ensure, volume_key, apply_to_volume,
  ensure, spec_storage_class_name,
}
use api_manager.Storageos.VolumeLabels.{volume_labels_from, nothing_desired}
use api_manager.Storageos.VolumeLabels.Updates.{LabelCall, ensure_volume_labels-Ensures}
use api_manager.Base.Dict.{lookup-only, lookup-insert, insert, NodupKeys, Dict, lookup}
use api_manager.World.Trace.{
  Ensures-if, Ensures-throw, Ensures-ask_kube, Ensures-pure, Ensures-fault, Ensures-weaken,
  Ensures-lift, Ensures-handle, Ensures-bind, OkHas, Ensures,
}
use api_manager.Go.Maps.{get, StringMap, entries, index}
use api_manager.Base.{
  String-discrete, ap, refl, ltb, ◌∙◌, none, false, if◌then◌else◌, arith, ◌≤◌, ◌!=◌, some, [], ◌⊎◌,
  ◌∷◌, true, inl, inr, ◌≡◌, ◌≢◌,
}
use api_manager.World.Env.{done, History}
use api_manager.Provisioner.Classes.{storage_class-Ensures, IsClass}
use api_manager.World.Calls.{IsRead, Call}
use api_manager.World.Errors.{nil_map_write}

lookup-overlay :
    (src dst : Dict String) (k : String)
    → NodupKeys src
    → lookup k (overlay src dst) ≡ or_else (lookup k src) (lookup k dst)
unfolding overlay or_else lookup
lookup-overlay [] dst k u = refl
lookup-overlay ((j, v) ∷ src) dst k (fresh, u) =
    ground (arith, lookup-insert j k v dst, lookup-overlay src (insert j v dst) k u)

-- For claims with no label twice: a label of the claim wins over the parameter of the storage
-- class; without a label, the parameter is applied if its name has the prefix of StorageOS; and
-- nothing else is.
pub lookup-labels_to_ensure :
    (sc : StorageClass) (claim : Pvc) (k : String)
    → NodupKeys (entries claim.labels)
    → lookup k (labels_to_ensure sc claim)
      ≡ or_else
          (get claim.labels k)
          (if starts_with k reserved_param_prefix then get sc.parameters k else none)
unfolding labels_to_ensure storage_class_reserved_params or_else get
lookup-labels_to_ensure sc claim k u =
    lookup-overlay (entries claim.labels) (storage_class_reserved_params sc) k u
    ∙ ap (or_else (lookup k (entries claim.labels)))
        (lookup-only (λ j. starts_with j reserved_param_prefix) k (entries sc.parameters))

module _ (env : Env) (claim : Pvc) where
  -- The class of the claim is known to be the one that provisioned it: the claim is annotated with
  -- its identifier, or it is not annotated and the class is not younger than the claim.
  abbrev pub IsSafe : StorageClass → Type 0
  IsSafe sc =
      (index claim.annotations storage_class_uuid_annotation_key ≡ sc.uid)
      ⊎ ((index claim.annotations storage_class_uuid_annotation_key ≡ "")
          × (sc.creation_timestamp ≤ claim.creation_timestamp))

  abbrev pub ClaimClass : StorageClass → Type 0
  ClaimClass = IsClass env (spec_storage_class_name claim)

  abbrev pub own_key : ObjectKey
  own_key = record { namespace = claim.namespace; name = claim.name }

  -- The calls of the sync.
  abbrev pub SyncCall : Call → Type 0
  SyncCall (Calls.update_pvc p) =
      (sc : StorageClass) × ClaimClass sc
      × IsSafe sc
      × ((q : Pvc) × ((h : History) × (env.pvc_at h own_key ≡ done q))
          × ((d : Dict String) × (q.annotations ≡ some d)
              × (p ≡ record q {
                annotations = some (insert storage_class_uuid_annotation_key sc.uid d);
              })))
  SyncCall c =
      IsRead c
      ⊎ ((sc : StorageClass) × ClaimClass sc
          × IsSafe sc
          × (claim.volume_name ≢ "")
          × LabelCall env (record { namespace = claim.namespace; name = claim.volume_name })
              (volume_labels_from nothing_desired (labels_to_ensure sc claim)) c)

  read-SyncCall : (c : Call) → IsRead c → SyncCall c
  read-SyncCall (Calls.update_pvc p) r = absurd (cc)
  read-SyncCall _ r = inl r

  label-SyncCall :
      (sc : StorageClass)
      → ClaimClass sc
      → IsSafe sc
      → claim.volume_name ≢ ""
      → (c : Call)
      → LabelCall env
          (record { namespace = claim.namespace; name = claim.volume_name })
          (volume_labels_from nothing_desired (labels_to_ensure sc claim))
          c
      → SyncCall c
  label-SyncCall sc k safe bound (Calls.update_pvc p) r = absurd (cc)
  label-SyncCall sc k safe bound _ r = inr (sc, k, safe, bound, r)

  set_uid-Ensures :
      (sc : StorageClass)
      → ClaimClass sc
      → IsSafe sc
      → (q : Pvc) → (h : History) × (env.pvc_at h own_key ≡ done q)
      → Ensures SyncCall (λ _. Unit {0}) (set_storage_class_uid env sc q)
  unfolding set_storage_class_uid
  set_uid-Ensures sc k safe q at = go q.annotations refl
    where
      go :
          (m : StringMap)
          → q.annotations ≡ m
          → Ensures SyncCall (λ _. Unit {0}) (set_storage_class_uid env sc q)
      go none e = rw e (Ensures-fault nil_map_write)
      go (some d) e = rw e (
          Ensures-bind {R = λ _. Unit {0}}
            (Ensures-ask_kube _ _ (sc, k, safe, (q, at, (d, e, refl))) (λ h a x. tt))
            (λ _ _. Ensures-pure _ tt))

  validate-Ensures :
      (sc : StorageClass)
      → ClaimClass sc
      → Ensures SyncCall
          (λ same. same ≡ true → IsSafe sc)
          (validate_or_set_storage_class_uid env sc claim)
  unfolding validate_or_set_storage_class_uid
  validate-Ensures sc k =
      Ensures-if (index claim.annotations storage_class_uuid_annotation_key != "") _ _
        (λ annotated. Ensures-pure _ (λ e. inl (ground arith)))
        (λ bare.
          Ensures-if (ltb claim.creation_timestamp sc.creation_timestamp) _ _
            (λ younger. Ensures-pure _ (λ e. absurd (cc)))
            (λ older.
              Ensures-bind {R = λ q. (h : History) × (env.pvc_at h own_key ≡ done q)}
                (Ensures-ask_kube _ _ (inl refl) (λ h a e. (h, e)))
                (λ q at.
                  Ensures-weaken (λ c p. p) (λ _ _ _. safe bare older)
                    (set_uid-Ensures sc k (safe bare older) q at))))
    where
      safe :
          (index claim.annotations storage_class_uuid_annotation_key != "") ≡ false
          → ltb claim.creation_timestamp sc.creation_timestamp ≡ false
          → IsSafe sc
      safe bare older = inr (ground arith, ground arith)

  volume_key-bound :
      OkHas
        (λ key.
          (claim.volume_name ≢ "")
          × (key ≡ record { namespace = claim.namespace; name = claim.volume_name }))
        (volume_key claim)
  unfolding volume_key
  volume_key-bound = elim (String-discrete claim.volume_name "") [
    | yes p ↦ rw (if_pos _ p) tt
    | no p ↦ rw (if_neg _ p) (p, refl)
  ]

  apply_to_volume-Ensures :
      (sc : StorageClass)
      → ClaimClass sc
      → IsSafe sc
      → Ensures SyncCall (λ _. Unit {0}) (apply_to_volume env sc claim)
  unfolding apply_to_volume
  apply_to_volume-Ensures sc k safe =
      Ensures-bind (Ensures-lift _ volume_key-bound) (λ key (bound, same). rw same (
        Ensures-weaken (label-SyncCall sc k safe bound) (λ _ _. tt)
          (ensure_volume_labels-Ensures env
            (record { namespace = claim.namespace; name = claim.volume_name })
            (some (labels_to_ensure sc claim)))))

  -- The sync of a claim makes no change but these: it sets the annotation with the identifier of
  -- its class on the claim as it was read again; and it applies the labels to the volume that is
  -- named in the claim. It makes them only if the class is safe: the claim is annotated with its
  -- identifier, or it is not annotated and the class is not younger than the claim.
  pub ensure-Ensures : Ensures SyncCall (λ _. Unit {0}) (ensure env claim)
  unfolding ensure
  ensure-Ensures =
      Ensures-bind {R = ClaimClass}
        (Ensures-handle
          (Ensures-weaken read-SyncCall (λ sc k. k)
            (storage_class-Ensures env (spec_storage_class_name claim)))
          (λ sc k. Ensures-pure _ k) (λ e. Ensures-throw _))
        (λ sc k.
          Ensures-bind {R = λ same. same ≡ true → IsSafe sc}
            (Ensures-handle (validate-Ensures sc k) (λ same s. Ensures-pure _ s)
              (λ e. Ensures-throw _))
            (λ same s.
              Ensures-if same _ _ (λ e. apply_to_volume-Ensures sc k (s e))
                (λ _. Ensures-pure _ tt)))
