-- ===== src/PvcMutator/Encryption/Namespaces.antt =====
-- Where controllers/pvc-mutator/encryption/keygen.go puts secrets, and where a claim points
-- afterwards.
use api_manager.World.Calls
use api_manager.Crypto.RoundTrip.{AreBlockCiphers, FillsBuffers}
use api_manager.PvcMutator.Keys.Secrets.{IsVolumeSecret, IsStored, KeyCall, ensure_keys-Ensures}
use api_manager.PvcMutator.Encryption.{
  volume_secret_name_prefix, driver_name, is_provisioned_storage_class, ok, Result, ObjectKey,
  String, Pvc, Env, index, Primitives, EncryptionKeySetter, is_cross_namespace, secret_namespace,
  volume_secret_key_ref, generate_volume_secret_name, encrypt_claim, set_encryption_keys,
  pointing_to, namespace_secret_name, namespace_secret_key_ref, volume_secret_labels,
}
use api_manager.Go.Maps.{StringMap, index}
use api_manager.World.Trace.{
  Ensures-lift, Ensures-weaken, Ensures-pure, Ensures-handle, Ensures-bind, OkHas, Extends-cons,
  Ensures-throw, Ensures-if, Ensures,
}
use api_manager.World.Calls.{IsRead, Call}
use api_manager.Base.{
  ◌<>◌, some, ◌≢◌, length, refl, [], ◌∷◌, not, ◌∙◌, inr, ◌==◌, ap, arith, Bool, inl, false, ◌⊎◌,
  ◌≡◌,
}
use api_manager.World.Objects.{Bytes}
use api_manager.World.Errors.{panic, err}
use api_manager.Provisioner.Classes.{storage_class_for_pvc-Ensures}
use api_manager.World.Env.{History}

own_namespace :
    (s : EncryptionKeySetter) (claim : Pvc) (namespace : String)
    → is_cross_namespace s claim namespace ≡ false
    → secret_namespace s claim namespace ≡ namespace
unfolding is_cross_namespace secret_namespace index
own_namespace s claim namespace e = ground arith

module _ (prim : Primitives) (laws : AreBlockCiphers prim) (env : Env) (fills : FillsBuffers env)
    (s : EncryptionKeySetter) (namespace : String) where
  -- The calls of the mutation.
  abbrev pub MutationCall : Call → Type 0
  MutationCall (Calls.create_secret sec) =
      (sec.key.namespace ≡ namespace)
      × (((sec.key.name ≡ namespace_secret_name)
            × (sec.labels ≡ s.labels)
            × ((key : Bytes) × (length key ≡ 32) × (sec.contents ≡ some (("key", key) ∷ []))))
          ⊎ IsVolumeSecret prim env (namespace_secret_key_ref namespace) s.labels sec)
  MutationCall (Calls.random_bytes n) = Unit
  MutationCall Calls.new_uuid = Unit
  MutationCall c = IsRead c

  -- The name of the volume's secret: the one that the claim asks for, or a fresh one.
  abbrev pub IsSecretName : Pvc → String → Type 0
  IsSecretName claim name =
      ((name ≡ index claim.annotations s.secret_name_annotation) × (name ≢ ""))
      ⊎ ((index claim.annotations s.secret_name_annotation ≡ "")
          × ((h : History) × (name ≡ volume_secret_name_prefix <> ("-" <> env.uuid h))))

  -- The claim is unchanged, or only points to a secret of the namespace, of that name, which was
  -- found or created with the keys of a volume.
  abbrev pub PointsHome : (claim result : Pvc) → Type 0
  PointsHome claim result =
      (result ≡ claim)
      ⊎ ((ref : ObjectKey) × (ref.namespace ≡ namespace)
          × IsSecretName claim ref.name
          × IsStored prim env (namespace_secret_key_ref namespace) s.labels ref
          × (result ≡ pointing_to s claim ref))

  pub read-MutationCall : (c : Call) → IsRead c → MutationCall c
  read-MutationCall (Calls.create_secret sec) r = absurd (cc)
  read-MutationCall (Calls.random_bytes n) r = tt
  read-MutationCall Calls.new_uuid r = tt
  read-MutationCall _ r = r

  key-MutationCall :
      (ref : ObjectKey) (labels : StringMap)
      → ref.namespace ≡ namespace
      → (c : Call)
      → KeyCall prim laws env fills (namespace_secret_key_ref namespace) ref s.labels labels c
      → MutationCall c
  key-MutationCall ref labels home (Calls.create_secret sec) (inl (k, l, c)) =
      (ap (λ x. x.namespace) k, inl (ap (λ x. x.name) k, l, c))
  key-MutationCall ref labels home (Calls.create_secret sec) (inr (k, l, c)) =
      (ap (λ x. x.namespace) k ∙ home, inr c)
  key-MutationCall ref labels home (Calls.random_bytes n) r = tt
  key-MutationCall ref labels home Calls.new_uuid r = tt
  key-MutationCall ref labels home _ r = r

  module _ (claim : Pvc) where
    ref-Ensures :
        is_cross_namespace s claim namespace ≡ false
        → Ensures MutationCall
            (λ ref. (ref.namespace ≡ namespace) × IsSecretName claim ref.name)
            (volume_secret_key_ref env s claim namespace)
    unfolding volume_secret_key_ref generate_volume_secret_name
    ref-Ensures own =
        Ensures-bind {R = IsSecretName claim}
          (Ensures-if (index claim.annotations s.secret_name_annotation == "") _ _
            (λ none_asked. fresh (ground arith))
            (λ asked. Ensures-pure _ (inl (refl, ground arith))))
          (λ name k. Ensures-pure _ (own_namespace s claim namespace own, k))
      where
        fresh :
            index claim.annotations s.secret_name_annotation ≡ ""
            → Ensures MutationCall (IsSecretName claim) (generate_volume_secret_name env)
        fresh e = record {
          calls = λ h. Extends-cons Calls.new_uuid h tt;
          value = λ h. inr (e, (h, refl));
        }

    encrypt_claim-Ensures :
        Ensures MutationCall (PointsHome claim) (encrypt_claim prim env s claim namespace)
    unfolding encrypt_claim
    encrypt_claim-Ensures =
        Ensures-if (is_cross_namespace s claim namespace) _ _ (λ _. Ensures-throw _)
          (λ own. Ensures-bind (ref-Ensures own) (λ ref (home, name).
            Ensures-bind
              {R = λ _. IsStored prim env (namespace_secret_key_ref namespace) s.labels ref}
              (Ensures-handle
                {R = λ _. IsStored prim env (namespace_secret_key_ref namespace) s.labels ref}
                (Ensures-weaken (key-MutationCall ref _ home) (λ _ k. k)
                  (ensure_keys-Ensures prim laws env fills (namespace_secret_key_ref namespace) ref
                    s.labels (volume_secret_labels s claim.name)))
                (λ _ k. Ensures-pure _ k) (λ e. Ensures-throw _))
              (λ _ stored. Ensures-pure _ (inr (ref, home, name, stored, refl)))))

    -- Over primitives with the documented laws, mutating a claim creates secrets in the namespace
    -- of the request only, each the key of that namespace or one that holds the keys of a volume;
    -- and it leaves the claim as it is, or changes nothing but the two annotations, which then name
    -- a secret of that namespace that was found or created for the volume.
    pub set_encryption_keys-Ensures :
        Ensures MutationCall (PointsHome claim) (set_encryption_keys prim env s claim namespace)
    unfolding set_encryption_keys
    set_encryption_keys-Ensures =
        Ensures-bind {R = λ _. Unit {0}}
          (Ensures-handle
            (Ensures-weaken read-MutationCall (λ sc k. k) (storage_class_for_pvc-Ensures env claim))
            (λ sc k. Ensures-pure _ tt) (λ e. Ensures-throw _))
          (λ sc _.
            Ensures-if (not (is_provisioned_storage_class sc (driver_name ∷ []))) _ _
              (λ _. Ensures-pure _ (inl refl))
              (λ ours.
                Ensures-bind {R = λ _. Unit {0}}
                  (Ensures-handle {R = λ _. Unit {0}} (Ensures-lift _ (any _))
                    (λ _ _. Ensures-pure _ tt) (λ e. Ensures-throw _))
                  (λ enabled _.
                    Ensures-if enabled _ _ (λ _. encrypt_claim-Ensures)
                      (λ _. Ensures-pure _ (inl refl)))))
      where
        any : (r : Result Bool) → OkHas (λ _. Unit {0}) r
        any (ok a) = tt
        any (err e) = tt
        any (panic f) = tt
