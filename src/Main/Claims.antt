-- ===== src/Main/Claims.antt =====
-- The answer of the web hook of claims: the encryption of a claim, and then the annotation with its
-- storage class.
use api_manager.Base.{refl}
use api_manager.Main.{
  new_key_setter, Reply, String, Pvc, Primitives, Env, pvc_mutators, default_labels,
}
use api_manager.Main.Hooks.{Answers, handle_request-Ensures}
use api_manager.Admission.{Request, handle_request, run_mutators}
use api_manager.PvcMutator.{annotated, set_storage_class_annotation}
use api_manager.PvcMutator.Encryption.Namespaces.{
  MutationCall, PointsHome, read-MutationCall, set_encryption_keys-Ensures,
}
use api_manager.Crypto.RoundTrip.{FillsBuffers, AreBlockCiphers}
use api_manager.Base.{Bool-cases, inr, inl, if◌then◌else◌, false, true, [], ◌∷◌, ◌⊎◌, ◌≡◌}
use api_manager.World.Trace.{
  Ensures-throw, Ensures-handle, Ensures-pure, Ensures-weaken, Ensures-bind, Ensures,
}
use api_manager.World.Calls.{IsRead}
use api_manager.World.Objects.{StorageClass}
use api_manager.Provisioner.Classes.{storage_class_for_pvc-Ensures, IsClass}
use api_manager.Provisioner.{
  storage_class_uuid_annotation_key, driver_name, is_provisioned_storage_class,
  pvc_storage_class_name,
}

module _ (env : Env) where
  -- The claim is unchanged; or only annotated with the identifier of its class, which is one of the
  -- driver.
  abbrev pub IsAnnotated : (claim result : Pvc) → Type 0
  IsAnnotated claim result =
      (result ≡ claim)
      ⊎ ((sc : StorageClass) × IsClass env (pvc_storage_class_name claim) sc
          × (is_provisioned_storage_class sc (driver_name ∷ []) ≡ true)
          × (result ≡ record claim {
            annotations = annotated claim.annotations storage_class_uuid_annotation_key sc.uid;
          }))

  set_storage_class_annotation-Ensures :
      (claim : Pvc) (namespace : String)
      → Ensures IsRead (IsAnnotated claim) (set_storage_class_annotation env claim namespace)
  unfolding set_storage_class_annotation
  set_storage_class_annotation-Ensures claim namespace =
      Ensures-bind {R = IsClass env (pvc_storage_class_name claim)}
        (Ensures-handle (storage_class_for_pvc-Ensures env claim) (λ sc k. Ensures-pure _ k)
          (λ e. Ensures-throw _))
        (λ sc k.
          Ensures-pure _
            (go sc k (Bool-cases (is_provisioned_storage_class sc (driver_name ∷ [])))))
    where
      go :
          (sc : StorageClass)
          → IsClass env (pvc_storage_class_name claim) sc
          → (is_provisioned_storage_class sc (driver_name ∷ []) ≡ true)
            ⊎ (is_provisioned_storage_class sc (driver_name ∷ []) ≡ false)
          → IsAnnotated claim (
              if is_provisioned_storage_class sc (driver_name ∷ [])
              then record claim {
                annotations = annotated claim.annotations storage_class_uuid_annotation_key sc.uid;
              }
              else claim)
      go sc k (inl ours) = rw ours (inr (sc, k, ours, refl))
      go sc k (inr other) = rw other (inl refl)

module _ (prim : Primitives) (laws : AreBlockCiphers prim) (env : Env) (fills : FillsBuffers env)
    (decode : Request → Reply String Pvc) (marshal : Pvc → Reply String String)
    (req : Request) where
  -- What the two mutators make of a claim.
  abbrev pub IsMutated : (claim result : Pvc) → Type 0
  IsMutated claim result =
      (c : Pvc) × PointsHome prim laws env fills (new_key_setter default_labels) req.namespace claim
        c
      × IsAnnotated env c result

  -- Over primitives with the documented laws: the web hook of claims creates secrets in the
  -- namespace of the request only, each a key of 32 bytes for that namespace, or one that holds the
  -- keys of a volume under a key that is derived from the namespace's, and makes no other change. It
  -- refuses a request as bad only if it cannot be decoded; otherwise it refuses it with an internal
  -- error, or it answers with the patch to the claim of the request, where at most two annotations
  -- are set, and then the annotation with the identifier of the claim's class, if it is one of the
  -- driver. The two name a secret of that namespace, with the name that the claim asks for or a fresh
  -- one, that was found or created with the keys of a volume.
  pub handle_pvc-Ensures :
      Ensures
        (MutationCall prim laws env fills (new_key_setter default_labels) req.namespace)
        (Answers decode marshal IsMutated req)
        (handle_request decode marshal (pvc_mutators prim env) req)
  unfolding run_mutators
  handle_pvc-Ensures = handle_request-Ensures decode marshal _ _ (pvc_mutators prim env) req one
    where
      one :
          (claim : Pvc)
          → Ensures
              (MutationCall prim laws env fills (new_key_setter default_labels) req.namespace)
              (IsMutated claim)
              (run_mutators (pvc_mutators prim env) claim req.namespace)
      one claim =
          Ensures-bind
            (set_encryption_keys-Ensures prim laws env fills (new_key_setter default_labels)
              req.namespace claim)
            (λ c home.
              Ensures-bind
                (Ensures-weaken
                  (read-MutationCall prim laws env fills (new_key_setter default_labels)
                    req.namespace)
                  (λ _ k. k) (set_storage_class_annotation-Ensures env c req.namespace))
                (λ r k. Ensures-pure _ (c, home, k)))
