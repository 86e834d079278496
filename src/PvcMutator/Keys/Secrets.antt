-- ===== src/PvcMutator/Keys/Secrets.antt =====
-- The secrets that controllers/pvc-mutator/encryption/keys/manager.go creates.
use api_manager.World.Client
use api_manager.World.Calls
use api_manager.Crypto.RoundTrip.{decrypt_appended, AreBlockCiphers, FillsBuffers}
use api_manager.Crypto.{
  check_hmac, block_size, create_hmac, generate_vmk, generate_iv, create_ik, system_result,
  generate_user_key, encrypt, generate_random_bytes, decrypt, Primitives,
}
use api_manager.World.Env.{failed, Reply, History, done, Env}
use api_manager.World.Objects.{Secret, ObjectKey, Bytes}
use api_manager.Go.Maps.{StringMap}
use api_manager.Base.{
  true, arith, inr, ◌%◌, eqb, not, ◌⊎◌, String, refl, inl, [], ◌∷◌, length, ℕ, some, ◌≡◌,
}
use api_manager.PvcMutator.Keys.{
  pure, ◌>>=◌, key_from_secret, decoded, secret, create_volume_key, ensure_keys, is_not_found, err,
  volume_secret_contents, ok, ensure_namespace_key, create_namespace_key,
}
use api_manager.World.Errors.{panic, Result}
use api_manager.World.Calls.{IsRead, Call}
use api_manager.World.Trace.{
  OkHas-self, Ensures-pure, Ensures-throw, Extends-cons, Ensures-if, Ensures-lift, Ensures-ask_kube,
  Ensures-handle, Ensures-bind, Ensures, OkHas,
}
use api_manager.Crypto.Codes.{check_hmac_iff}

-- The contents of the secret of a volume: an initialization vector of 32 bytes, the master key of
-- the volume, the master key encrypted under the intermediate key that is derived from the key of
-- the namespace, and the code that authenticates the master key.
pub record HoldsKeys (prim : Primitives) (ns_key : Bytes) (s : Secret) : Type 0 where
  pub vmk : Bytes
  pub iv : Bytes
  pub vuk : Bytes
  pub ik : Bytes
  pub contents : s.contents ≡ some (volume_secret_contents vmk iv vuk (prim.hmac_sha256 iv vmk))
  pub derived : prim.hkdf ns_key iv ≡ done ik
  pub recovers : decrypt prim vuk ik ≡ ok vmk
  pub authentic : check_hmac prim vmk (prim.hmac_sha256 iv vmk) iv ≡ true

-- The text is the key in the namespace's secret: as it was found under its reference, or as it was
-- answered when it was created there.
pub record IsKeyText (prim : Primitives) (env : Env) (ref : ObjectKey) (labels : StringMap)
    (text : String) : Type 0 where
  pub at : History
  pub stored : Secret
  pub answered :
      (env.secret_at at ref ≡ done stored)
      ⊎ ((key : Bytes) × (length key ≡ 32)
          × (env.secret_created at (secret ref (("key", key) ∷ []) labels) ≡ done stored))
  pub read : key_from_secret prim stored ≡ ok text

-- The secret holds keys of a volume, and the key of the namespace protects them.
abbrev pub IsVolumeSecret :
    (prim : Primitives) (env : Env) (ns_ref : ObjectKey) (ns_labels : StringMap) → Secret → Type 0
IsVolumeSecret prim env ns_ref ns_labels s =
    (text : String) × (ns_key : Bytes) × IsKeyText prim env ns_ref ns_labels text
    × (decoded prim text ≡ ok ns_key)
    × HoldsKeys prim ns_key s

-- There was a secret under the reference, or one that holds keys was created there.
abbrev pub IsStored :
    (prim : Primitives) (env : Env) (ns_ref : ObjectKey) (ns_labels : StringMap) (ref : ObjectKey)
    → Type 0
IsStored prim env ns_ref ns_labels ref =
    ((h : History) × (s : Secret) × (env.secret_at h ref ≡ done s))
    ⊎ ((h : History) × (s : Secret) × (t : Secret) × (t.key ≡ ref)
        × IsVolumeSecret prim env ns_ref ns_labels t
        × (env.secret_created h t ≡ done s))

module _ (prim : Primitives) (laws : AreBlockCiphers prim) (env : Env) (fills : FillsBuffers env)
    (ns_key_ref vol_key_ref : ObjectKey) (ns_labels vol_labels : StringMap) where
  -- The calls of the key manager.
  abbrev pub KeyCall : Call → Type 0
  KeyCall (Calls.create_secret s) =
      ((s.key ≡ ns_key_ref)
        × (s.labels ≡ ns_labels)
        × ((key : Bytes) × (length key ≡ 32) × (s.contents ≡ some (("key", key) ∷ []))))
      ⊎ ((s.key ≡ vol_key_ref)
          × (s.labels ≡ vol_labels)
          × IsVolumeSecret prim env ns_key_ref ns_labels s)
  KeyCall (Calls.random_bytes n) = Unit
  KeyCall c = IsRead c

  Ensures-generate : (n : ℕ) → Ensures KeyCall (λ b. length b ≡ n) (generate_random_bytes env n)
  unfolding generate_random_bytes
  Ensures-generate n = record {
    calls = λ h. Extends-cons (Calls.random_bytes n) h tt;
    value = λ h. go h (env.random h n) refl;
  }
    where
      go :
          (h : History) (r : Reply String Bytes)
          → env.random h n ≡ r
          → OkHas (λ b. length b ≡ n) (system_result r)
      go h (done b) e = fills h n b e
      go h (failed s) e = tt

  read_text :
      (h : History) (stored : Secret)
      → (env.secret_at h ns_key_ref ≡ done stored)
        ⊎ ((key : Bytes) × (length key ≡ 32)
            × (env.secret_created h (secret ns_key_ref (("key", key) ∷ []) ns_labels)
                ≡ done stored))
      → OkHas (IsKeyText prim env ns_key_ref ns_labels) (key_from_secret prim stored)
  read_text h stored answered = go (key_from_secret prim stored) refl
    where
      go :
          (r : Result String)
          → key_from_secret prim stored ≡ r
          → OkHas (IsKeyText prim env ns_key_ref ns_labels) r
      go (ok text) e = record { at = h; stored = stored; answered = answered; read = e }
      go (err x) e = tt
      go (panic x) e = tt

  create_namespace_key-Ensures :
      Ensures KeyCall
        (IsKeyText prim env ns_key_ref ns_labels)
        (create_namespace_key prim env ns_key_ref ns_labels)
  unfolding create_namespace_key generate_user_key
  create_namespace_key-Ensures = Ensures-bind (Ensures-generate 32) (λ key full.
      Ensures-bind
        {R = λ stored.
          (h : History) × (env.secret_created h (secret ns_key_ref (("key", key) ∷ []) ns_labels)
            ≡ done stored)}
        (Ensures-ask_kube _ _ (inl (refl, refl, (key, full, refl))) (λ h a e. (h, e)))
        (λ created (h, e). Ensures-lift _ (read_text h created (inr (key, full, e)))))

  ensure_namespace_key-Ensures :
      Ensures KeyCall
        (IsKeyText prim env ns_key_ref ns_labels)
        (ensure_namespace_key prim env ns_key_ref ns_labels)
  unfolding ensure_namespace_key
  ensure_namespace_key-Ensures =
      Ensures-handle {R = λ s. (h : History) × (env.secret_at h ns_key_ref ≡ done s)}
        (Ensures-ask_kube _ _ refl (λ h s e. (h, e)))
        (λ existing (h, e). Ensures-lift _ (read_text h existing (inl e)))
        (λ e.
          Ensures-if (is_not_found e) _ _ (λ _. create_namespace_key-Ensures)
            (λ _. Ensures-throw e))

  -- What is encrypted can be decrypted.
  Recovers : (vmk ik vuk : Bytes) → Type 0
  Recovers vmk ik vuk = decrypt prim vuk ik ≡ ok vmk

  encrypt-Recovers : (vmk ik : Bytes) → Ensures KeyCall (Recovers vmk ik) (encrypt prim env vmk ik)
  unfolding encrypt Recovers
  encrypt-Recovers vmk ik =
      Ensures-if (not (eqb (length vmk % block_size) 0)) _ _ (λ _. Ensures-throw _)
        (λ whole.
          Ensures-if (not (prim.accepts_key ik)) _ _ (λ _. Ensures-throw _)
            (λ good. Ensures-bind (Ensures-generate block_size) (λ iv full.
              Ensures-pure _
                (decrypt_appended prim laws iv vmk ik full (ground arith) (ground arith)))))

  derives :
      (user_key iv : Bytes)
      → OkHas (λ ik. prim.hkdf user_key iv ≡ done ik) (create_ik prim user_key iv)
  unfolding create_ik
  derives user_key iv = go (prim.hkdf user_key iv) refl
    where
      go :
          (r : Reply String Bytes)
          → prim.hkdf user_key iv ≡ r
          → OkHas (λ ik. prim.hkdf user_key iv ≡ done ik) (system_result r)
      go (done ik) e = e
      go (failed reason) e = tt

  create_volume_key-Ensures :
      (ns_key : String)
      → IsKeyText prim env ns_key_ref ns_labels ns_key
      → Ensures KeyCall
          (λ _. IsStored prim env ns_key_ref ns_labels vol_key_ref)
          (create_volume_key prim env vol_key_ref ns_key vol_labels)
  unfolding create_volume_key generate_iv generate_vmk create_hmac Recovers
  create_volume_key-Ensures ns_key known = Ensures-bind (Ensures-generate 32) (λ iv _.
      Ensures-bind (Ensures-generate 64) (λ vmk _.
        Ensures-bind (Ensures-lift _ (OkHas-self (decoded prim ns_key))) (λ ns_key_bytes bytes.
          Ensures-bind (Ensures-lift _ (derives ns_key_bytes iv)) (λ ik derived.
            Ensures-bind (encrypt-Recovers vmk ik) (λ vuk recovers.
              created
                (secret vol_key_ref (volume_secret_contents vmk iv vuk (prim.hmac_sha256 iv vmk))
                  vol_labels)
                refl refl
                (
                  ns_key,
                  ns_key_bytes,
                  known,
                  bytes,
                  record {
                    vmk = vmk;
                    iv = iv;
                    vuk = vuk;
                    ik = ik;
                    contents = refl;
                    derived = derived;
                    recovers = recovers;
                    authentic = (check_hmac_iff prim vmk (prim.hmac_sha256 iv vmk) iv).1 refl;
                  },
                ))))))
    where
      created :
          (t : Secret)
          → t.key ≡ vol_key_ref
          → t.labels ≡ vol_labels
          → IsVolumeSecret prim env ns_key_ref ns_labels t
          → Ensures KeyCall
              (λ _. IsStored prim env ns_key_ref ns_labels vol_key_ref)
              (Client.create_secret env t >>= λ u. pure tt)
      created t k l v =
          Ensures-bind {R = λ s. (h : History) × (env.secret_created h t ≡ done s)}
            (Ensures-ask_kube _ _ (inr (k, l, v)) (λ h s e. (h, e)))
            (λ s (h, e). Ensures-pure _ (inr (h, s, t, k, v, e)))

  -- Over primitives with the documented laws, the key manager writes nothing but two kinds of
  -- secrets, under the two references and with the labels that it was given: a namespace key of 32
  -- bytes, and a volume secret whose intermediate key is derived from the key in the namespace's
  -- secret, as that was found or created; from the encrypted key the master key of the volume can be
  -- decrypted again with the intermediate key, and the code is accepted for that master key. If it
  -- succeeds, then a secret was found under the volume's reference or such a one was created there.
  pub ensure_keys-Ensures :
      Ensures KeyCall
        (λ _. IsStored prim env ns_key_ref ns_labels vol_key_ref)
        (ensure_keys prim env ns_key_ref vol_key_ref ns_labels vol_labels)
  unfolding ensure_keys
  ensure_keys-Ensures =
      Ensures-handle {R = λ s. (h : History) × (env.secret_at h vol_key_ref ≡ done s)}
        (Ensures-ask_kube _ _ refl (λ h s e. (h, e)))
        (λ existing (h, e). Ensures-pure _ (inl (h, existing, e)))
        (λ e.
          Ensures-if (is_not_found e) _ _
            (λ _.
              Ensures-bind ensure_namespace_key-Ensures
                (λ ns_key known. create_volume_key-Ensures ns_key known))
            (λ _. Ensures-throw e))
