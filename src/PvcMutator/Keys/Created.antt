-- ===== src/PvcMutator/Keys/Created.antt =====
-- What controllers/pvc-mutator/encryption/keys/manager.go creates for the first volume of a
-- namespace.
use api_manager.World.Calls
use api_manager.World.Calls.{Kind, kube_get}
use api_manager.Crypto.{
  system_result, Primitives, generate_random_bytes, generate_iv, generate_vmk, generate_user_key,
  create_ik, encrypt, create_hmac,
}
use api_manager.PvcMutator.Keys.{
  decoded, lookup, ok, Secret, StringMap, ObjectKey, Bytes, Env, ensure_keys, ensure_namespace_key,
  create_namespace_key, create_volume_key, key_from_secret, secret, volume_secret_contents,
}
use api_manager.Base.{
  refl, ◌%◌, length, eqb, true, ap, some, false, [], ◌∷◌, is_empty, String-discrete, ◌≡◌, ◌++◌, ℕ,
}
use api_manager.World.Env.{failed, done, History}
use api_manager.World.Run.{
  Runs-lift_ok, Runs-lift, Runs-ask_failed, Runs-ask, Runs-pure, Runs-handle_failed, Runs-bind,
  runs, Runs,
}
use api_manager.Base.Dict.{lookup}
use api_manager.World.Errors.{not_found}

-- The bytes that the random generator gives are `random`, which may differ from call to call.
module _ (prim : Primitives) (env : Env) (random : History → ℕ → Bytes) (ik : Bytes)
    (ns_ref vol_ref : ObjectKey) (ns_labels vol_labels : StringMap) (h : History) where
  abbrev asked : History
  asked = kube_get Kind.secret ns_ref ∷ (kube_get Kind.secret vol_ref ∷ h)

  -- The user key of the namespace.
  abbrev pub key : Bytes
  key = random asked 32

  abbrev pub ns_secret : Secret
  ns_secret = secret ns_ref (("key", key) ∷ []) ns_labels

  abbrev wrote_key : History
  wrote_key = Calls.create_secret ns_secret ∷ (Calls.random_bytes 32 ∷ asked)

  abbrev drew_iv : History
  drew_iv = Calls.random_bytes 32 ∷ wrote_key

  abbrev drew_vmk : History
  drew_vmk = Calls.random_bytes 64 ∷ drew_iv

  -- The initialization vector of the volume, and its master key.
  abbrev pub iv : Bytes
  iv = random wrote_key 32

  abbrev pub vmk : Bytes
  vmk = random drew_iv 64

  -- The volume's user key: the text of its master key, encrypted with a vector of its own.
  abbrev pub user_key : Bytes
  user_key = random drew_vmk 16 ++ prim.cbc_encrypt ik (random drew_vmk 16) vmk

  abbrev pub vol_secret : Secret
  vol_secret =
      secret vol_ref (volume_secret_contents vmk iv user_key (prim.hmac_sha256 iv vmk)) vol_labels

  -- The primitives and the random generator work, and a secret is returned as it is created.
  pub record Works : Type 0 where
    pub fills : (h : History) (n : ℕ) → env.random h n ≡ done (random h n)
    pub created : (h : History) (s : Secret) → env.secret_created h s ≡ done s
    pub nonempty : is_empty key ≡ false
    pub decodes : prim.hex_decode (prim.hex_encode key) ≡ some key
    pub derives : prim.hkdf key iv ≡ done ik
    pub accepts : prim.accepts_key ik ≡ true
    pub blocks : eqb (length vmk % 16) 0 ≡ true

  module _ (works : Works) where
    Runs-random :
        (n : ℕ) (k : History)
        → Runs (generate_random_bytes env n) k (ok (random k n)) (Calls.random_bytes n ∷ k)
    unfolding generate_random_bytes
    Runs-random n k = runs (ap (λ r. (system_result r, Calls.random_bytes n ∷ k)) (works.fills k n))

    Runs-encrypt :
        Runs (encrypt prim env vmk ik) drew_vmk (ok user_key) (Calls.random_bytes 16 ∷ drew_vmk)
    unfolding encrypt
    Runs-encrypt =
        rw (works.blocks, works.accepts) (Runs-bind _ (Runs-random 16 drew_vmk) (Runs-pure _ _))

    ns_key : key_from_secret prim ns_secret ≡ ok (prim.hex_encode key)
    unfolding key_from_secret lookup String-discrete
    ns_key = rw works.nonempty refl

    Runs-namespace :
        Runs
          (create_namespace_key prim env ns_ref ns_labels)
          asked
          (ok (prim.hex_encode key))
          wrote_key
    unfolding create_namespace_key generate_user_key
    Runs-namespace =
        Runs-bind _ (Runs-random 32 asked) (
          Runs-bind _ (Runs-ask _ ns_secret (works.created _ ns_secret))
            (rw ns_key (Runs-lift _ _)))

    key_bytes : decoded prim (prim.hex_encode key) ≡ ok key
    key_bytes = rw (works.decodes, decoded) refl

    Runs-volume :
        Runs
          (create_volume_key prim env vol_ref (prim.hex_encode key) vol_labels)
          wrote_key
          (ok tt)
          (Calls.create_secret vol_secret ∷ (Calls.random_bytes 16 ∷ drew_vmk))
    unfolding create_volume_key generate_iv generate_vmk create_ik create_hmac
    Runs-volume = Runs-bind _ (Runs-random 32 wrote_key) (
        Runs-bind _ (Runs-random 64 drew_iv) (
          Runs-bind _ (Runs-lift_ok _ _ key_bytes) (
            Runs-bind _ (Runs-lift_ok _ _ (ap system_result works.derives)) (
              Runs-bind _ Runs-encrypt (
                Runs-bind _ (Runs-ask _ vol_secret (works.created _ vol_secret))
                  (Runs-pure tt _))))))

    -- If neither of the two secrets exists, the primitives work for these keys, the random generator
    -- answers, with bytes that may differ from call to call, and created secrets come back as they
    -- are, then the keys of the namespace and of the volume are created: the random user key of the
    -- namespace first, and then the secret of the volume, with its random master key and
    -- initialization vector, the master key encrypted under the key that is derived from the user key
    -- and that vector, and its hash.
    pub ensure_keys_creates :
        env.secret_at h vol_ref ≡ failed "NotFound"
        → env.secret_at (kube_get Kind.secret vol_ref ∷ h) ns_ref ≡ failed "NotFound"
        → Runs (ensure_keys prim env ns_ref vol_ref ns_labels vol_labels) h (ok tt) (
            Calls.create_secret vol_secret
            ∷ (Calls.random_bytes 16
                ∷ (Calls.random_bytes 64
                    ∷ (Calls.random_bytes 32
                        ∷ (Calls.create_secret ns_secret
                            ∷ (Calls.random_bytes 32
                                ∷ (kube_get Kind.secret ns_ref
                                    ∷ (kube_get Kind.secret vol_ref ∷ h))))))))
    unfolding ensure_keys ensure_namespace_key
    ensure_keys_creates s0 s1 = Runs-handle_failed _ _ (Runs-ask_failed _ "NotFound" s0) (
        rw not_found (
          Runs-bind _
            (Runs-handle_failed _ _ (Runs-ask_failed _ "NotFound" s1) (rw not_found Runs-namespace))
            Runs-volume))
