-- ===== src/PvcMutator/Keys.antt =====
-- controllers/pvc-mutator/encryption/keys/manager.go: the secrets with the keys of volumes.
pub mod Secrets
pub mod Created
use api_manager.World.Calls
use api_manager.World.Client
use api_manager.World.Objects.{Secret, ObjectKey, Bytes}
use api_manager.Crypto.{
  create_hmac, encrypt, create_ik, generate_vmk, generate_iv, generate_user_key, Primitives,
}
use api_manager.World.Env.{Env}
use api_manager.Base.{is_empty, if◌then◌else◌, none, some, [], ◌∷◌, String}
use api_manager.Base.Dict.{lookup, Dict}
use api_manager.Go.Maps.{StringMap}
use api_manager.World.Errors.{is_not_found, ok, message, no_key_in_secret, err, Result}
use api_manager.World.Monad.{throw, pure, lift, ◌>>=◌, handle, M}

abbrev pub secret : ObjectKey → Dict Bytes → StringMap → Secret
secret key contents labels = record { key = key; labels = labels; contents = some contents }

-- The key of a secret, in hexadecimal digits.
unfoldable pub key_from_secret : Primitives → Secret → Result String
key_from_secret prim s = elim s.contents [
  | none ↦ err no_key_in_secret
  | some contents ↦ elim (lookup "key" contents) [
    | none ↦ err no_key_in_secret
    | some key ↦ if is_empty key then err no_key_in_secret else ok (prim.hex_encode key)
  ]
]

abbrev pub decoded : Primitives → String → Result Bytes
decoded prim text = elim (prim.hex_decode text) [
  | none ↦ err (message "invalid hexadecimal digits")
  | some b ↦ ok b
]

abbrev pub volume_secret_contents : (vmk iv vuk hmac : Bytes) → Dict Bytes
volume_secret_contents vmk iv vuk hmac =
    ("key", vmk) ∷ ("iv", iv) ∷ ("vuk", vuk) ∷ ("hmac", hmac) ∷ []

module _ (prim : Primitives) (env : Env) where
  unfoldable pub create_namespace_key : ObjectKey → StringMap → M String
  create_namespace_key ns_key_ref labels = do
    key ← generate_user_key env
    created ← Client.create_secret env (secret ns_key_ref (("key", key) ∷ []) labels)
    lift (key_from_secret prim created)

  unfoldable pub ensure_namespace_key : ObjectKey → StringMap → M String
  ensure_namespace_key ns_key_ref labels =
      handle (Client.get_secret env ns_key_ref) (λ existing. lift (key_from_secret prim existing))
        (λ e. if is_not_found e then create_namespace_key ns_key_ref labels else throw e)

  unfoldable pub create_volume_key : ObjectKey → (ns_key : String) → StringMap → M Unit
  create_volume_key vol_key_ref ns_key labels = do
    iv ← generate_iv env
    vmk ← generate_vmk env
    ns_key_bytes ← lift (decoded prim ns_key)
    ik ← lift (create_ik prim ns_key_bytes iv)
    vuk ← encrypt prim env vmk ik
    let hmac = create_hmac prim vmk iv
    created ←
        Client.create_secret env
          (secret vol_key_ref (volume_secret_contents vmk iv vuk hmac) labels)
    pure tt

  unfoldable pub ensure_keys :
      (ns_key_ref vol_key_ref : ObjectKey) (ns_secret_labels vol_secret_labels : StringMap) → M Unit
  ensure_keys ns_key_ref vol_key_ref ns_secret_labels vol_secret_labels =
      handle (Client.get_secret env vol_key_ref) (λ existing. pure tt)
        (λ e.
          if is_not_found e
          then (ensure_namespace_key ns_key_ref ns_secret_labels >>= λ ns_key.
              create_volume_key vol_key_ref ns_key vol_secret_labels)
          else throw e)
