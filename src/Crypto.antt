-- ===== src/Crypto.antt =====
-- internal/pkg/crypto/crypto.go, over Go's packages crypto, hkdf and hex, which are a parameter.
pub mod RoundTrip
pub mod Codes
use api_manager.World.Calls
use api_manager.World.Env.{failed, done, Reply, Env}
use api_manager.World.Objects.{Bytes}
use api_manager.Base.{
  ◌&&◌, false, true, ◌++◌, ◌%◌, ltb, length, eqb, zero, not, if◌then◌else◌, Option, ◌∷◌, String,
  Bool, suc, [], ℕ,
}
use api_manager.World.Monad.{pure, ◌>>=◌, throw, M}
use api_manager.World.Errors.{message, err, ok, Result}

pub record Primitives : Type 0 where
  -- whether `aes.NewCipher` takes a key
  pub accepts_key : Bytes → Bool
  -- `CryptBlocks` in CBC mode: the key, the initialization vector and the text
  pub cbc_encrypt : (key iv text : Bytes) → Bytes
  pub cbc_decrypt : (key iv text : Bytes) → Bytes
  -- 32 bytes of `hkdf.New(sha256.New, secret, salt, nil)`, or an error of the reader
  pub hkdf : (secret salt : Bytes) → Reply String Bytes
  pub hmac_sha256 : (key text : Bytes) → Bytes
  pub hex_encode : Bytes → String
  pub hex_decode : String → Option Bytes

abbrev pub block_size : ℕ
block_size = 16

-- A failed system call or primitive.
abbrev pub system_result : Reply String Bytes → Result Bytes
system_result (done b) = ok b
system_result (failed reason) = err (message reason)

abbrev pub bytes_take : ℕ → Bytes → Bytes
bytes_take zero b = []
bytes_take (suc n) [] = []
bytes_take (suc n) (x ∷ b) = x ∷ bytes_take n b

abbrev pub bytes_drop : ℕ → Bytes → Bytes
bytes_drop zero b = b
bytes_drop (suc n) [] = []
bytes_drop (suc n) (x ∷ b) = bytes_drop n b

abbrev pub bytes_equal : Bytes → Bytes → Bool
bytes_equal [] [] = true
bytes_equal [] (y ∷ b) = false
bytes_equal (x ∷ a) [] = false
bytes_equal (x ∷ a) (y ∷ b) = eqb x y && bytes_equal a b

unfoldable pub generate_random_bytes : Env → ℕ → M Bytes
generate_random_bytes env n h = (system_result (env.random h n), Calls.random_bytes n ∷ h)

unfoldable pub generate_vmk : Env → M Bytes
generate_vmk env = generate_random_bytes env 64

unfoldable pub generate_iv : Env → M Bytes
generate_iv env = generate_random_bytes env 32

unfoldable pub generate_user_key : Env → M Bytes
generate_user_key env = generate_random_bytes env 32

module _ (prim : Primitives) where
  unfoldable pub create_ik : (user_key iv : Bytes) → Result Bytes
  create_ik user_key iv = system_result (prim.hkdf user_key iv)

  -- The result is the random initialization vector, and behind it the encrypted blocks.
  unfoldable pub encrypt : Env → (plaintext key : Bytes) → M Bytes
  encrypt env plaintext key =
      if not (eqb (length plaintext % block_size) 0)
      then throw (message "plaintext is not a multiple of the block size")
      else if not (prim.accepts_key key)
      then throw (message "invalid key size")
      else (generate_random_bytes env block_size >>= λ iv.
          pure (iv ++ prim.cbc_encrypt key iv plaintext))

  unfoldable pub decrypt : (ciphertext key : Bytes) → Result Bytes
  decrypt ciphertext key =
      let iv = bytes_take block_size ciphertext in
      let text = bytes_drop block_size ciphertext in
      if not (prim.accepts_key key)
      then err (message "invalid key size")
      else if ltb (length ciphertext) block_size
      then err (message "ciphertext too short")
      else if not (eqb (length text % block_size) 0)
      then err (message "ciphertext is not a multiple of the block size")
      else ok (prim.cbc_decrypt key iv text)

  -- Writing to a hash returns no error.
  unfoldable pub create_hmac : (text key : Bytes) → Bytes
  create_hmac text key = prim.hmac_sha256 key text

  -- `hmac.Equal` tells whether the two codes are the same bytes.
  unfoldable pub check_hmac : (text text_mac key : Bytes) → Bool
  check_hmac text text_mac key = bytes_equal text_mac (create_hmac text key)
