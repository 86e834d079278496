-- ===== src/Crypto/RoundTrip.antt =====
-- Encryption and decryption of internal/pkg/crypto/crypto.go are inverse.
use api_manager.Crypto.{
  ok, done, length, Env, ◌>>=◌, ℕ, Bytes, Primitives, block_size, bytes_take, bytes_drop,
  generate_random_bytes, encrypt, decrypt,
}
use api_manager.World.Calls
use api_manager.World.Monad.{◌>>=◌}
use api_manager.Base.{refl, [], zero, ap, suc, length-append, arith, true, ◌∷◌, ◌++◌, ◌%◌, ◌≡◌}
use api_manager.World.Env.{History}

-- What is documented of the block mode, for a key that is accepted, an initialization vector of one
-- block and a text of whole blocks: decryption undoes encryption, and the encrypted text has the
-- length of the text. And of the random generator: as many bytes are read as were asked for.
pub record AreBlockCiphers (prim : Primitives) : Type 0 where
  pub inverse :
      (key iv text : Bytes)
      → prim.accepts_key key ≡ true
      → length iv ≡ block_size
      → length text % block_size ≡ 0
      → prim.cbc_decrypt key iv (prim.cbc_encrypt key iv text) ≡ text
  pub keeps_length :
      (key iv text : Bytes)
      → prim.accepts_key key ≡ true
      → length iv ≡ block_size
      → length text % block_size ≡ 0
      → length (prim.cbc_encrypt key iv text) ≡ length text

abbrev pub FillsBuffers : Env → Type 0
FillsBuffers env = (h : History) (n : ℕ) (b : Bytes) → env.random h n ≡ done b → length b ≡ n

take-append : (n : ℕ) (a b : Bytes) → length a ≡ n → bytes_take n (a ++ b) ≡ a
take-append zero [] b e = refl
take-append zero (x ∷ a) b e = absurd (omega arith)
take-append (suc n) [] b e = absurd (omega arith)
take-append (suc n) (x ∷ a) b e = ap (λ r. x ∷ r) (take-append n a b (omega arith))

drop-append : (n : ℕ) (a b : Bytes) → length a ≡ n → bytes_drop n (a ++ b) ≡ b
drop-append zero [] b e = refl
drop-append zero (x ∷ a) b e = absurd (omega arith)
drop-append (suc n) [] b e = absurd (omega arith)
drop-append (suc n) (x ∷ a) b e = drop-append n a b (omega arith)

module _ (prim : Primitives) (laws : AreBlockCiphers prim) where
  pub decrypt_appended :
      (iv plaintext key : Bytes)
      → length iv ≡ block_size
      → length plaintext % block_size ≡ 0
      → prim.accepts_key key ≡ true
      → decrypt prim (iv ++ prim.cbc_encrypt key iv plaintext) key ≡ ok plaintext
  unfolding decrypt
  decrypt_appended iv plaintext key full whole good =
      rw
        (
          take-append block_size iv (prim.cbc_encrypt key iv plaintext) full,
          drop-append block_size iv (prim.cbc_encrypt key iv plaintext) full,
          length-append iv (prim.cbc_encrypt key iv plaintext),
          laws.keeps_length key iv plaintext good full whole,
          laws.inverse key iv plaintext good full whole,
        )
        (ground arith)

  -- Over primitives with the documented laws, and a random generator that fills its buffers, a text
  -- of whole blocks is encrypted under an accepted key whenever the random generator answers, and
  -- decrypting the result with the key gives the text back.
  pub encrypt-decrypt :
      (env : Env)
      → FillsBuffers env
      → (plaintext key iv : Bytes) (h : History) → length plaintext % block_size ≡ 0
      → prim.accepts_key key ≡ true
      → env.random h block_size ≡ done iv
      → (ciphertext : Bytes) × (encrypt prim env plaintext key h
          ≡ (ok ciphertext, Calls.random_bytes block_size ∷ h))
        × (decrypt prim ciphertext key ≡ ok plaintext)
  unfolding encrypt generate_random_bytes ◌>>=◌
  encrypt-decrypt env fills plaintext key iv h whole good drawn = (
    iv ++ prim.cbc_encrypt key iv plaintext,
    rw (whole, good, drawn) refl,
    decrypt_appended iv plaintext key (fills h block_size iv drawn) whole good,
  )
