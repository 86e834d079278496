-- ===== src/Crypto/Codes.antt =====
-- The codes that CheckHMAC of internal/pkg/crypto/crypto.go accepts.
use api_manager.Crypto.{Bytes, Primitives, bytes_equal, create_hmac, check_hmac}
use api_manager.Base.{inr, inl, Bool-cases, ℕ, ◌↔◌, ◌≡◌, refl, true, [], ◌∷◌, eqb, arith}

pub bytes_equal_refl : (a : Bytes) → bytes_equal a a ≡ true
bytes_equal_refl [] = refl
bytes_equal_refl (x ∷ a) = ground (arith, bytes_equal_refl a)

cons_eq : {x y : ℕ} {a b : Bytes} → x ≡ y → a ≡ b → ◌≡◌ {A = Bytes} (x ∷ a) (y ∷ b)
cons_eq e f = cc

pub bytes_equal_sound : (a b : Bytes) → bytes_equal a b ≡ true → a ≡ b
bytes_equal_sound [] [] e = refl
bytes_equal_sound [] (y ∷ b) e = absurd (ground arith)
bytes_equal_sound (x ∷ a) [] e = absurd (ground arith)
bytes_equal_sound (x ∷ a) (y ∷ b) e = elim (Bool-cases (eqb x y)) [
  | inl same ↦ cons_eq (ground arith) (bytes_equal_sound a b (ground arith))
  | inr differ ↦ absurd (ground arith)
]

module _ (prim : Primitives) where
  pub check_hmac_iff :
      (text mac key : Bytes)
      → (check_hmac prim text mac key ≡ true) ↔ (mac ≡ prim.hmac_sha256 key text)
  unfolding check_hmac create_hmac
  check_hmac_iff text mac key = (
    bytes_equal_sound mac (prim.hmac_sha256 key text),
    λ e. rw e (bytes_equal_refl (prim.hmac_sha256 key text)),
  )
