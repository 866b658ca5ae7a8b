-- ===== src/Crypto.antt =====
-- The primitives of mbedtls that src/quackapi_auth.cpp wraps, and QuackapiConstantTimeEquals over them.
pub mod Plain
use quackapi.Base.{
  ℕ, Bool, true, false, not, Option, ◌≡◌, ◌↔◌, ◌==◌, if◌then◌else◌, length, arith, refl, List, [],
  ◌∷◌,
}
use quackapi.Text.{Text, empty}

pub record Mbedtls : Type 0 where
  -- the digests, as QuackapiSha256 and QuackapiHmacSha256 (key, message) return them
  pub sha256 : Text → Text
  pub hmac_sha256 : Text → Text → Text
  -- mbedtls_base64_decode: none where it returns an error
  pub base64_decode : Text → Option Text
  -- mbedtls_ct_memcmp over buffers of one length: zero where they are equal
  pub ct_memcmp : Text → Text → ℕ
  pub ct_memcmp_iff : (a b : Text) → length a ≡ length b → (ct_memcmp a b ≡ 0) ↔ (a ≡ b)

module _ (mbedtls : Mbedtls) where
  unfoldable pub constant_time_equals : Text → Text → Bool
  constant_time_equals a b =
      if not (length a == length b)
      then false
      else if empty a
      then true
      else mbedtls.ct_memcmp a b == 0

  -- The comparison is equality of the two strings.
  pub constant_time_equals_iff : (a b : Text) → (constant_time_equals a b ≡ true) ↔ (a ≡ b)
  unfolding constant_time_equals
  constant_time_equals_iff [] [] = ground arith
  constant_time_equals_iff [] (y ∷ b) = ground arith
  constant_time_equals_iff (x ∷ a) b = ground (arith, mbedtls.ct_memcmp_iff (x ∷ a) b)

  pub constant_time_equals_comm : (a b : Text) → constant_time_equals a b ≡ constant_time_equals b a
  constant_time_equals_comm a b =
      ground (arith, constant_time_equals_iff a b, constant_time_equals_iff b a)
