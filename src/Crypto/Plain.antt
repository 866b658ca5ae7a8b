-- ===== src/Crypto/Plain.antt =====
-- Functions for the primitives of mbedtls that meet their laws: the digest is the text itself, and the
-- code of a message is the key.
use quackapi.Base.{ℕ, some, ◌≡◌, ◌↔◌, length, if◌then◌else◌, arith}
use quackapi.Text.{Text, text_eq}
use quackapi.Text.Laws.{text_eq_iff}
use quackapi.Crypto.{Mbedtls}

abbrev pub plain_ct_memcmp : Text → Text → ℕ
plain_ct_memcmp a b = if text_eq a b then 0 else 1

pub plain_ct_memcmp_iff : (a b : Text) → length a ≡ length b → (plain_ct_memcmp a b ≡ 0) ↔ (a ≡ b)
plain_ct_memcmp_iff a b h = ground (arith, text_eq_iff a b)

abbrev pub plain_mbedtls : Mbedtls
plain_mbedtls = record {
  sha256 = λ message. message;
  hmac_sha256 = λ key message. key;
  base64_decode = λ message. some message;
  ct_memcmp = plain_ct_memcmp;
  ct_memcmp_iff = plain_ct_memcmp_iff;
}
