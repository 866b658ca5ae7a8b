-- ===== src/Auth/Jwt.antt =====
-- VerifyJwtHs256, and `std::stoll` for its numeric claims.
use quackapi.Base.{
  ℕ, ◌+◌, ◌-◌, ◌*◌, ltb, leb, Bool, true, false, not, ◌&&◌, ◌||◌, [], ◌∷◌, ◌++◌, Option, none, some,
  Result, ok, err, ◌>>=◌, ◌==◌, if◌then◌else◌, any,
}
use quackapi.Text.{Text, codes, text_eq, empty}
use quackapi.Crypto.{Mbedtls, constant_time_equals}
use quackapi.Auth.{split_at, skip_space, base64_url_decode}
use quackapi.Auth.Claims.{Json, Claims, parse_object_claims, claim_of}

-- A `long long`, as its magnitude from zero up or from -1 down.
pub data LongLong : Type 0 where
  pos negsuc : ℕ → LongLong

-- `x <= now` and `x > now`, for a time after the epoch
abbrev pub at_most : LongLong → ℕ → Bool
at_most (pos n) now = leb n now
at_most (negsuc n) now = true

abbrev pub is_c_space : ℕ → Bool
is_c_space c = c == 32 || (leb 9 c && leb c 13)

abbrev pub is_c_digit : ℕ → Bool
is_c_digit c = leb b'0' c && leb c b'9'

-- The digits at the front of a text, after the number `acc`, and what is left.
unfoldable pub read_digits : ℕ → Text → ℕ × Text
read_digits acc [] = (acc, [])
read_digits acc (c ∷ s) =
    let rest = read_digits (acc * 10 + (c - b'0')) s in if is_c_digit c then rest else (acc, c ∷ s)

abbrev pub starts_with_digit : Text → Bool
starts_with_digit [] = false
starts_with_digit (c ∷ _) = is_c_digit c

-- 2 ^ 63
abbrev pub llong_bound : ℕ
llong_bound = 9223372036854775808

abbrev pub positive : Text → Option (LongLong × Text)
positive s =
    let (n, rest) = read_digits 0 s in
    if not (starts_with_digit s) || leb llong_bound n then none else some (pos n, rest)

abbrev pub negative : Text → Option (LongLong × Text)
negative s =
    let (n, rest) = read_digits 0 s in
    if not (starts_with_digit s) || ltb llong_bound n
    then none
    else if n == 0
    then some (pos 0, rest)
    else some (negsuc (n - 1), rest)

abbrev pub signed : Text → Option (LongLong × Text)
signed [] = none
signed (c ∷ s) =
    if c == b'-' then negative s else if c == b'+' then positive s else positive (c ∷ s)

-- `std::stoll`: the number and the text after the characters consumed; none where it throws.
unfoldable pub stoll : Text → Option (LongLong × Text)
unfolding skip_space
stoll s = signed (skip_space is_c_space s)

-- A claim that is there is a whole number that is not refused.
abbrev pub time_ok : (LongLong → Bool) → Option Text → Bool
time_ok refused none = true
time_ok refused (some text) = elim (stoll text) [
  | none ↦ false
  | some (number, rest) ↦ empty rest && not (refused number)
]

-- Every failure has the same message.
pub data JwtError : Type 0 where
  invalid_credentials : JwtError

abbrev pub require : Bool → Result JwtError (Unit {0})
require b = if b then ok tt else err invalid_credentials

abbrev pub from_option : {A : Type 0} → Option A → Result JwtError A
from_option none = err invalid_credentials
from_option (some a) = ok a

pub record Token : Type 0 where
  pub header : Text
  pub payload : Text
  pub signature : Text

-- Two dots and no third one, and three parts that are not empty.
unfoldable pub split_token : Text → Result JwtError Token
unfolding split_at
split_token token = do
  (header, after_header) ← from_option (split_at b'.' token)
  (payload, signature) ← from_option (split_at b'.' after_header)
  _ ← require (not (any (λ c. c == b'.') signature))
  _ ← require (not (empty header) && not (empty payload) && not (empty signature))
  ok (record { header = header; payload = payload; signature = signature })

abbrev pub signing_input : Token → Text
signing_input t = t.header ++ b'.' ∷ t.payload

abbrev pub is_hs256 : Option Text → Bool
is_hs256 none = false
is_hs256 (some alg) = text_eq alg (codes "HS256")

-- `exp` must be in the future and `nbf` must not be; neither may be null.
abbrev pub times_ok : ℕ → ℕ → Claims → Bool
times_ok exp_now nbf_now claims =
    not (
      any (λ k. text_eq k (codes "exp")) claims.nulls
      || any (λ k. text_eq k (codes "nbf")) claims.nulls)
    && time_ok (λ t. at_most t exp_now) (claim_of (codes "exp") claims.values)
    && time_ok (λ t. not (at_most t nbf_now)) (claim_of (codes "nbf") claims.values)

module _ (mbedtls : Mbedtls) (json : Json) where
  -- The clock is read for `exp` and then again for `nbf`.
  unfoldable pub verify_jwt_hs256 : Text → Text → ℕ → ℕ → Result JwtError Claims
  verify_jwt_hs256 token secret exp_now nbf_now = do
    t ← split_token token
    actual_sig ← from_option (base64_url_decode mbedtls t.signature)
    _ ←
        require
          (constant_time_equals mbedtls (mbedtls.hmac_sha256 secret (signing_input t)) actual_sig)
    header_json ← from_option (base64_url_decode mbedtls t.header)
    header ← from_option (parse_object_claims json header_json)
    _ ← require (is_hs256 (claim_of (codes "alg") header.values))
    payload_json ← from_option (base64_url_decode mbedtls t.payload)
    claims ← from_option (parse_object_claims json payload_json)
    _ ← require (times_ok exp_now nbf_now claims)
    ok claims
