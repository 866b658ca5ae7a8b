-- ===== src/Tests/Auth.antt =====
-- Authentication on a registry with one scheme of API keys and one of tokens.
use quackapi.Base.{true, false, [], ◌∷◌, some, ok, err, ◌≡◌, ◌↔◌, refl, if◌then◌else◌}
use quackapi.Text.{codes, text_eq}
use quackapi.Strings.Ascii.{ascii, to_lower}
use quackapi.Crypto.{constant_time_equals}
use quackapi.Crypto.Plain.{plain_mbedtls}
use quackapi.Types.{Auth, ApiKeyEntry, api_key, jwt_hs256}
use quackapi.Registry.Auths.{AuthState, add_auth, drop_auth, add_api_key}
use quackapi.Registry.Auths.Keys.{IsValid}
use quackapi.Registry.Auths.Laws.{add_auth-IsValid}
use quackapi.Auth.{split_at, skip_space, pad, base64_url_decode}
use quackapi.Auth.Claims.{Json, Claims, read_rows, parse_object_claims}
use quackapi.Auth.Jwt.{stoll, read_digits, split_token, verify_jwt_hs256, invalid_credentials}
use quackapi.Auth.Verify.{accepted, verify_auth_scheme}
use quackapi.Auth.Tokens.{verify_jwt_hs256_iff, Genuine}
use quackapi.Auth.Schemes.{verify-add_api_key, verify-recreated}

abbrev keys_scheme : Auth
keys_scheme = record {
  name = codes "Keys";
  kind = api_key;
  header = codes "X-Api-Key";
  secret = [];
}

abbrev token_scheme : Auth
token_scheme = record {
  name = codes "tokens";
  kind = jwt_hs256;
  header = [];
  secret = codes "good";
}

abbrev ann : ApiKeyEntry
ann = record { auth_name = codes "Keys"; key_hash = codes "k1"; subject = codes "ann" }

abbrev pub registered : AuthState
registered = record { auths = keys_scheme ∷ token_scheme ∷ []; api_keys = ann ∷ [] }

pub registered-IsValid : IsValid ascii registered
unfolding text_eq to_lower
registered-IsValid = record { schemes = (refl, (refl, tt)); keys = refl }

-- CREATE OR REPLACE AUTH keys TYPE JWT
abbrev replacing : Auth
replacing = record { name = codes "keys"; kind = jwt_hs256; header = []; secret = codes "s" }

add_auth-IsValid_example : IsValid ascii (add_auth ascii replacing true registered).1
add_auth-IsValid_example = add_auth-IsValid ascii replacing true registered registered-IsValid

-- DuckDB's answers on the two parts of one token: `head` and `body`.
abbrev pub sample_json : Json
sample_json = record {
  valid = λ text. true;
  type = λ text. some (codes "OBJECT");
  fields = λ text.
      if text_eq text (codes "head")
      then some ((some (codes "alg"), some (codes "HS256")) ∷ [])
      else some
          ((some (codes "sub"), some (codes "ann")) ∷ (some (codes "exp"), some (codes "20")) ∷ []);
}

abbrev sample_claims : Claims
sample_claims = record {
  values = (codes "sub", codes "ann") ∷ (codes "exp", codes "20") ∷ [];
  nulls = [];
}

sample_accepted :
    verify_jwt_hs256 plain_mbedtls sample_json (codes "head.body.good") (codes "good") 19 19
    ≡ ok sample_claims
unfolding verify_jwt_hs256 split_token split_at base64_url_decode pad constant_time_equals
    parse_object_claims read_rows stoll read_digits skip_space text_eq
sample_accepted = refl

-- The same token a second later.
sample_expired :
    verify_jwt_hs256 plain_mbedtls sample_json (codes "head.body.good") (codes "good") 20 19
    ≡ err invalid_credentials
unfolding verify_jwt_hs256 split_token split_at base64_url_decode pad constant_time_equals
    parse_object_claims read_rows stoll read_digits skip_space text_eq
sample_expired = refl

verify_jwt_hs256_iff_example :
    (verify_jwt_hs256 plain_mbedtls sample_json (codes "head.body.good") (codes "good") 19 19
      ≡ ok sample_claims)
    ↔ Genuine plain_mbedtls sample_json (codes "head.body.good") (codes "good") 19 19 sample_claims
verify_jwt_hs256_iff_example =
    verify_jwt_hs256_iff plain_mbedtls sample_json (codes "head.body.good") (codes "good") 19 19
      sample_claims

bob_added :
    (add_api_key ascii plain_mbedtls (codes "KEYS") (codes "k2") (codes "bob") registered).0
    ≡ ok (codes "bob")
unfolding add_api_key text_eq to_lower
bob_added = refl

verify-add_api_key_example :
    verify_auth_scheme ascii plain_mbedtls sample_json
      (codes "KEYS")
      (codes "k2")
      19
      19
      (add_api_key ascii plain_mbedtls (codes "KEYS") (codes "k2") (codes "bob") registered).1
    ≡ accepted ((codes "sub", codes "bob") ∷ [])
verify-add_api_key_example =
    verify-add_api_key ascii plain_mbedtls sample_json (codes "KEYS") (codes "k2") (codes "bob") 19
      19 registered bob_added

verify-recreated_example :
    (verify_auth_scheme ascii plain_mbedtls sample_json
      (codes "Keys")
      (codes "k1")
      19
      19
      (add_auth ascii keys_scheme false (drop_auth ascii (codes "KEYS") registered).1).1).allowed
    ≡ false
unfolding text_eq to_lower
verify-recreated_example =
    verify-recreated ascii plain_mbedtls sample_json (codes "KEYS") (codes "k1") keys_scheme 19 19
      registered registered-IsValid refl refl
