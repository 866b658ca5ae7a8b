-- ===== src/Auth/Tokens.antt =====
-- Which tokens VerifyJwtHs256 accepts.
use quackapi.Base.{
  ℕ, ◌<◌, [], some, ok, ◌≡◌, ◌↔◌, refl, sym, ap, ◌∙◌, subst, >>=-eq-ok, ok-injective,
}
use quackapi.Text.{Text, codes, text_eq}
use quackapi.Crypto.{Mbedtls, constant_time_equals, constant_time_equals_iff}
use quackapi.Auth.{base64_url_decode}
use quackapi.Auth.Claims.{Json, Claims, parse_object_claims, claim_of}
use quackapi.Auth.Jwt.{
  Token, require, from_option, split_token, signing_input, is_hs256, times_ok, stoll, pos,
  verify_jwt_hs256,
}
use quackapi.Auth.Objects.{IsObject, parse_object_claims_iff}
use quackapi.Auth.Expiry.{Timely, times_ok_iff, After-pos}
use quackapi.Auth.Parts.{
  Parts, from_option-ok, require-ok, is_hs256-some, split_token_sound, split_token_iff,
}

module _ (mbedtls : Mbedtls) (json : Json) where
  -- The part decodes to the text of a JSON object with the claims.
  abbrev pub ObjectPart : Text → Claims → Type 0
  ObjectPart part claims =
      (text : Text) × (base64_url_decode mbedtls part ≡ some text) × IsObject json text claims

  -- The token is signed with the secret by HS256, its parts are JSON objects, and the times admit it.
  pub record Genuine (token secret : Text) (exp_now nbf_now : ℕ) (claims : Claims) : Type 0 where
    pub t : Token
    pub header : Claims
    pub parts : Parts token t
    pub signed :
        base64_url_decode mbedtls t.signature ≡ some (mbedtls.hmac_sha256 secret (signing_input t))
    pub header_object : ObjectPart t.header header
    pub algorithm : claim_of (codes "alg") header.values ≡ some (codes "HS256")
    pub payload_object : ObjectPart t.payload claims
    pub times : Timely exp_now nbf_now claims

  verify_sound :
      (token secret : Text) (exp_now nbf_now : ℕ) (claims : Claims)
      → verify_jwt_hs256 mbedtls json token secret exp_now nbf_now ≡ ok claims
      → Genuine token secret exp_now nbf_now claims
  unfolding verify_jwt_hs256
  verify_sound token secret exp_now nbf_now claims h =
      let (t, e1, h1) = >>=-eq-ok (split_token token) _ h in
      let (sig, e2, h2) = >>=-eq-ok (from_option (base64_url_decode mbedtls t.signature)) _ h1 in
      let (_, e3, h3) =
        >>=-eq-ok
          (require
            (constant_time_equals mbedtls (mbedtls.hmac_sha256 secret (signing_input t)) sig))
          _ h2 in
      let (header_json, e4, h4) =
        >>=-eq-ok (from_option (base64_url_decode mbedtls t.header)) _ h3 in
      let (header, e5, h5) = >>=-eq-ok (from_option (parse_object_claims json header_json)) _ h4 in
      let (_, e6, h6) =
        >>=-eq-ok (require (is_hs256 (claim_of (codes "alg") header.values))) _ h5 in
      let (payload_json, e7, h7) =
        >>=-eq-ok (from_option (base64_url_decode mbedtls t.payload)) _ h6 in
      let (found, e8, h8) = >>=-eq-ok (from_option (parse_object_claims json payload_json)) _ h7 in
      let (_, e9, h9) = >>=-eq-ok (require (times_ok exp_now nbf_now found)) _ h8 in
      let same =
        (constant_time_equals_iff mbedtls (mbedtls.hmac_sha256 secret (signing_input t)) sig).0
          (require-ok _ e3) in
      let decoded = from_option-ok (base64_url_decode mbedtls t.signature) e2 in
      subst (Genuine token secret exp_now nbf_now) (ok-injective h9) (record {
        t = t;
        header = header;
        parts = split_token_sound token t e1;
        signed = decoded ∙ ap some (sym same);
        header_object = (
          header_json,
          from_option-ok _ e4,
          (parse_object_claims_iff json header_json header).0 (from_option-ok _ e5),
        );
        algorithm = is_hs256-some (claim_of (codes "alg") header.values) (require-ok _ e6);
        payload_object = (
          payload_json,
          from_option-ok _ e7,
          (parse_object_claims_iff json payload_json found).0 (from_option-ok _ e8),
        );
        times =
            (times_ok_iff exp_now nbf_now found).0 (require-ok (times_ok exp_now nbf_now found) e9);
      })

  verify_complete :
      (token secret : Text) (exp_now nbf_now : ℕ) (claims : Claims)
      → Genuine token secret exp_now nbf_now claims
      → verify_jwt_hs256 mbedtls json token secret exp_now nbf_now ≡ ok claims
  unfolding verify_jwt_hs256 text_eq
  verify_complete token secret exp_now nbf_now claims g =
      let (header_text, header_decoded, header_object) = g.header_object in
      let (payload_text, payload_decoded, payload_object) = g.payload_object in
      let hash = mbedtls.hmac_sha256 secret (signing_input g.t) in
      let header_parsed = (parse_object_claims_iff json header_text g.header).1 header_object in
      let payload_parsed = (parse_object_claims_iff json payload_text claims).1 payload_object in
      let in_time = (times_ok_iff exp_now nbf_now claims).1 g.times in
      rw ((split_token_iff token g.t).1 g.parts) (
        rw g.signed (
          rw ((constant_time_equals_iff mbedtls hash hash).1 refl) (
            rw header_decoded (
              rw header_parsed
                (rw g.algorithm (rw payload_decoded (rw payload_parsed (rw in_time refl))))))))

  -- A token is accepted with some claims exactly when it is genuine for the secret: three parts, a
  -- signature that is the HMAC of the first two, an object with `alg` HS256 as header, an object whose
  -- members are the claims as payload, the keys of both distinct, no `exp` or `nbf` that is null or no
  -- whole number, `exp` after the time of the check and `nbf` not after it, where they are there.
  pub verify_jwt_hs256_iff :
      (token secret : Text) (exp_now nbf_now : ℕ) (claims : Claims)
      → (verify_jwt_hs256 mbedtls json token secret exp_now nbf_now ≡ ok claims)
        ↔ Genuine token secret exp_now nbf_now claims
  verify_jwt_hs256_iff token secret exp_now nbf_now claims = (
    verify_sound token secret exp_now nbf_now claims,
    verify_complete token secret exp_now nbf_now claims,
  )

  -- The `exp` of a token that is accepted is a whole number, later than the time of the check.
  pub accepted-exp :
      (token secret text : Text) (exp_now nbf_now : ℕ) (claims : Claims)
      → verify_jwt_hs256 mbedtls json token secret exp_now nbf_now ≡ ok claims
      → claim_of (codes "exp") claims.values ≡ some text
      → (n : ℕ) × (stoll text ≡ some (pos n, [])) × (exp_now < n)
  accepted-exp token secret text exp_now nbf_now claims h there =
      let (t, read, later) =
        (verify_sound token secret exp_now nbf_now claims h).times.expires text there in
      After-pos exp_now t text read later
