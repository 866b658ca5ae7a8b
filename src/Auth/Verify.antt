-- ===== src/Auth/Verify.antt =====
-- ExtractAuthString, VerifyAuthScheme and CheckAuth: the verdict on a request's credentials, and
-- RateLimitClientKey (src/quackapi_server.cpp), the bucket that a verdict selects.
use quackapi.Base.{
  ℕ, Bool, true, false, not, ◌&&◌, ◌||◌, List, [], ◌∷◌, ◌++◌, Option, none, some, ok, err,
  if◌then◌else◌, find,
}
use quackapi.Text.{Text, codes, text_eq, empty}
use quackapi.Strings.{StringUtil}
use quackapi.Util.{json_escape}
use quackapi.Crypto.{Mbedtls, constant_time_equals}
use quackapi.Types.{api_key, jwt_hs256, Auth, ApiKeyEntry, Route}
use quackapi.Registry.Auths.{AuthState, get_auth, snapshot_api_keys}
use quackapi.Auth.{extract_bearer, header_get}
use quackapi.Auth.Claims.{Json, claim_of}
use quackapi.Auth.Jwt.{verify_jwt_hs256}

pub record AuthResult : Type 0 where
  pub allowed : Bool
  pub status : ℕ
  pub body : Text
  pub www_authenticate : Text
  pub claims : List (Text × Text)

-- A result as it is default-constructed.
abbrev pub no_result : AuthResult
no_result = record { allowed = false; status = 401; body = []; www_authenticate = []; claims = [] }

abbrev pub detail_json : Text → Text
detail_json detail = codes "{\"detail\":\"" ++ json_escape detail ++ codes "\"}"

abbrev pub fail : ℕ → Text → Text → AuthResult
fail status detail www_auth = record no_result {
  status = status;
  body = detail_json detail;
  www_authenticate = www_auth;
}

abbrev pub not_authenticated : Text → AuthResult
not_authenticated www_auth = fail 401 (codes "Not authenticated") www_auth

abbrev pub invalid_credentials_result : AuthResult
invalid_credentials_result = fail 401 (codes "Invalid authentication credentials") []

abbrev pub accepted : List (Text × Text) → AuthResult
accepted claims = record no_result { allowed = true; status = 200; claims = claims }

abbrev pub client_address : Text → Text
client_address remote_addr =
    codes "ip:" ++ (if empty remote_addr then codes "unknown" else remote_addr)

module _ (strings : StringUtil) where
  abbrev pub bearer_of : List (Text × Text) → Text
  bearer_of headers =
      elim (extract_bearer strings (header_get strings headers (codes "Authorization"))) [
        | none ↦ []
        | some token ↦ token
      ]

  unfoldable pub extract_auth_string : Auth → List (Text × Text) → Text
  extract_auth_string auth headers =
      let raw_key = header_get strings headers auth.header in
      elim auth.kind [
        | api_key ↦ if not (empty raw_key) then raw_key else bearer_of headers
        | jwt_hs256 ↦ bearer_of headers
      ]

  module _ (mbedtls : Mbedtls) (json : Json) where
    -- The loop over the keys: the subject of the first that has the digest.
    abbrev pub subject_of : Text → List ApiKeyEntry → Option Text
    subject_of hash keys = elim (find (λ e. constant_time_equals mbedtls hash e.key_hash) keys) [
      | none ↦ none
      | some entry ↦ some entry.subject
    ]

    abbrev pub verify_api_key : Text → Text → AuthState → AuthResult
    verify_api_key scheme_name auth_string s =
        if empty auth_string
        then not_authenticated (codes "ApiKey")
        else elim (subject_of (mbedtls.sha256 auth_string)
            (snapshot_api_keys strings scheme_name s.api_keys)) [
              | none ↦ invalid_credentials_result
              | some subject ↦ accepted ((codes "sub", subject) ∷ [])
            ]

    abbrev pub verify_jwt : Text → Text → ℕ → ℕ → AuthResult
    verify_jwt auth_string secret exp_now nbf_now =
        if empty auth_string
        then not_authenticated (codes "Bearer")
        else elim (verify_jwt_hs256 mbedtls json auth_string secret exp_now nbf_now) [
          | err _ ↦ invalid_credentials_result
          | ok claims ↦ accepted claims.values
        ]

    unfoldable pub verify_auth_scheme : Text → Text → ℕ → ℕ → AuthState → AuthResult
    verify_auth_scheme scheme_name auth_string exp_now nbf_now s =
        elim (get_auth strings scheme_name s) [
          | none ↦ not_authenticated []
          | some auth ↦ elim auth.kind [
            | api_key ↦ verify_api_key auth.name auth_string s
            | jwt_hs256 ↦ verify_jwt auth_string auth.secret exp_now nbf_now
          ]
        ]

    -- Both lookups of the scheme see one state of the registry.
    unfoldable pub check_auth :
        {Value : Type 0} → Route Value → List (Text × Text) → ℕ → ℕ → AuthState → AuthResult
    check_auth route headers exp_now nbf_now s =
        if empty route.require_auth
        then record no_result { allowed = true }
        else elim (get_auth strings route.require_auth s) [
          | none ↦ not_authenticated []
          | some auth ↦
              verify_auth_scheme route.require_auth (extract_auth_string auth headers) exp_now
                nbf_now s
        ]

  abbrev pub verified_scheme :
      {Value : Type 0} → Text → Route Value → AuthResult → AuthState → Option Auth
  verified_scheme by route verified s =
      if (text_eq by (codes "token") || text_eq by (codes "key"))
        && not (empty route.require_auth)
        && verified.allowed
      then get_auth strings route.require_auth s
      else none

  module _ (mbedtls : Mbedtls) where
    abbrev pub identity_key :
        {Value : Type 0} → List (Text × Text) → Route Value → AuthResult → Auth → Text
    identity_key headers route verified scheme =
        let token_key = codes "tok:" ++ mbedtls.sha256 (extract_auth_string scheme headers) in
        elim (claim_of (codes "sub") verified.claims) [
          | none ↦ token_key
          | some sub ↦
              if empty sub
              then token_key
              else codes "sub:" ++ mbedtls.sha256 (route.require_auth ++ b':' ∷ sub)
        ]

    unfoldable pub rate_limit_client_key :
        {Value : Type 0}
        → List (Text × Text)
        → Text
        → Text
        → Route Value
        → AuthResult
        → AuthState
        → Text
    rate_limit_client_key headers remote_addr by route verified s =
        elim (verified_scheme by route verified s) [
          | none ↦ client_address remote_addr
          | some scheme ↦ identity_key headers route verified scheme
        ]
