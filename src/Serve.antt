-- ===== src/Serve.antt =====
-- The way of a request of a matched route through HandleRequest of src/quackapi_server.cpp: what it
-- reads and changes, its answers, and PairsToJsonObject. The handler itself, its binding and the
-- printing of its rows, is a parameter.
pub mod Admit
pub mod Finish
pub mod Laws
pub mod Closed
use quackapi.Base.{
  ℕ, ◌+◌, ◌-◌, ltb, leb, Bool, true, false, not, ◌&&◌, ◌||◌, List, [], ◌∷◌, ◌++◌, Option, none,
  some, ℤ, pos, length, filter, if◌then◌else◌,
}
use quackapi.Text.{Text, codes, text_eq, empty, to_string}
use quackapi.Strings.{StringUtil}
use quackapi.Crypto.{Mbedtls}
use quackapi.Types.{Route}
use quackapi.RateLimit.{Entries, Verdict, allow_rate_limit}
use quackapi.Registry.Auths.{AuthState}
use quackapi.Auth.Claims.{Json, claim_of}
use quackapi.Auth.Verify.{AuthResult, check_auth, rate_limit_client_key}
use quackapi.Middleware.{before, after, Middleware, MiddlewareRegistry, Context, snapshot}
use quackapi.Middleware.Rows.{Values}
use quackapi.Middleware.Execute.{Database, Rewritten, execute_middleware}
use quackapi.Validation.Transform.{quoted, comma}

pub record Incoming : Type 0 where
  pub method : Text
  pub path : Text
  pub body : Text
  pub headers : List (Text × Text)
  pub params : List (Text × Text)
  pub remote_addr : Text
  pub request_id : Text

-- The times of a request: the clock of the rate limit, the two of a token's claims, and the
-- milliseconds since its start before the hooks, after the handler and at the end.
pub record Times : Type 0 where
  pub now : ℕ
  pub exp_now : ℕ
  pub nbf_now : ℕ
  pub elapsed_ms : ℕ
  pub handled_ms : ℕ
  pub ended_ms : ℕ

-- A response; `set_header` adds a header. SetJson's content type is not kept.
pub record Reply : Type 0 where
  pub status : ℤ
  pub body : Text
  pub headers : List (Text × Text)

pub record Limits : Type 0 where
  pub query_timeout_ms : ℕ
  pub max_response_bytes : ℕ

-- What a request reads and changes.
pub record World (S : Type 0) : Type 0 where
  pub auths : AuthState
  pub middlewares : MiddlewareRegistry
  pub entries : Entries
  pub database : S

-- A request that may run its handler.
pub record Admitted : Type 0 where
  pub authenticated : Bool
  pub claims : List (Text × Text)
  pub handler_sql : Text
  pub context : Option Context

-- `threw` leaves the function by an exception of RewriteHandlerWithPolicies.
pub data Admission : Type 0 where
  refused : Reply → Admission
  threw : Admission
  admitted : Admitted → Admission

unfoldable pub pairs_from : Bool → List (Text × Text) → Text
pairs_from first [] = []
pairs_from first ((key, value) ∷ pairs) =
    comma first ++ quoted key ++ b':' ∷ (quoted value ++ pairs_from false pairs)

unfoldable pub pairs_to_json_object : List (Text × Text) → Text
unfolding pairs_from
pairs_to_json_object pairs = codes "{" ++ pairs_from true pairs ++ codes "}"

abbrev pub text_of : Option Text → Text
text_of none = []
text_of (some s) = s

abbrev pub no_hooks : List Middleware → Bool
no_hooks [] = true
no_hooks (_ ∷ _) = false

abbrev pub set_json : ℤ → Text → Reply → Reply
set_json status body reply = record reply { status = status; body = body }

abbrev pub json_reply : ℤ → Text → Reply
json_reply status body = record { status = status; body = body; headers = [] }

-- The answer to credentials that are not accepted.
abbrev pub auth_reply : AuthResult → Reply
auth_reply verified = record {
  status = pos verified.status;
  body = verified.body;
  headers =
      if empty verified.www_authenticate
      then []
      else (codes "WWW-Authenticate", verified.www_authenticate) ∷ [];
}

abbrev pub limit_reply : ℕ → Reply
limit_reply retry_after = record {
  status = pos 429;
  body = codes "{\"detail\":\"Rate limit exceeded\"}";
  headers = (codes "Retry-After", to_string retry_after) ∷ [];
}

abbrev pub policy_reply : Reply
policy_reply = json_reply (pos 403) (codes "{\"detail\":\"Policy denies unauthenticated access\"}")

abbrev pub hook_reply : Context → Reply
hook_reply context = record {
  status = context.status;
  body = context.response_body;
  headers = context.response_headers;
}
