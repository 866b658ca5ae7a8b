-- ===== src/Middleware/Execute.antt =====
-- ExecuteQuackapiMiddleware: the hooks of a snapshot, one after the other. The database is a parameter:
-- RewriteHandlerWithPolicies, which walks DuckDB's syntax tree, Prepare, Execute and Fetch, any of which may
-- throw, and the clock. `S` is what they read and change.
use quackapi.Base.{
  ℕ, zero, suc, Bool, true, false, not, ◌||◌, List, [], ◌∷◌, ◌++◌, Option, none, some, length, ℤ,
  pos, negsuc, integer_eq, min, max, Result, ok, err, ◌>>=◌, ◌==◌, if◌then◌else◌,
}
use quackapi.Text.{Text, codes, text_eq, empty}
use quackapi.Strings.{StringUtil}
use quackapi.Auth.Claims.{claim_of}
use quackapi.Router.{skip}
use quackapi.Middleware.{Middleware, MiddlewarePhase, MiddlewareRegistry, Context, snapshot}
use quackapi.Middleware.Results.{QueryResult, read_result}
use quackapi.Middleware.Rows.{Values, Stop, not_authenticated, failed, timed_out, Scan}

-- `deny_unauthenticated`, `policy_error` and the result of RewriteHandlerWithPolicies.
pub record Rewritten : Type 0 where
  pub deny_unauthenticated : Bool
  pub policy_error : Text
  pub sql : Text

-- Prepare: the names of the parameters where there is no error.
pub data Prepared : Type 0 where
  prepare_throws has_error : Prepared
  named_parameters : List Text → Prepared

pub record Database (S V : Type 0) : Type 0 where
  pub rewrite : S → Text → Bool → Option Rewritten
  pub prepare : S → Text → Prepared
  -- The milliseconds to the deadline of the request, where it has one.
  pub deadline : S → Option ℤ
  -- `none` where Execute throws.
  pub execute : S → Text → List (Text × V) → ℕ → S × Option (QueryResult V)

-- IsClaimsParameter: the key of the claim.
unfoldable pub is_claims_parameter : StringUtil → Text → Option Text
is_claims_parameter strings name =
    if not (strings.starts_with (strings.lower name) (codes "claims_")) || length name == 7
    then none
    else some (skip 7 name)

-- QuackapiRemainingTimeoutMillis, on a fallback that is not negative.
unfoldable pub remaining_timeout_millis : ℕ → Option ℤ → ℕ
remaining_timeout_millis fallback_ms none = fallback_ms
remaining_timeout_millis fallback_ms (some (pos left)) = max 1 (min fallback_ms left)
remaining_timeout_millis fallback_ms (some (negsuc past)) = 1

abbrev pub fallback_timeout : ℤ → ℕ
fallback_timeout (pos zero) = 30000
fallback_timeout (pos (suc n)) = suc n
fallback_timeout (negsuc n) = 30000

unfoldable pub stopped : Stop → Context → Context
stopped not_authenticated context = record context {
  status = pos 401;
  response_body = codes "{\"detail\":\"Not authenticated\"}";
}
stopped failed context = record context {
  status = pos 500;
  response_body = codes "{\"detail\":\"Middleware execution failed\"}";
  middleware_failed = true;
}
stopped timed_out context = record context {
  status = pos 408;
  response_body = codes "{\"detail\":\"Request timed out\"}";
  middleware_failed = true;
}

abbrev pub with_headers : Scan → Context → Context
with_headers scan context = record context {
  response_headers = context.response_headers ++ scan.headers;
}

abbrev pub with_block : Scan → Context → Context
with_block scan context = record context {
  status = scan.blocked_status;
  response_body = scan.blocked_body;
}

module _ {S V : Type 0} (strings : StringUtil) (values : Values V) (db : Database S V) where
  open values use {null, text, integer, bigint}
  open db use {rewrite, prepare, deadline, execute}

  abbrev pub text_or_null : Text → V
  text_or_null s = if empty s then null else text s

  abbrev pub claim_or_null : Option Text → V
  claim_or_null none = null
  claim_or_null (some claim) = text claim

  -- The value of a parameter that is not a claim, by its name in lower case.
  unfoldable pub request_value : Context → Text → Option V
  request_value context lower =
      if text_eq lower (codes "request_id")
      then some (text context.request_id)
      else if text_eq lower (codes "method")
      then some (text context.method)
      else if text_eq lower (codes "path")
      then some (text context.path)
      else if text_eq lower (codes "route")
      then some (text context.route_name)
      else if text_eq lower (codes "group")
      then some (text_or_null context.group_name)
      else if text_eq lower (codes "client_ip")
      then some (text_or_null context.client_ip)
      else if text_eq lower (codes "auth_subject")
      then some (text_or_null context.auth_subject)
      else if text_eq lower (codes "headers_json")
      then some (text context.headers_json)
      else if text_eq lower (codes "query_json")
      then some (text context.query_json)
      else if text_eq lower (codes "body")
      then some (text context.request_body)
      else if text_eq lower (codes "status")
      then some (if integer_eq context.status (pos 0) then null else integer context.status)
      else if text_eq lower (codes "elapsed_ms")
      then some (bigint context.elapsed_ms)
      else none

  unfoldable pub parameter_value : List (Text × Text) → Context → Text → Option V
  unfolding is_claims_parameter request_value
  parameter_value claims context name = elim (is_claims_parameter strings name) [
    | some key ↦ some (claim_or_null (claim_of key claims))
    | none ↦ request_value context (strings.lower name)
  ]

  -- The loop over the parameters; a name without a value stops it.
  unfoldable pub bind_values :
      List (Text × Text) → Context → List Text → Result Stop (List (Text × V))
  unfolding parameter_value
  bind_values claims context [] = ok []
  bind_values claims context (name ∷ names) = elim (parameter_value claims context name) [
    | none ↦ err failed
    | some value ↦ bind_values claims context names >>= λ rest. ok ((name, value) ∷ rest)
  ]

  -- Up to Execute: the handler that is prepared, its values and its time.
  abbrev pub Ready : Type 0
  Ready = Text × List (Text × V) × ℕ

  unfoldable pub bind_hook : S → List (Text × Text) → Context → Text → Prepared → Result Stop Ready
  unfolding bind_values remaining_timeout_millis
  bind_hook s claims context sql prepare_throws = err failed
  bind_hook s claims context sql has_error = err failed
  bind_hook s claims context sql (named_parameters names) =
      let timeout_ms =
        remaining_timeout_millis (fallback_timeout context.timeout_ms) (deadline s) in
      bind_values claims context names >>= λ bound.
      if timeout_ms == 0 then err timed_out else ok (sql, bound, timeout_ms)

  unfoldable pub ready_hook :
      S → Bool → List (Text × Text) → Context → Middleware → Result Stop Ready
  unfolding bind_hook
  ready_hook s authenticated claims context definition =
      elim (rewrite s definition.handler_sql authenticated) [
        | none ↦ err failed
        | some rewritten ↦
            if rewritten.deny_unauthenticated
            then err not_authenticated
            else if not (empty rewritten.policy_error)
            then err failed
            else bind_hook s claims context rewritten.sql (prepare s rewritten.sql)
      ]

  unfoldable pub run_hook :
      S → Bool → List (Text × Text) → Context → Middleware → S × Result Stop Scan
  unfolding ready_hook read_result
  run_hook s authenticated claims context definition =
      elim (ready_hook s authenticated claims context definition) [
        | err stop ↦ (s, err stop)
        | ok (sql, bound, timeout_ms) ↦
            let ran = execute s sql bound timeout_ms in (ran.0, read_result strings values ran.1)
      ]

  -- The loop over the snapshot: whether the request goes on, and the context.
  unfoldable pub run_hooks :
      Bool → List (Text × Text) → List Middleware → S → Context → S × Bool × Context
  unfolding run_hook stopped
  run_hooks authenticated claims [] s context = (s, true, context)
  run_hooks authenticated claims (definition ∷ later) s context =
      let hook = run_hook s authenticated claims context definition in
      elim hook.1 [
        | err stop ↦ (hook.0, false, stopped stop context)
        | ok scan ↦ elim scan.blocked [
          | true ↦ (hook.0, false, with_block scan (with_headers scan context))
          | false ↦ run_hooks authenticated claims later hook.0 (with_headers scan context)
        ]
      ]

  unfoldable pub execute_middleware :
      MiddlewareRegistry
      → MiddlewarePhase
      → Text
      → Bool
      → List (Text × Text)
      → S
      → Context
      → S × Bool × Context
  unfolding run_hooks
  execute_middleware registry phase group_name authenticated claims s context =
      run_hooks authenticated claims (snapshot phase group_name registry) s context
