-- ===== src/Serve/Admit.antt =====
-- Up to the handler of a matched route in HandleRequest: the rate limit, the credentials, the policies
-- and the BEFORE hooks.
use quackapi.Base.{
  ltb, Bool, true, false, not, ◌&&◌, ◌||◌, [], Option, none, some, pos, if◌then◌else◌,
}
use quackapi.Text.{Text, codes, empty}
use quackapi.Strings.{StringUtil}
use quackapi.Crypto.{Mbedtls}
use quackapi.Types.{Route}
use quackapi.RateLimit.{Verdict, allow_rate_limit}
use quackapi.Auth.Claims.{Json, claim_of}
use quackapi.Auth.Verify.{AuthResult, check_auth, rate_limit_client_key}
use quackapi.Middleware.{before, after, Context, snapshot}
use quackapi.Middleware.Rows.{Values}
use quackapi.Middleware.Execute.{Database, execute_middleware}
use quackapi.Serve.{
  Incoming, Times, Limits, World, Admission, refused, threw, admitted, pairs_to_json_object,
  text_of, no_hooks, auth_reply, limit_reply, policy_reply, hook_reply,
}

abbrev pub limit_by : {V : Type 0} → Route V → Text
limit_by route = if empty route.rate_limit_by then codes "ip" else route.rate_limit_by

abbrev pub is_authenticated : {V : Type 0} → Route V → AuthResult → Bool
is_authenticated route verified = not (empty route.require_auth) && verified.allowed

abbrev pub hook_context : {V : Type 0} → Limits → Incoming → Route V → Times → AuthResult → Context
hook_context limits req route times verified = record {
  method = req.method;
  path = req.path;
  route_name = route.name;
  group_name = route.group_name;
  request_id = req.request_id;
  request_body = req.body;
  headers_json = pairs_to_json_object req.headers;
  query_json = pairs_to_json_object req.params;
  client_ip = req.remote_addr;
  auth_subject = text_of (claim_of (codes "sub") verified.claims);
  status = pos 0;
  response_body = [];
  response_headers = [];
  timeout_ms = pos limits.query_timeout_ms;
  elapsed_ms = pos times.elapsed_ms;
  middleware_failed = false;
}

abbrev pub hooked : {V S : Type 0} → Route V → World S → Bool
hooked route w =
    not (no_hooks (snapshot before route.group_name w.middlewares))
    || not (no_hooks (snapshot after route.group_name w.middlewares))

abbrev pub admit_with : {V : Type 0} → Route V → AuthResult → Text → Option Context → Admission
admit_with route verified sql context = admitted (record {
  authenticated = is_authenticated route verified;
  claims = verified.claims;
  handler_sql = sql;
  context = context;
})

abbrev pub after_before :
    {V S : Type 0} → Route V → AuthResult → Text → S × Bool × Context → S × Admission
after_before route verified sql (s, false, context) = (s, refused (hook_reply context))
after_before route verified sql (s, true, context) =
    (s, admit_with route verified sql (some context))

module _ {V S : Type 0} (strings : StringUtil) (mbedtls : Mbedtls) (json : Json) where
  abbrev pub credentials : Incoming → Route V → Times → World S → AuthResult
  credentials req route times w =
      check_auth strings mbedtls json route req.headers times.exp_now times.nbf_now w.auths

  -- A route without a limit counts no call.
  unfoldable pub rate_verdict : Incoming → Route V → Times → World S → Verdict
  rate_verdict req route times w =
      if ltb 0 route.rate_limit_n && ltb 0 route.rate_limit_per_sec
      then allow_rate_limit times.now route.name
          (rate_limit_client_key strings mbedtls req.headers req.remote_addr (limit_by route) route
            (credentials req route times w) w.auths)
          route.rate_limit_n route.rate_limit_per_sec w.entries
      else record {
        allowed = true;
        retry_after_sec = route.rate_limit_per_sec;
        entries = w.entries;
      }

  module _ (values : Values V) (db : Database S V) (limits : Limits) where
    abbrev pub before_hooks : Incoming → Route V → Times → World S → S × Bool × Context
    before_hooks req route times w =
        let verified = credentials req route times w in
        execute_middleware strings values db w.middlewares before route.group_name
          (is_authenticated route verified) verified.claims w.database
          (hook_context limits req route times verified)

    -- The policies and the BEFORE hooks.
    unfoldable pub run_before : Incoming → Route V → Times → World S → S × Admission
    run_before req route times w =
        let verified = credentials req route times w in
        elim (db.rewrite w.database route.handler_sql (is_authenticated route verified)) [
          | none ↦ (w.database, threw)
          | some rewritten ↦
              if rewritten.deny_unauthenticated || not (empty rewritten.policy_error)
              then (w.database, refused policy_reply)
              else if hooked route w
              then after_before route verified rewritten.sql (before_hooks req route times w)
              else (w.database, admit_with route verified rewritten.sql none)
        ]

    -- Up to the handler. The rate limit counts a call before its credentials are looked at.
    unfoldable pub admit : Incoming → Route V → Times → World S → World S × Admission
    unfolding rate_verdict run_before
    admit req route times w =
        let verified = credentials req route times w in
        let verdict = rate_verdict req route times w in
        let counted = record w { entries = verdict.entries } in
        let rest = run_before req route times w in
        if not verdict.allowed
        then (counted, refused (limit_reply verdict.retry_after_sec))
        else if not verified.allowed
        then (counted, refused (auth_reply verified))
        else (record counted { database = rest.0 }, rest.1)
