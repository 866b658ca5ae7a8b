-- ===== src/Serve/Finish.antt =====
-- From the handler of a matched route in HandleRequest to the end of its response: the AFTER hooks
-- and the limits that `finish` checks.
use quackapi.Base.{ℕ, ltb, leb, not, ◌++◌, Option, none, some, pos, length, filter, if◌then◌else◌}
use quackapi.Text.{codes}
use quackapi.Strings.{StringUtil}
use quackapi.Crypto.{Mbedtls}
use quackapi.Types.{Route}
use quackapi.Auth.Claims.{Json}
use quackapi.Middleware.{after, MiddlewareRegistry}
use quackapi.Middleware.Rows.{Values}
use quackapi.Middleware.Execute.{Database, execute_middleware}
use quackapi.Serve.{
  Incoming, Times, Reply, Limits, World, Admitted, Admission, refused, threw, admitted, set_json,
}
use quackapi.Serve.Admit.{admit}

abbrev pub without_encoding : StringUtil → Reply → Reply
without_encoding strings reply = record reply {
  headers =
      filter (λ header. not (strings.ci_equals header.0 (codes "Content-Encoding"))) reply.headers;
}

-- The deadline and the size of a response, which `finish` checks last.
unfoldable pub bound_reply : StringUtil → Limits → ℕ → Reply → Reply
bound_reply strings limits elapsed_ms reply =
    if leb limits.query_timeout_ms elapsed_ms
    then set_json (pos 504) (codes "{\"detail\":\"Query execution deadline exceeded\"}")
        (without_encoding strings reply)
    else if ltb limits.max_response_bytes (length reply.body)
    then set_json (pos 507) (codes "{\"detail\":\"Response exceeds configured byte limit\"}")
        (without_encoding strings reply)
    else reply

module _ {V S : Type 0} (strings : StringUtil) (values : Values V) (db : Database S V) where
  -- The AFTER hooks see the status and the body of the response, and may replace them.
  unfoldable pub run_after : MiddlewareRegistry → Admitted → ℕ → S → Reply → S × Reply
  run_after registry a elapsed_ms s reply = elim a.context [
    | none ↦ (s, reply)
    | some context ↦
        let ran =
          execute_middleware strings values db registry after context.group_name a.authenticated
            a.claims s
            (record context {
              status = reply.status;
              response_body = reply.body;
              elapsed_ms = pos elapsed_ms;
            }) in
        let answer = if ran.1 then reply else set_json ran.2.status ran.2.response_body reply in
        (ran.0, record answer { headers = answer.headers ++ ran.2.response_headers })
  ]

  module _ (limits : Limits) where
    -- What follows the guards; `none` where an exception leaves the function.
    unfoldable pub conclude :
        (Admitted → S → S × Reply) → Times → World S × Admission → World S × Option Reply
    unfolding run_after bound_reply
    conclude handler times (w, refused reply) =
        (w, some (bound_reply strings limits times.ended_ms reply))
    conclude handler times (w, threw) = (w, none)
    conclude handler times (w, admitted a) =
        let handled = handler a w.database in
        let ended = run_after w.middlewares a times.handled_ms handled.0 handled.1 in
        (record w { database = ended.0 }, some (bound_reply strings limits times.ended_ms ended.1))

    module _ (mbedtls : Mbedtls) (json : Json) where
      -- The whole way.
      unfoldable pub serve :
          (Admitted → S → S × Reply) → Incoming → Route V → Times → World S → World S × Option Reply
      unfolding admit conclude
      serve handler req route times w =
          conclude handler times (admit strings mbedtls json values db limits req route times w)
