-- ===== src/Serve/Closed.antt =====
-- The end of a request: the limits of a response, and a scheme that is gone.
use quackapi.Base.{
  ℕ, ◌≤◌, ltb, leb, max, true, false, [], Option, none, some, length, ◌≡◌, ap, subst, arith,
  Bool-cases, inl, inr,
}
use quackapi.Text.{Text, empty}
use quackapi.Strings.{StringUtil}
use quackapi.Crypto.{Mbedtls}
use quackapi.Types.{Route}
use quackapi.Registry.Auths.{drop_auth}
use quackapi.Registry.Auths.Keys.{IsValid}
use quackapi.Auth.Claims.{Json}
use quackapi.Auth.Verify.{AuthResult, not_authenticated}
use quackapi.Auth.Schemes.{check_auth-drop_auth}
use quackapi.Middleware.Rows.{Values}
use quackapi.Middleware.Execute.{Database}
use quackapi.Serve.{
  Incoming, Times, Reply, Limits, World, Admitted, Admission, refused, threw, admitted,
}
use quackapi.Serve.Admit.{admit}
use quackapi.Serve.Finish.{bound_reply, conclude, serve}
use quackapi.Serve.Laws.{TurnedAway, serve-TurnedAway}

-- The limit of a response, and no less than the longest of the two texts that stand in its place.
abbrev pub cap : Limits → ℕ
cap limits = max limits.max_response_bytes 51

-- The body of an answer is no longer than the limit, but for the answer that says so.
abbrev pub Bounded : Limits → Option Reply → Type 0
Bounded limits none = Unit
Bounded limits (some reply) = length reply.body ≤ cap limits

bound_reply-cap :
    (strings : StringUtil) (limits : Limits) (ended_ms : ℕ) (reply : Reply)
    → length (bound_reply strings limits ended_ms reply).body ≤ cap limits
unfolding bound_reply
bound_reply-cap strings limits ended_ms reply =
    elim (Bool-cases (leb limits.query_timeout_ms ended_ms)) [
      | inl late ↦ rw (late, bound_reply) (ground arith)
      | inr soon ↦ elim (Bool-cases (ltb limits.max_response_bytes (length reply.body))) [
        | inl long ↦ rw (soon, long, bound_reply) (ground arith)
        | inr fits ↦ rw (soon, fits, bound_reply) (ground arith)
      ]
    ]

module _ {V S : Type 0} (strings : StringUtil) (mbedtls : Mbedtls) (json : Json) (values : Values V)
    (db : Database S V) (limits : Limits) where
  conclude-Bounded :
      (handler : Admitted → S → S × Reply) (times : Times) (end : World S × Admission)
      → Bounded limits (conclude strings values db limits handler times end).1
  unfolding conclude
  conclude-Bounded handler times (w, refused reply) =
      bound_reply-cap strings limits times.ended_ms reply
  conclude-Bounded handler times (w, threw) = tt
  conclude-Bounded handler times (w, admitted a) = bound_reply-cap strings limits times.ended_ms _

  -- Whatever the handler and the hooks answer, the body of the answer of a request is at most as
  -- long as the configured limit, or as the 51 bytes of the answer that says the limit is exceeded.
  pub serve-Bounded :
      (handler : Admitted → S → S × Reply) (req : Incoming) (route : Route V) (times : Times)
      (w : World S)
      → Bounded limits (serve strings values db limits mbedtls json handler req route times w).1
  unfolding serve
  serve-Bounded handler req route times w =
      conclude-Bounded handler times (admit strings mbedtls json values db limits req route times w)

  -- After DropAuth of a name in a valid state, a request on a route that requires that name up to
  -- case runs nothing on the database, neither hooks nor handler, and the answer is 401 without a
  -- credential hint, or that of the rate limit, or what the limits of a response put in its place.
  pub serve-drop_auth :
      (handler : Admitted → S → S × Reply) (req : Incoming) (route : Route V) (times : Times)
      (w : World S) (name : Text)
      → IsValid strings w.auths
      → empty route.require_auth ≡ false
      → strings.ci_equals name route.require_auth ≡ true
      → let w' = record w { auths = (drop_auth strings name w.auths).1 } in
        TurnedAway strings mbedtls json values db limits req route times w'
          (not_authenticated [])
          (serve strings values db limits mbedtls json handler req route times w')
  serve-drop_auth handler req route times w name v required same =
      let w' = record w { auths = (drop_auth strings name w.auths).1 } in
      let gone =
        check_auth-drop_auth strings mbedtls json name route req.headers times.exp_now times.nbf_now
          w.auths v required same in
      subst
        (λ (r : AuthResult).
          TurnedAway strings mbedtls json values db limits req route times w' r
            (serve strings values db limits mbedtls json handler req route times w'))
        gone
        (serve-TurnedAway strings mbedtls json values db limits req route times w' handler
          (ap (λ (r : AuthResult). r.allowed) gone))
