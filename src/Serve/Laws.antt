-- ===== src/Serve/Laws.antt =====
-- What stands between a request and the handler of its route.
use quackapi.Base.{
  Bool, true, false, not, ◌&&◌, ◌||◌, Option, some, ◌≡◌, ◌⊎◌, refl, sym, ap, arith, Bool-cases,
  Option-cases, inl, inr,
}
use quackapi.Text.{Text, empty}
use quackapi.Strings.{StringUtil}
use quackapi.Crypto.{Mbedtls}
use quackapi.Types.{Route}
use quackapi.RateLimit.{Verdict}
use quackapi.Auth.Claims.{Json}
use quackapi.Auth.Verify.{AuthResult}
use quackapi.Middleware.{Context}
use quackapi.Middleware.Rows.{Values}
use quackapi.Middleware.Execute.{Database, Rewritten}
use quackapi.Serve.{
  Incoming, Times, Reply, Limits, World, Admitted, Admission, refused, admitted, auth_reply,
  limit_reply,
}
use quackapi.Serve.Admit.{
  credentials, rate_verdict, hooked, before_hooks, run_before, after_before, admit,
}
use quackapi.Serve.Finish.{bound_reply, conclude, serve}

-- The request of an admission.
abbrev pub IsAdmitted : Admission → Admitted → Type 0
IsAdmitted (admitted a) b = a ≡ b
IsAdmitted _ b = ⊥

module _ {V S : Type 0} (strings : StringUtil) (mbedtls : Mbedtls) (json : Json) (values : Values V)
    (db : Database S V) (limits : Limits) (req : Incoming) (route : Route V) (times : Times)
    (w : World S) where
  abbrev verified : AuthResult
  verified = credentials strings mbedtls json req route times w

  after_before-admitted :
      (sql : Text) (ran : S × Bool × Context) (a : Admitted)
      → IsAdmitted (after_before route verified sql ran).1 a
      → (ran.1 ≡ true) × (a.handler_sql ≡ sql) × (a.claims ≡ verified.claims)
  after_before-admitted sql (s, false, context) a h = absurd h
  after_before-admitted sql (s, true, context) a h =
      (refl, ap (λ (x : Admitted). x.handler_sql) (sym h), ap (λ (x : Admitted). x.claims) (sym h))

  -- The rewriting of the handler's SQL by the policies, which does not deny the request.
  abbrev pub Rewrites : Text → Type 0
  Rewrites sql =
      (rewritten : Rewritten) × (db.rewrite w.database route.handler_sql
          (not (empty route.require_auth) && verified.allowed)
        ≡ some rewritten)
      × (rewritten.deny_unauthenticated ≡ false)
      × (empty rewritten.policy_error ≡ true)
      × (sql ≡ rewritten.sql)

  abbrev admission : S × Admission
  admission = run_before strings mbedtls json values db limits req route times w

  run_before-admitted :
      (a : Admitted)
      → IsAdmitted admission.1 a
      → Rewrites a.handler_sql
        × (a.claims ≡ verified.claims)
        × ((hooked route w ≡ false)
            ⊎ ((before_hooks strings mbedtls json values db limits req route times w).1 ≡ true))
  unfolding run_before
  run_before-admitted a h =
      elim (Option-cases (
        db.rewrite w.database route.handler_sql
          (not (empty route.require_auth) && verified.allowed))) [
            | inl raises ↦ absurd (rw (raises, run_before) at h)
            | inr (rewritten, found) ↦
                elim (Bool-cases
                  (rewritten.deny_unauthenticated || not (empty rewritten.policy_error))) [
                    | inl denied ↦ absurd (rw (found, denied, run_before) at h)
                    | inr fine ↦ elim (Bool-cases (hooked route w)) [
                      | inr unhooked ↦
                          let same = rw (found, fine, unhooked, run_before) at h in
                          (
                            (
                              rewritten,
                              found,
                              ground arith,
                              ground arith,
                              ap (λ (x : Admitted). x.handler_sql) (sym same),
                            ),
                            ap (λ (x : Admitted). x.claims) (sym same),
                            inl unhooked,
                          )
                      | inl hooks ↦
                          let (passes, sql, claims) =
                            after_before-admitted rewritten.sql
                              (before_hooks strings mbedtls json values db limits req route times w)
                              a (rw (found, fine, hooks, run_before) at h) in
                          ((rewritten, found, ground arith, ground arith, sql), claims, inr passes)
                    ]
                  ]
          ]

  -- The rate limit lets the request through, and its credentials are accepted. The policies
  -- rewrite the handler's SQL without denying the request, and the BEFORE hooks let it go on where
  -- the route has hooks. The handler gets that SQL and the claims that were verified.
  abbrev pub Gates : Admitted → Type 0
  Gates a =
      ((rate_verdict strings mbedtls json req route times w).allowed ≡ true)
      × (verified.allowed ≡ true)
      × Rewrites a.handler_sql
      × (a.claims ≡ verified.claims)
      × ((hooked route w ≡ false)
          ⊎ ((before_hooks strings mbedtls json values db limits req route times w).1 ≡ true))

  -- A request that HandleRequest lets come to the handler of its route has passed the rate limit,
  -- with credentials that are accepted; the policies do not deny it, and the BEFORE hooks let it go
  -- on where the route has hooks. The handler gets the SQL that the policies made and the claims
  -- that were verified.
  pub admit-Gates :
      (a : Admitted)
      → IsAdmitted (admit strings mbedtls json values db limits req route times w).1 a
      → Gates a
  unfolding admit
  admit-Gates a h =
      elim (Bool-cases (rate_verdict strings mbedtls json req route times w).allowed) [
        | inr over ↦ absurd (rw (over, admit) at h)
        | inl within ↦ elim (Bool-cases verified.allowed) [
          | inr bad ↦ absurd (rw (within, bad, admit) at h)
          | inl good ↦
              let (rewrites, claims, hooks) =
                run_before-admitted a (rw (within, good, admit) at h) in
              (within, good, rewrites, claims, hooks)
        ]
      ]

  abbrev verdict : Verdict
  verdict = rate_verdict strings mbedtls json req route times w

  abbrev counted : World S
  counted = record w { entries = verdict.entries }

  admit_over :
      verdict.allowed ≡ false
      → admit strings mbedtls json values db limits req route times w
        ≡ (counted, refused (limit_reply verdict.retry_after_sec))
  unfolding admit
  admit_over over = rw (over, admit) refl

  admit_unverified :
      verdict.allowed ≡ true
      → verified.allowed ≡ false
      → admit strings mbedtls json values db limits req route times w
        ≡ (counted, refused (auth_reply verified))
  unfolding admit
  admit_unverified within bad = rw (within, bad, admit) refl

  abbrev served : (Admitted → S → S × Reply) → World S × Option Reply
  served handler = serve strings values db limits mbedtls json handler req route times w

  -- Nothing ran on the database, and the answer is that of the rate limit or that of the
  -- credentials `answer`, within the limits of a response.
  abbrev pub TurnedAway : AuthResult → World S × Option Reply → Type 0
  TurnedAway answer end =
      (end.0.database ≡ w.database)
      × ((end.1 ≡ some (bound_reply strings limits times.ended_ms (auth_reply answer)))
          ⊎ (end.1
              ≡ some (
                  bound_reply strings limits times.ended_ms (limit_reply verdict.retry_after_sec))))

  turned_away :
      (handler : Admitted → S → S × Reply) (reply : Reply)
      → admit strings mbedtls json values db limits req route times w ≡ (counted, refused reply)
      → served handler ≡ (counted, some (bound_reply strings limits times.ended_ms reply))
  unfolding serve conclude
  turned_away handler reply e = ap (conclude strings values db limits handler times) e

  pub serve-TurnedAway :
      (handler : Admitted → S → S × Reply)
      → verified.allowed ≡ false
      → TurnedAway verified (served handler)
  serve-TurnedAway handler bad = elim (Bool-cases verdict.allowed) [
    | inr over ↦
        let end = turned_away handler (limit_reply verdict.retry_after_sec) (admit_over over) in
        (
          ap (λ (x : World S × Option Reply). x.0.database) end,
          inr (ap (λ (x : World S × Option Reply). x.1) end),
        )
    | inl within ↦
        let end = turned_away handler (auth_reply verified) (admit_unverified within bad) in
        (
          ap (λ (x : World S × Option Reply). x.0.database) end,
          inl (ap (λ (x : World S × Option Reply). x.1) end),
        )
  ]
