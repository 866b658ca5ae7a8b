-- ===== src/Middleware/Closed.antt =====
-- The context that ExecuteQuackapiMiddleware leaves, whether it lets the request go on or not.
use quackapi.Base.{
  ℕ, suc, ◌*◌, ◌≤◌, Bool, true, false, List, [], ◌∷◌, ◌++◌, all, all-append, append_assoc,
  append-nil, length, length-append, ℤ, pos, ok, err-ne-ok, Result-cases, ◌≡◌, refl, sym, ◌∙◌,
  subst, arith, Bool-cases, inl, inr, ◌⊎◌,
}
use quackapi.Text.{Text, codes}
use quackapi.Strings.{StringUtil}
use quackapi.Middleware.{
  Middleware, MiddlewarePhase, MiddlewareRegistry, Context, max_body_bytes, snapshot,
}
use quackapi.Middleware.Headers.{is_safe_response_header}
use quackapi.Middleware.Rows.{
  Values, Stop, not_authenticated, failed, timed_out, Scan, is_valid_http_status,
}
use quackapi.Middleware.Execute.{
  Database, stopped, with_headers, with_block, ready_hook, run_hook, run_hooks, execute_middleware,
}
use quackapi.Middleware.Outcome.{Sound}
use quackapi.Middleware.Chunks.{read_result_blocks}

abbrev pub appending : List (Text × Text) → Context → Context
appending headers context = record context {
  response_headers = context.response_headers ++ headers;
}

-- A request that may not go on: 401, or 500 or 408 with the mark of a failure, or a status and a body that a hook
-- declared and HTTP admits. Nothing else of the context changes.
abbrev pub Refused : Context → Context → Type 0
Refused context end =
    ((end ≡ record context {
      status = pos 401;
      response_body = codes "{\"detail\":\"Not authenticated\"}";
    })
      ⊎ (end ≡ record context {
        status = pos 500;
        response_body = codes "{\"detail\":\"Middleware execution failed\"}";
        middleware_failed = true;
      })
      ⊎ (end ≡ record context {
        status = pos 408;
        response_body = codes "{\"detail\":\"Request timed out\"}";
        middleware_failed = true;
      }))
    ⊎ ((status : ℤ) × (body : Text) × (is_valid_http_status status ≡ true)
        × (length body ≤ max_body_bytes)
        × (end ≡ record context { status = status; response_body = body }))

-- What the hooks leave: the context with their headers, and no more, where the request goes on.
abbrev pub Leaves : Bool → Context → Context → Type 0
Leaves true context end = end ≡ context
Leaves false context end = Refused context end

module _ (strings : StringUtil) where
  -- Safe headers were appended, at most 64 for each of the hooks.
  pub record Ends (hooks : ℕ) (goes_on : Bool) (context end : Context) : Type 0 where
    pub headers : List (Text × Text)
    pub safe : all (λ h. is_safe_response_header strings h.0 h.1) headers ≡ true
    pub few : length headers ≤ hooks * 64
    pub leaves : Leaves goes_on (appending headers context) end

  stopped-Refused : (stop : Stop) (context : Context) → Refused context (stopped stop context)
  unfolding stopped
  stopped-Refused not_authenticated context = inl (inl refl)
  stopped-Refused failed context = inl (inr (inl refl))
  stopped-Refused timed_out context = inl (inr (inr refl))

  -- Hooks that append nothing.
  Ends-now :
      (hooks : ℕ) (goes_on : Bool) (context end : Context)
      → Leaves goes_on context end
      → Ends hooks goes_on context end
  Ends-now hooks goes_on context end now = record {
    headers = [];
    safe = refl;
    few = omega arith;
    leaves =
        subst (λ h. Leaves goes_on (record context { response_headers = h }) end)
          (sym (append-nil context.response_headers)) now;
  }

  Ends-blocked :
      (hooks : ℕ) (context : Context) (scan : Scan)
      → Sound strings scan
      → Ends (suc hooks) false context (with_block scan (with_headers scan context))
  Ends-blocked hooks context scan v = record {
    headers = scan.headers;
    safe = v.headers_safe;
    few = omega (arith, v.few_headers, v.few_rows);
    leaves = inr (scan.blocked_status, scan.blocked_body, v.status_valid, v.body_short, refl);
  }

  -- The hooks after one that let the request go on.
  Ends-later :
      (hooks : ℕ) (goes_on : Bool) (context end : Context) (found : List (Text × Text))
      → all (λ h. is_safe_response_header strings h.0 h.1) found ≡ true
      → length found ≤ 64
      → Ends hooks goes_on (appending found context) end
      → Ends (suc hooks) goes_on context end
  Ends-later hooks goes_on context end found safe few later = record {
    headers = found ++ later.headers;
    safe = all-append _ found later.headers ∙ ground (arith, later.safe);
    few = omega (arith, length-append found later.headers, later.few);
    leaves =
        subst (λ h. Leaves goes_on (record context { response_headers = h }) end)
          (append_assoc context.response_headers found later.headers) later.leaves;
  }

module _ {S V : Type 0} (strings : StringUtil) (values : Values V) (db : Database S V)
    (authenticated : Bool) (claims : List (Text × Text)) where
  run_hook-Sound :
      (s : S) (context : Context) (definition : Middleware) (scan : Scan)
      → (run_hook strings values db s authenticated claims context definition).1 ≡ ok scan
      → Sound strings scan
  unfolding run_hook
  run_hook-Sound s context definition scan h =
      elim (Result-cases (ready_hook strings values db s authenticated claims context definition)) [
        | inr (stop, e) ↦ absurd (err-ne-ok (rw (e, run_hook) at h))
        | inl ((sql, bound, timeout_ms), e) ↦
            let (result, ran, ok1, ok2, ok3, sound, says) =
              read_result_blocks strings values (db.execute s sql bound timeout_ms).1 scan
                (rw (e, run_hook) at h) in
            sound
      ]

  abbrev hooks_from : List Middleware → S → Context → S × Bool × Context
  hooks_from = run_hooks strings values db authenticated claims

  run_hooks-Ends :
      (hooks : List Middleware) (s : S) (context : Context)
      → Ends strings
          (length hooks)
          (hooks_from hooks s context).1
          context
          (hooks_from hooks s context).2
  unfolding run_hooks
  run_hooks-Ends [] s context = Ends-now strings 0 true context context refl
  run_hooks-Ends (m ∷ ms) s context =
      let hook = run_hook strings values db s authenticated claims context m in
      elim (Result-cases hook.1) [
        | inr (stop, e) ↦
            rw (e, run_hooks)
              (Ends-now strings _ false context (stopped stop context)
                (stopped-Refused strings stop context))
        | inl (scan, e) ↦
            let sound = run_hook-Sound s context m scan e in
            elim (Bool-cases scan.blocked) [
              | inl blocks ↦
                  rw (e, blocks, run_hooks) (Ends-blocked strings (length ms) context scan sound)
              | inr passes ↦
                  rw (e, passes, run_hooks)
                    (Ends-later strings (length ms) _ context _ scan.headers sound.headers_safe
                      (omega (arith, sound.few_headers, sound.few_rows))
                      (run_hooks-Ends ms hook.0 (with_headers scan context)))
            ]
      ]

  -- ExecuteQuackapiMiddleware appends safe response headers to the context, at most 64 for each hook of the snapshot, and
  -- nothing else where it returns true. Where it returns false, the context has 401 and its detail, or 500 or 408 with
  -- their details and `middleware_failed`, or a status from 100 to 599 and a body of at most 1 MiB, and the rest of it is
  -- unchanged.
  pub execute_middleware-Ends :
      (registry : MiddlewareRegistry) (phase : MiddlewarePhase) (group_name : Text) (s : S)
      (context : Context)
      → let ran =
          execute_middleware strings values db registry phase group_name authenticated claims s
            context in
        Ends strings (length (snapshot phase group_name registry)) ran.1 context ran.2
  unfolding execute_middleware
  execute_middleware-Ends registry phase group_name s context =
      run_hooks-Ends (snapshot phase group_name registry) s context
