-- ===== src/Telemetry/Trace.antt =====
-- The ids of a request: those that it brings and those that are drawn.
use quackapi.Base.{
  ℕ, zero, suc, ◌+◌, leb, Bool, true, false, ◌&&◌, [], ◌∷◌, ◌++◌, length, ◌≡◌, refl, sym, ap, ◌∙◌,
  arith, length-append, append-nil,
}
use quackapi.Text.{Text, codes, text_eq}
use quackapi.Strings.{StringUtil}
use quackapi.Router.{skip}
use quackapi.Middleware.Parse.{take}
use quackapi.Telemetry.{
  is_hex_string, is_all_zero, random_trace_hex, accepts, is_sampled, make_trace_context,
}

abbrev pub printable : ℕ → Bool
printable c = leb 33 c && leb c 126

skip_nil : (n : ℕ) → skip n [] ≡ []
skip_nil zero = refl
skip_nil (suc n) = refl

skip_add : (m n : ℕ) (s : Text) → skip (m + n) s ≡ skip n (skip m s)
skip_add zero n s = ap (λ k. skip k s) (omega arith)
skip_add (suc m) n [] = skip_nil (suc m + n) ∙ sym (skip_nil n)
skip_add (suc m) n (c ∷ s) =
    let more : suc m + n ≡ suc (m + n) = omega arith in
    ap (λ k. skip k (c ∷ s)) more ∙ skip_add m n s

skip-length : (n : ℕ) (xs ys : Text) → length xs ≡ n → skip n (xs ++ ys) ≡ ys
skip-length zero [] ys h = refl
skip-length zero (x ∷ xs) ys h = absurd (omega arith)
skip-length (suc n) [] ys h = absurd (omega arith)
skip-length (suc n) (x ∷ xs) ys h = skip-length n xs ys (omega arith)

take-length : (n : ℕ) (xs ys : Text) → length xs ≡ n → take n (xs ++ ys) ≡ xs
take-length zero [] ys h = refl
take-length zero (x ∷ xs) ys h = absurd (omega arith)
take-length (suc n) [] ys h = absurd (omega arith)
take-length (suc n) (x ∷ xs) ys h = ap (λ rest. x ∷ rest) (take-length n xs ys (omega arith))

-- The form of a traceparent header of version 00.
abbrev pub traceparent : Text → Text → Text → Text
traceparent trace span flags = codes "00-" ++ (trace ++ b'-' ∷ (span ++ b'-' ∷ flags))

module _ (trace span flags : Text) (traces : length trace ≡ 32) (spans : length span ≡ 16) where
  abbrev header : Text
  header = traceparent trace span flags

  after_trace : skip 35 header ≡ b'-' ∷ (span ++ b'-' ∷ flags)
  after_trace = skip_add 3 32 header ∙ skip-length 32 trace (b'-' ∷ (span ++ b'-' ∷ flags)) traces

  after_span : skip 52 header ≡ b'-' ∷ flags
  after_span =
      skip_add 36 16 header
      ∙ ap (skip 16) (skip_add 35 1 header ∙ ap (skip 1) after_trace)
      ∙ skip-length 16 span (b'-' ∷ flags) spans

  trace_part : take 32 (skip 3 header) ≡ trace
  trace_part = take-length 32 trace (b'-' ∷ (span ++ b'-' ∷ flags)) traces

  span_part : take 16 (skip 36 header) ≡ span
  span_part =
      ap (take 16) (skip_add 35 1 header ∙ ap (skip 1) after_trace)
      ∙ take-length 16 span (b'-' ∷ flags) spans

  flags_part : length flags ≡ 2 → take 2 (skip 53 header) ≡ flags
  flags_part n =
      ap (take 2) (skip_add 52 1 header ∙ ap (skip 1) after_span)
      ∙ ap (take 2) (sym (append-nil flags))
      ∙ take-length 2 flags [] n

  header-length : length flags ≡ 2 → length header ≡ 55
  header-length n =
      let tail = length-append span (b'-' ∷ flags) in
      let whole = length-append trace (b'-' ∷ (span ++ b'-' ∷ flags)) in omega arith

  accepts-header :
      length flags ≡ 2
      → is_hex_string trace ≡ true
      → is_hex_string span ≡ true
      → is_hex_string flags ≡ true
      → is_all_zero trace ≡ false
      → is_all_zero span ≡ false
      → accepts header ≡ true
  unfolding accepts text_eq
  accepts-header n hex_trace hex_span hex_flags trace_set span_set =
      rw
        (
          header-length n,
          after_trace,
          after_span,
          trace_part,
          span_part,
          flags_part n,
          hex_trace,
          hex_span,
          hex_flags,
          trace_set,
          span_set,
          accepts,
        )
        refl

  -- MakeTraceContext takes over a traceparent of version 00 with a trace id of 32 and a parent of 16
  -- lower case hexadecimal digits, not all zero, and two digits of flags: the context has that trace
  -- id and that parent, and the flag of sampling is the lowest bit of the flags.
  pub make_trace_context-traceparent :
      (strings : StringUtil) (trace_uuid span_uuid : Text)
      → length flags ≡ 2
      → is_hex_string trace ≡ true
      → is_hex_string span ≡ true
      → is_hex_string flags ≡ true
      → is_all_zero trace ≡ false
      → is_all_zero span ≡ false
      → strings.lower trace ≡ trace
      → strings.lower span ≡ span
      → make_trace_context strings trace_uuid span_uuid header ≡ record {
        trace_id = trace;
        span_id = random_trace_hex span_uuid 16;
        parent_span_id = span;
        sampled = is_sampled flags;
      }
  unfolding make_trace_context
  make_trace_context-traceparent strings trace_uuid span_uuid n ht hs hf tz sz lt ls =
      rw
        (
          accepts-header n ht hs hf tz sz,
          trace_part,
          span_part,
          flags_part n,
          lt,
          ls,
          make_trace_context,
        )
        refl
