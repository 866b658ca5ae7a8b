-- ===== src/Tests/Telemetry.antt =====
-- What reaches the log of two requests.
use quackapi.Base.{Bool, true, ◌||◌, List, [], ◌∷◌, ◌++◌, ◌≡◌, refl, inl, inr}
use quackapi.Text.{Text, codes, text_eq}
use quackapi.Strings.Ascii.{ascii, to_lower, prefix_of}
use quackapi.Auth.{split_at}
use quackapi.Telemetry.{
  sanitize_from, sanitize_client_request_id, is_hex_string, is_all_zero, random_trace_hex, accepts,
  is_sampled, make_trace_context, is_denied_header_name, redacted_headers, is_denied_query_key,
  redact_pair, redact_from, redact_raw_query,
}
use quackapi.Telemetry.Trace.{traceparent, make_trace_context-traceparent}
use quackapi.Telemetry.Redaction.{joined, redacted_headers_blind, redact_raw_query_blind}

-- StringUtil::Contains
unfoldable contains : Text → Text → Bool
unfolding prefix_of
contains [] part = prefix_of [] part
contains (c ∷ s) part = prefix_of (c ∷ s) part || contains s part

-- 9 and 127 are no visible bytes.
sanitized : sanitize_client_request_id (9 ∷ codes "a b" ++ 127 ∷ []) ≡ codes "ab"
unfolding sanitize_client_request_id sanitize_from
sanitized = refl

abbrev trace : Text
trace = codes "4bf92f3577b34da6a3ce929d0e0e4736"

abbrev span : Text
span = codes "00f067aa0ba902b7"

abbrev uuid : Text
uuid = codes "0190163d8694739baea5966c26f8ad91"

make_trace_context-traceparent_example :
    make_trace_context ascii uuid uuid (traceparent trace span (codes "01")) ≡ record {
      trace_id = trace;
      span_id = random_trace_hex uuid 16;
      parent_span_id = span;
      sampled = is_sampled (codes "01");
    }
unfolding is_hex_string is_all_zero to_lower
make_trace_context-traceparent_example =
    make_trace_context-traceparent trace span (codes "01") refl refl ascii uuid uuid refl refl refl
      refl refl refl refl refl

drawn : make_trace_context ascii uuid uuid (codes "00-0") ≡ record {
  trace_id = uuid;
  span_id = codes "aea5966c26f8ad91";
  parent_span_id = [];
  sampled = true;
}
unfolding make_trace_context accepts random_trace_hex
drawn = refl

redact_raw_query_blind_example :
    redact_raw_query ascii contains
      (λ s. s)
      (codes "/p" ++ b'?' ∷ joined (codes "a=1" ∷ (codes "api_key" ++ b'=' ∷ codes "s3") ∷ []))
    ≡ redact_raw_query ascii contains
        (λ s. s)
        (codes "/p" ++ b'?' ∷ joined (codes "a=1" ∷ (codes "api_key" ++ b'=' ∷ codes "x") ∷ []))
unfolding is_denied_query_key contains to_lower prefix_of
redact_raw_query_blind_example =
    redact_raw_query_blind ascii contains (λ s. s) (codes "/p") (codes "a=1" ∷ []) []
      (codes "api_key") (codes "s3") (codes "x") refl refl refl refl refl

redacted :
    redact_raw_query ascii contains (λ s. s) (codes "/p?a=1&Token=x=y&&sig&")
    ≡ codes "a=1&Token=[REDACTED]&&sig=[REDACTED]&"
unfolding redact_raw_query redact_from redact_pair split_at is_denied_query_key contains to_lower
    prefix_of
redacted = refl

abbrev allowed : List Text
allowed = codes "accept" ∷ codes "x-token" ∷ []

redacted_headers_blind_example :
    redacted_headers ascii contains allowed []
      ((codes "X-Token", codes "s3") ∷ (codes "Accept", codes "text/csv") ∷ [])
    ≡ redacted_headers ascii contains allowed []
        ((codes "X-Token", codes "") ∷ (codes "Accept", codes "text/csv") ∷ [])
unfolding is_denied_header_name contains to_lower prefix_of text_eq
redacted_headers_blind_example =
    redacted_headers_blind ascii contains allowed []
      ((codes "X-Token", codes "s3") ∷ (codes "Accept", codes "text/csv") ∷ [])
      ((codes "X-Token", codes "") ∷ (codes "Accept", codes "text/csv") ∷ [])
      (refl, inl refl, (refl, inr refl, tt))

logged :
    redacted_headers ascii contains allowed [] (
      (codes "X-Token", codes "s3")
      ∷ (codes "Cookie", codes "c")
      ∷ (codes "ACCEPT", codes "a")
      ∷ (codes "accept", codes "b")
      ∷ [])
    ≡ (codes "x-token", codes "[REDACTED]") ∷ (codes "accept", codes "a") ∷ []
unfolding redacted_headers is_denied_header_name contains to_lower prefix_of text_eq
logged = refl
