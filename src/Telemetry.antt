-- ===== src/Telemetry.antt =====
-- What src/quackapi_server.cpp writes of a request to its log: SanitizeClientRequestId,
-- MakeTraceContext, RedactedHeaders and RedactRawQuery, with their helpers. StringUtil::Contains,
-- Split and Trim and httplib's decode_query_component are parameters.
pub mod Trace
pub mod Redaction
use quackapi.Base.{
  ℕ, zero, suc, ◌+◌, ◌-◌, ◌*◌, ◌%◌, leb, Bool, true, false, not, ◌&&◌, ◌||◌, List, [], ◌∷◌, ◌++◌,
  map, none, some, any, all, filter, length, ◌==◌, if◌then◌else◌,
}
use quackapi.Text.{Text, codes, text_eq, empty}
use quackapi.Strings.{StringUtil}
use quackapi.Auth.{split_at}
use quackapi.Router.{skip}
use quackapi.Middleware.Parse.{take}

-- The loop of SanitizeClientRequestId, with the room that is left of the 128 bytes.
unfoldable pub sanitize_from : ℕ → Text → Text
sanitize_from zero s = []
sanitize_from (suc room) [] = []
sanitize_from (suc room) (c ∷ s) =
    let kept = c ∷ sanitize_from room s in
    let passed = sanitize_from (suc room) s in if leb 33 c && leb c 126 then kept else passed

unfoldable pub sanitize_client_request_id : Text → Text
unfolding sanitize_from
sanitize_client_request_id s = sanitize_from 128 s

unfoldable pub is_hex_string : Text → Bool
is_hex_string s =
    all
      (λ c. (leb b'0' c && leb c b'9') || (leb b'a' c && leb c b'f') || (leb b'A' c && leb c b'F'))
      s

unfoldable pub is_all_zero : Text → Bool
is_all_zero s = all (λ c. c == b'0') s

-- Of a UUID without its dashes.
unfoldable pub random_trace_hex : Text → ℕ → Text
random_trace_hex raw n = if n == 16 then take n (skip 16 raw) else take n raw

pub record TraceContext : Type 0 where
  pub trace_id : Text
  pub span_id : Text
  pub parent_span_id : Text
  pub sampled : Bool

-- `s[i] == c`
abbrev pub byte_at : ℕ → Text → ℕ → Bool
byte_at i s c = text_eq (take 1 (skip i s)) (c ∷ [])

-- The digit's value, of a hexadecimal digit.
abbrev hex_digit : ℕ → ℕ
hex_digit c = if leb c b'9' then c - b'0' else if leb c b'F' then c - b'A' + 10 else c - b'a' + 10

-- `strtoul(s, nullptr, 16)` of hexadecimal digits.
abbrev strtoul : ℕ → Text → ℕ
strtoul acc [] = acc
strtoul acc (c ∷ s) = strtoul (acc * 16 + hex_digit c) s

abbrev pub is_sampled : Text → Bool
is_sampled flags = strtoul 0 flags % 2 == 1

-- The traceparent of a request that is taken over: its form, and the tests of its parts.
unfoldable pub accepts : Text → Bool
unfolding is_hex_string is_all_zero
accepts traceparent =
    length traceparent == 55
    && byte_at 2 traceparent b'-'
    && byte_at 35 traceparent b'-'
    && byte_at 52 traceparent b'-'
    && text_eq (take 2 traceparent) (codes "00")
    && is_hex_string (take 32 (skip 3 traceparent))
    && is_hex_string (take 16 (skip 36 traceparent))
    && is_hex_string (take 2 (skip 53 traceparent))
    && not (is_all_zero (take 32 (skip 3 traceparent)))
    && not (is_all_zero (take 16 (skip 36 traceparent)))

-- `trace_uuid` and `span_uuid` are the two UUIDs that are drawn.
unfoldable pub make_trace_context : StringUtil → Text → Text → Text → TraceContext
unfolding accepts random_trace_hex
make_trace_context strings trace_uuid span_uuid traceparent =
    if accepts traceparent
    then record {
      trace_id = strings.lower (take 32 (skip 3 traceparent));
      span_id = random_trace_hex span_uuid 16;
      parent_span_id = strings.lower (take 16 (skip 36 traceparent));
      sampled = is_sampled (take 2 (skip 53 traceparent));
    }
    else record {
      trace_id = random_trace_hex trace_uuid 32;
      span_id = random_trace_hex span_uuid 16;
      parent_span_id = [];
      sampled = true;
    }

module _ (strings : StringUtil) (contains : Text → Text → Bool) where
  unfoldable pub is_denied_header_name : Text → Bool
  is_denied_header_name name =
      any (text_eq name) (
        codes "authorization"
        ∷ codes "proxy-authorization"
        ∷ codes "cookie"
        ∷ codes "set-cookie"
        ∷ codes "x-api-key"
        ∷ [])
      || any (contains name) (codes "token" ∷ codes "secret" ∷ codes "password" ∷ [])

  -- The names of the list, of which `split` gives the parts.
  abbrev pub allowed_names : (Text → List Text) → (Text → Text) → Text → List Text
  allowed_names split trim allowlist =
      filter (λ name. not (empty name)) (map (λ name. strings.lower (trim name)) (split allowlist))

  abbrev pub redacted_header : Text → Text → Text × Text
  redacted_header name value =
      (name, if is_denied_header_name name then codes "[REDACTED]" else value)

  -- The loop of RedactedHeaders: the first header of each name that is allowed.
  unfoldable pub redacted_headers :
      List Text → List (Text × Text) → List (Text × Text) → List (Text × Text)
  unfolding is_denied_header_name
  redacted_headers allowed result [] = result
  redacted_headers allowed result ((key, value) ∷ headers) =
      let name = strings.lower key in
      redacted_headers allowed
        (if any (text_eq name) allowed && not (any (λ entry. text_eq entry.0 name) result)
          then result ++ redacted_header name value ∷ []
          else result)
        headers

  module _ (decode : Text → Text) where
    unfoldable pub is_denied_query_key : Text → Bool
    is_denied_query_key raw_key = any (contains (strings.lower (decode raw_key))) (
        codes "token"
        ∷ codes "key"
        ∷ codes "secret"
        ∷ codes "password"
        ∷ codes "sig"
        ∷ codes "code"
        ∷ codes "auth"
        ∷ [])

    -- A pair without an equals sign is its key.
    unfoldable pub redact_pair : Text → Text
    unfolding is_denied_query_key
    redact_pair pair = elim (split_at b'=' pair) [
      | none ↦ pair ++ (if is_denied_query_key pair then codes "=[REDACTED]" else [])
      | some (raw_key, value) ↦
          raw_key ++ (if is_denied_query_key raw_key then codes "=[REDACTED]" else b'=' ∷ value)
    ]

    -- The loop of RedactRawQuery, on the bytes of the pair that has begun and those that follow.
    unfoldable pub redact_from : Text → Text → Text
    unfolding redact_pair
    redact_from pair [] = redact_pair pair
    redact_from pair (c ∷ s) =
        let rest = redact_from (if c == b'&' then [] else pair ++ c ∷ []) s in
        if c == b'&' then redact_pair pair ++ b'&' ∷ rest else rest

    unfoldable pub redact_raw_query : Text → Text
    unfolding redact_from
    redact_raw_query target = elim (split_at b'?' target) [
      | none ↦ []
      | some (path, query) ↦ redact_from [] query
    ]
