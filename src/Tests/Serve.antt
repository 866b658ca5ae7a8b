-- ===== src/Tests/Serve.antt =====
-- Requests on their whole way, on the schemes of Tests/Auth and the hooks of Tests/Middleware.
use quackapi.Base.{ℕ, suc, true, [], ◌∷◌, Option, none, some, ℤ, pos, ◌≡◌, refl}
use quackapi.Text.{codes, text_eq, to_string}
use quackapi.Strings.Ascii.{ascii, to_lower, prefix_of}
use quackapi.Crypto.{constant_time_equals}
use quackapi.Crypto.Plain.{plain_mbedtls}
use quackapi.Types.{Route}
use quackapi.Registry.Auths.{drop_auth, snapshot_api_keys}
use quackapi.Auth.Verify.{
  extract_auth_string, not_authenticated, verify_auth_scheme, check_auth, rate_limit_client_key,
}
use quackapi.RateLimit.{allow_rate_limit, lookup, charge, renew, store, rate_key}
use quackapi.Middleware.{created, snapshot}
use quackapi.Serve.{
  Incoming, Times, Reply, Limits, World, Admitted, json_reply, pairs_from, pairs_to_json_object,
}
use quackapi.Serve.Admit.{admit, rate_verdict, run_before}
use quackapi.Serve.Finish.{conclude, serve, run_after, bound_reply}
use quackapi.Serve.Laws.{IsAdmitted, Gates, admit-Gates, TurnedAway}
use quackapi.Serve.Closed.{Bounded, serve-Bounded, serve-drop_auth}
use quackapi.Tests.Auth.{registered, registered-IsValid, sample_json}
use quackapi.Tests.Middleware.{Cell, cells, denying}
use quackapi.Tests.Routes.{route_of_method}
use quackapi.Util.{json_escape, escape_byte}

abbrev limits : Limits
limits = record { query_timeout_ms = 30000; max_response_bytes = 60 }

abbrev incoming : Incoming
incoming = record {
  method = codes "GET";
  path = codes "/orders";
  body = [];
  headers = (codes "x-api-key", codes "k1") ∷ [];
  params = (codes "page", codes "\"2\"") ∷ [];
  remote_addr = codes "10.0.0.1";
  request_id = codes "7";
}

abbrev times : Times
times = record { now = 5; exp_now = 19; nbf_now = 19; elapsed_ms = 3; handled_ms = 8; ended_ms = 9 }

abbrev guarded : Route Cell
guarded = record (route_of_method (codes "orders") (codes "GET") (codes "/orders")) {
  require_auth = codes "keys";
}

abbrev world : World ℕ
world = record { auths = registered; middlewares = created; entries = []; database = 0 }

-- A handler that runs one statement.
abbrev one_row : Admitted → ℕ → ℕ × Reply
one_row a s = (suc s, json_reply (pos 200) (codes "[{\"id\":1}]"))

printed : pairs_to_json_object incoming.params ≡ codes "{\"page\":\"\\\"2\\\"\"}"
unfolding pairs_to_json_object pairs_from json_escape escape_byte
printed = refl

abbrev let_in : Admitted
let_in = record {
  authenticated = true;
  claims = (codes "sub", codes "ann") ∷ [];
  handler_sql = guarded.handler_sql;
  context = none;
}

ann-IsAdmitted :
    IsAdmitted
      (admit ascii plain_mbedtls sample_json cells denying limits incoming guarded times world).1
      let_in
unfolding admit rate_verdict run_before check_auth verify_auth_scheme snapshot_api_keys
    constant_time_equals extract_auth_string snapshot text_eq to_lower prefix_of
ann-IsAdmitted = refl

admit-Gates_example :
    Gates ascii plain_mbedtls sample_json cells denying limits incoming guarded times world let_in
admit-Gates_example =
    admit-Gates ascii plain_mbedtls sample_json cells denying limits incoming guarded times world
      let_in ann-IsAdmitted

serve-Bounded_example :
    Bounded limits
      (serve ascii cells denying limits plain_mbedtls sample_json one_row incoming guarded times
        world).1
serve-Bounded_example =
    serve-Bounded ascii plain_mbedtls sample_json cells denying limits one_row incoming guarded
      times world

abbrev without_keys : World ℕ
without_keys = record world { auths = (drop_auth ascii (codes "KEYS") registered).1 }

serve-drop_auth_example :
    TurnedAway ascii plain_mbedtls sample_json cells denying limits incoming guarded times
      without_keys
      (not_authenticated [])
      (serve ascii cells denying limits plain_mbedtls sample_json one_row incoming guarded times
        without_keys)
unfolding text_eq to_lower
serve-drop_auth_example =
    serve-drop_auth ascii plain_mbedtls sample_json cells denying limits one_row incoming guarded
      times world (codes "KEYS") registered-IsValid refl refl

-- An answer of one byte more than the limit.
abbrev long_reply : Reply
long_reply =
    json_reply (pos 200) (codes "0123456789012345678901234567890123456789012345678901234567890")

too_long : (bound_reply ascii limits 9 long_reply).status ≡ pos 507
unfolding bound_reply
too_long = refl

served :
    serve ascii cells denying limits plain_mbedtls sample_json one_row incoming guarded times world
    ≡ (record world { database = 1 }, some (json_reply (pos 200) (codes "[{\"id\":1}]")))
unfolding serve conclude run_after bound_reply admit rate_verdict run_before check_auth
    verify_auth_scheme snapshot_api_keys constant_time_equals extract_auth_string snapshot text_eq
    to_lower prefix_of
served = refl

abbrev status_of : Option Reply → ℤ
status_of none = pos 0
status_of (some reply) = reply.status

-- Two calls in a minute are one too many: the limit counts them, and the second stops there.
abbrev limited : Route Cell
limited = record guarded { rate_limit_n = 1; rate_limit_per_sec = 60 }

abbrev second_call : World ℕ × Option Reply
second_call =
    serve ascii cells denying limits plain_mbedtls sample_json one_row incoming limited times
      (serve ascii cells denying limits plain_mbedtls sample_json one_row incoming limited times
        world).0

limited_once : (second_call.0.database ≡ 1) × (status_of second_call.1 ≡ pos 429)
unfolding serve conclude run_after bound_reply admit rate_verdict run_before check_auth
    rate_limit_client_key allow_rate_limit verify_auth_scheme snapshot_api_keys constant_time_equals
    extract_auth_string snapshot text_eq to_lower prefix_of to_string lookup charge renew store
    rate_key
limited_once = (refl, refl)
