-- ===== src/Tests/Middleware.antt =====
-- Middleware on concrete statements, registries and results.
use quackapi.Base.{
  ℕ, zero, suc, Bool, true, false, List, [], ◌∷◌, none, some, ℤ, pos, ok, err, ◌≡◌, refl, arith,
  integer_eq,
}
use quackapi.Text.{Text, codes, text_eq}
use quackapi.Strings.Ascii.{ascii, to_lower, to_upper, prefix_of}
use quackapi.Auth.{skip_space}
use quackapi.Ddl.{trim, trim_end}
use quackapi.Middleware.{
  Middleware, before, Context, created, is_middleware_name, add, drop, snapshot,
}
use quackapi.Middleware.Parse.{
  parse, parse_create, parse_drop, parse_declaration, parse_phase, parse_sql,
  find_standalone_keyword, scan_keyword, whitespace_tokens, tokens_from, create_middleware,
  bad_phase, apply, invalid_handler,
}
use quackapi.Middleware.Checks.{apply-parse}
use quackapi.Middleware.Headers.{
  is_safe_response_header, is_http_token_char, is_forbidden_response_header,
}
use quackapi.Middleware.Columns.{
  boolean_type, integer_type, varchar_type, control_of, slot, set_slot, find_columns, type_at,
  typed, get_result_columns,
}
use quackapi.Middleware.Rows.{
  Values, Scan, is_valid_http_status, read_header, headers_of, block, scan_row, scan_rows,
}
use quackapi.Middleware.Results.{no_chunk, chunk, QueryResult, contract, read_chunks, read_result}
use quackapi.Middleware.Execute.{
  Database, named_parameters, is_claims_parameter, remaining_timeout_millis, request_value,
  parameter_value, bind_values, bind_hook, ready_hook, run_hook, run_hooks, execute_middleware,
}
use quackapi.Middleware.Order.{Schedule}
use quackapi.Middleware.Outcome.{Sound}
use quackapi.Middleware.Chunks.{Says, read_result_blocks}
use quackapi.Middleware.Closed.{Ends, execute_middleware-Ends}
use quackapi.Middleware.Laws.{
  IsValid, Call, add_call, call, after_calls, after_calls-IsValid, snapshot-Schedule,
}

abbrev hook : Text → Text → Middleware
hook name group_name = record {
  name = name;
  phase = before;
  group_name = group_name;
  handler_sql = codes "SELECT false AS allow";
  registration_order = 0;
}

abbrev statement : Text
statement = codes " Create middleware audit before group api as SELECT false AS allow; "

parsed : parse ascii statement ≡ ok (create_middleware false (hook (codes "audit") (codes "api")))
unfolding parse parse_create parse_drop parse_declaration parse_phase parse_sql
    find_standalone_keyword scan_keyword whitespace_tokens tokens_from trim trim_end skip_space
    is_middleware_name to_lower to_upper prefix_of text_eq
parsed = refl

no_phase : parse ascii (codes "CREATE MIDDLEWARE audit during AS SELECT 1") ≡ err bad_phase
unfolding parse parse_create parse_drop parse_declaration parse_phase parse_sql
    find_standalone_keyword scan_keyword whitespace_tokens tokens_from trim trim_end skip_space
    is_middleware_name to_lower to_upper prefix_of text_eq
no_phase = refl

apply-parse_example :
    apply (λ _. false) (create_middleware false (hook (codes "audit") (codes "api"))) created
    ≡ err (invalid_handler (codes "audit"))
apply-parse_example =
    apply-parse ascii (λ _. false) statement false (hook (codes "audit") (codes "api")) parsed
      created

abbrev three_calls : List Call
three_calls =
    add_call true (hook (codes "audit") (codes "api"))
    ∷ add_call false (hook (codes "limit") [])
    ∷ add_call false (hook (codes "audit") (codes "api"))
    ∷ []

after_calls-IsValid_example : IsValid (after_calls three_calls)
after_calls-IsValid_example = after_calls-IsValid three_calls (omega arith)

snapshot-Schedule_example :
    Schedule before
      (codes "api")
      (after_calls three_calls).middlewares
      (snapshot before (codes "api") (after_calls three_calls))
snapshot-Schedule_example = snapshot-Schedule three_calls (omega arith) before (codes "api")

global_first :
    snapshot before (codes "api") (after_calls three_calls)
    ≡ record (hook (codes "limit") []) { registration_order = 2 }
      ∷ record (hook (codes "audit") (codes "api")) { registration_order = 1 }
      ∷ []
unfolding snapshot after_calls call add drop text_eq
global_first = refl

-- A table of DuckDB's values.
pub data Cell : Type 0 where
  null_cell : Cell
  bool_cell : Bool → Cell
  integer_cell : ℤ → Cell
  text_cell : Text → Cell

abbrev pub cells : Values Cell
cells = record {
  null = null_cell;
  text = text_cell;
  integer = integer_cell;
  bigint = integer_cell;
  is_null = λ c. elim c [
    | null_cell ↦ true
    | bool_cell _ ↦ false
    | integer_cell _ ↦ false
    | text_cell _ ↦ false
  ];
  get_bool = λ c. elim c [
    | null_cell ↦ false
    | bool_cell b ↦ b
    | integer_cell _ ↦ false
    | text_cell _ ↦ false
  ];
  get_int32 = λ c. elim c [
    | null_cell ↦ pos 0
    | bool_cell _ ↦ pos 0
    | integer_cell n ↦ n
    | text_cell _ ↦ pos 0
  ];
  to_text =
      λ c. elim c [ null_cell ↦ [] | bool_cell _ ↦ [] | integer_cell _ ↦ [] | text_cell t ↦ t ];
}

-- allow, status, header_name and header_value of a row that stops the request with 429.
abbrev denial : ℕ → Cell
denial zero = bool_cell false
denial (suc zero) = integer_cell (pos 429)
denial (suc (suc zero)) = text_cell (codes "Retry-After")
denial _ = text_cell (codes "60")

abbrev answer : QueryResult Cell
answer = record {
  has_error = false;
  expired = false;
  names = codes "Allow" ∷ codes "status" ∷ codes "header_name" ∷ codes "header_value" ∷ [];
  types = boolean_type ∷ integer_type ∷ varchar_type ∷ varchar_type ∷ [];
  fetches = chunk (denial ∷ denial ∷ []) no_chunk;
  late = false;
}

abbrev end_scan : Scan
end_scan = record {
  row_count = 2;
  blocked = true;
  blocked_status = pos 429;
  blocked_body = codes "{\"detail\":\"Request rejected by middleware\"}";
  headers = (codes "Retry-After", codes "60") ∷ (codes "Retry-After", codes "60") ∷ [];
}

answer_read : read_result ascii cells (some answer) ≡ ok end_scan
unfolding read_result read_chunks contract get_result_columns find_columns control_of slot set_slot
    typed type_at scan_rows scan_row headers_of read_header is_safe_response_header
    is_http_token_char is_forbidden_response_header block is_valid_http_status integer_eq to_lower
    text_eq
answer_read = refl

read_result_blocks_example :
    (result : QueryResult Cell) × (some answer ≡ some result)
    × (result.has_error ≡ false)
    × (result.expired ≡ false)
    × (result.late ≡ false)
    × Sound ascii end_scan
    × Says ascii cells result end_scan
read_result_blocks_example = read_result_blocks ascii cells (some answer) end_scan answer_read

-- A database that answers every statement with the denial, and counts the statements.
abbrev pub denying : Database ℕ Cell
denying = record {
  rewrite = λ s sql authenticated.
      some (record { deny_unauthenticated = false; policy_error = []; sql = sql });
  prepare = λ s sql. named_parameters (codes "Claims_role" ∷ codes "client_ip" ∷ []);
  deadline = λ s. none;
  execute = λ s sql bound timeout_ms. (suc s, some answer);
}

abbrev request : Context
request = record {
  method = codes "GET";
  path = codes "/items";
  route_name = codes "items";
  group_name = codes "api";
  request_id = codes "1";
  request_body = [];
  headers_json = codes "{}";
  query_json = codes "{}";
  client_ip = codes "10.0.0.1";
  auth_subject = [];
  status = pos 0;
  response_body = [];
  response_headers = [];
  timeout_ms = pos 30000;
  elapsed_ms = pos 0;
  middleware_failed = false;
}

abbrev ran_request : ℕ × Bool × Context
ran_request =
    execute_middleware ascii cells denying (after_calls three_calls) before (codes "api") true [] 0
      request

execute_middleware-Ends_example : Ends ascii 2 ran_request.1 request ran_request.2
unfolding snapshot after_calls call add drop text_eq
execute_middleware-Ends_example =
    execute_middleware-Ends ascii cells denying true [] (after_calls three_calls) before
      (codes "api") 0 request

-- The second hook of the snapshot does not run.
first_denies : (ran_request.0 ≡ 1) × (ran_request.1 ≡ false) × (ran_request.2.status ≡ pos 429)
unfolding execute_middleware run_hooks run_hook ready_hook bind_hook bind_values parameter_value
    request_value is_claims_parameter remaining_timeout_millis prefix_of snapshot after_calls call
    add drop read_result read_chunks contract get_result_columns find_columns control_of slot
    set_slot typed type_at scan_rows scan_row headers_of read_header is_safe_response_header
    is_http_token_char is_forbidden_response_header block is_valid_http_status integer_eq to_lower
    text_eq
first_denies = (refl, refl, refl)
