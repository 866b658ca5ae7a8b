-- ===== src/Middleware/Rows.antt =====
-- The rows of a hook's result, in ExecuteQuackapiMiddleware: what each row says, and the loop over them.
use quackapi.Base.{
  ℕ, ◌+◌, leb, ltb, Bool, true, false, not, ◌&&◌, ◌||◌, List, [], ◌∷◌, ◌++◌, Option, none, some,
  length, ℤ, pos, negsuc, integer_eq, Result, ok, err, ◌>>=◌, if◌then◌else◌,
}
use quackapi.Text.{Text, codes, text_eq}
use quackapi.Strings.{StringUtil}
use quackapi.Middleware.{max_result_rows, max_body_bytes}
use quackapi.Middleware.Headers.{is_safe_response_header}
use quackapi.Middleware.Columns.{Columns}

-- DuckDB's `Value`, with the constructors and the members that the source uses.
pub record Values (V : Type 0) : Type 0 where
  pub null : V
  pub text : Text → V
  -- INTEGER and BIGINT
  pub integer : ℤ → V
  pub bigint : ℤ → V
  pub is_null : V → Bool
  pub get_bool : V → Bool
  pub get_int32 : V → ℤ
  pub to_text : V → Text

-- Why a hook stops the request without having said so: 401, or SetMiddlewareFailure with 500 or 408.
pub data Stop : Type 0 where
  not_authenticated failed timed_out : Stop

-- The variables of the loop over the rows.
pub record Scan : Type 0 where
  pub row_count : ℕ
  pub blocked : Bool
  pub blocked_status : ℤ
  pub blocked_body : Text
  pub headers : List (Text × Text)

abbrev pub rejected : Text
rejected = codes "{\"detail\":\"Request rejected by middleware\"}"

abbrev pub no_rows : Scan
no_rows = record {
  row_count = 0;
  blocked = false;
  blocked_status = pos 403;
  blocked_body = rejected;
  headers = [];
}

unfoldable pub is_valid_http_status : ℤ → Bool
is_valid_http_status (pos n) = leb 100 n && leb n 599
is_valid_http_status (negsuc n) = false

-- The row's headers: both columns hold a value, or neither.
unfoldable pub read_header :
    StringUtil
    → (name_null value_null : Bool) → (name value : Text) → Result Stop (List (Text × Text))
read_header strings true true name value = ok []
read_header strings false false name value =
    if is_safe_response_header strings name value then ok ((name, value) ∷ []) else err failed
read_header strings _ _ name value = err failed

-- A row that does not allow the request: all such rows have one status and one body.
unfoldable pub block : ℤ → Text → Scan → Result Stop Scan
block status_value body_value scan =
    if not (is_valid_http_status status_value)
    then err failed
    else if ltb max_body_bytes (length body_value)
    then err failed
    else if scan.blocked
        && (not (integer_eq scan.blocked_status status_value)
            || not (text_eq scan.blocked_body body_value))
    then err failed
    else ok
        (record scan { blocked = true; blocked_status = status_value; blocked_body = body_value })

module _ {V : Type 0} (strings : StringUtil) (values : Values V) where
  open values use {null, is_null, get_bool, get_int32, to_text}

  -- A row, as `chunk->GetValue(col, row)` reads it.
  abbrev pub Row : Type 0
  Row = ℕ → V

  abbrev pub cell : Option ℕ → Row → V
  cell none row = null
  cell (some col) row = row col

  unfoldable pub headers_of : Columns → Row → Result Stop (List (Text × Text))
  unfolding read_header
  headers_of columns row = elim columns.header_name_col [
    | none ↦ ok []
    | some col ↦
        let name = row col in
        let value = cell columns.header_value_col row in
        read_header strings (is_null name) (is_null value) (to_text name) (to_text value)
  ]

  abbrev pub status_or : V → ℤ
  status_or status = if is_null status then pos 403 else get_int32 status

  abbrev pub body_or : V → Text
  body_or body = if is_null body then rejected else to_text body

  -- The body of the loop.
  unfoldable pub scan_row : Columns → Row → Scan → Result Stop Scan
  unfolding headers_of block
  scan_row columns row scan =
      let allow = cell columns.allow_col row in
      let status = cell columns.status_col row in
      let body = cell columns.body_col row in
      if ltb max_result_rows (scan.row_count + 1)
      then err failed
      else if is_null allow
      then err failed
      else if get_bool allow && (not (is_null status) || not (is_null body))
      then err failed
      else (headers_of columns row >>= λ found.
          let read = record scan {
            row_count = scan.row_count + 1;
            headers = scan.headers ++ found;
          } in
          if get_bool allow then ok read else block (status_or status) (body_or body) read)

  unfoldable pub scan_rows : Columns → List Row → Scan → Result Stop Scan
  unfolding scan_row
  scan_rows columns [] scan = ok scan
  scan_rows columns (row ∷ rows) scan = scan_row columns row scan >>= scan_rows columns rows
