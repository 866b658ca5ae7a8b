-- ===== src/Middleware/Parse.antt =====
-- CREATE [OR REPLACE] and DROP MIDDLEWARE: FindStandaloneKeyword, WhitespaceTokens, MiddlewareDdlParse and
-- ApplyMiddlewareExec.
use quackapi.Base.{
  ℕ, zero, suc, ◌+◌, ◌-◌, ltb, Bool, true, false, not, ◌&&◌, ◌||◌, List, [], ◌∷◌, ◌++◌, Option,
  none, some, length, Result, ok, err, ◌>>=◌, ◌==◌, if◌then◌else◌,
}
use quackapi.Text.{Text, codes, text_eq, empty}
use quackapi.Strings.{StringUtil}
use quackapi.Router.{skip}
use quackapi.Ddl.{trim}
use quackapi.Middleware.{
  Middleware, MiddlewarePhase, before, after, MiddlewareRegistry, RegistryError, max_sql_bytes,
  is_middleware_name, phase_name, add, drop,
}

-- `substr(0, n)`
abbrev pub take : ℕ → Text → Text
take zero s = []
take (suc n) [] = []
take (suc n) (c ∷ s) = c ∷ take n s

-- IsWhitespaceBoundary, of the text from the position on.
abbrev boundary : StringUtil → Text → Bool
boundary strings [] = true
boundary strings (c ∷ _) = strings.is_space c

-- The loop of FindStandaloneKeyword: the text from `position` on, and whether a space or nothing is before it.
unfoldable pub scan_keyword : StringUtil → Text → ℕ → Bool → Text → Option ℕ
scan_keyword strings keyword position spaced [] = none
scan_keyword strings keyword position spaced (c ∷ s) =
    let later = scan_keyword strings keyword (position + 1) (strings.is_space c) s in
    if text_eq (take (length keyword) (c ∷ s)) keyword
      && spaced
      && boundary strings (skip (length keyword) (c ∷ s))
    then some position
    else later

unfoldable pub find_standalone_keyword : StringUtil → Text → Text → ℕ → Option ℕ
unfolding scan_keyword
find_standalone_keyword strings upper keyword start =
    let spaced =
      start == 0 || (ltb (start - 1) (length upper) && boundary strings (skip (start - 1) upper)) in
    scan_keyword strings keyword start spaced (skip start upper)

abbrev closed : Text → List Text → List Text
closed current tokens = if empty current then tokens else current ∷ tokens

-- The loop of WhitespaceTokens, with the token that is being read.
unfoldable pub tokens_from : StringUtil → Text → Text → List Text
tokens_from strings current [] = closed current []
tokens_from strings current (c ∷ s) =
    if strings.is_space c
    then closed current (tokens_from strings [] s)
    else tokens_from strings (current ++ c ∷ []) s

unfoldable pub whitespace_tokens : StringUtil → Text → List Text
unfolding tokens_from
whitespace_tokens strings input = tokens_from strings [] input

-- The messages of MiddlewareDdlParse.
pub data ParseError : Type 0 where
  drop_expects_name no_as_keyword bad_declaration bad_name bad_phase bad_group no_sql : ParseError
  sql_too_long : ParseError

-- MiddlewareDdlParseData, by its `action`.
pub data Statement : Type 0 where
  not_ours : Statement
  drop_middleware : Text → Statement
  create_middleware : Bool → Middleware → Statement

unfoldable pub parse_phase : StringUtil → Text → Result ParseError MiddlewarePhase
parse_phase strings token =
    if text_eq (strings.upper token) (codes "BEFORE")
    then ok before
    else if text_eq (strings.upper token) (codes "AFTER")
    then ok after
    else err bad_phase

-- The tokens between the prefix and AS: the name, the phase and the group.
unfoldable pub parse_declaration :
    StringUtil → List Text → Result ParseError (Text × MiddlewarePhase × Text)
unfolding parse_phase
parse_declaration strings (name ∷ phase_token ∷ []) =
    if not (is_middleware_name name)
    then err bad_name
    else (parse_phase strings phase_token >>= λ phase. ok (name, phase, []))
parse_declaration strings (name ∷ phase_token ∷ keyword ∷ group_name ∷ []) =
    if not (is_middleware_name name)
    then err bad_name
    else (parse_phase strings phase_token >>= λ phase.
        if not (strings.ci_equals keyword (codes "GROUP")) || not (is_middleware_name group_name)
        then err bad_group
        else ok (name, phase, group_name))
parse_declaration strings _ = err bad_declaration

unfoldable pub parse_sql : Text → Result ParseError Text
parse_sql sql =
    if empty sql
    then err no_sql
    else if ltb max_sql_bytes (length sql)
    then err sql_too_long
    else ok sql

-- `middleware` of the statement; Add gives it its order.
abbrev pub definition : (Text × MiddlewarePhase × Text) → Text → Middleware
definition (name, phase, group_name) sql = record {
  name = name;
  phase = phase;
  group_name = group_name;
  handler_sql = sql;
  registration_order = 0;
}

-- The rest of MiddlewareDdlParse, from the prefix of CREATE on.
unfoldable pub parse_create : StringUtil → Bool → ℕ → Text → Result ParseError Statement
unfolding find_standalone_keyword whitespace_tokens parse_declaration parse_sql
parse_create strings or_replace prefix_end q =
    elim (find_standalone_keyword strings (strings.upper q) (codes "AS") prefix_end) [
      | none ↦ err no_as_keyword
      | some as_pos ↦
          let declaration = trim strings (take (as_pos - prefix_end) (skip prefix_end q)) in
          parse_declaration strings (whitespace_tokens strings declaration) >>= λ parts.
          parse_sql (trim strings (skip (as_pos + 2) q)) >>= λ sql.
          ok (create_middleware or_replace (definition parts sql))
    ]

unfoldable pub parse_drop : StringUtil → Text → Result ParseError Statement
parse_drop strings q =
    let name = trim strings (skip 16 q) in
    if is_middleware_name name then ok (drop_middleware name) else err drop_expects_name

unfoldable pub parse : StringUtil → Text → Result ParseError Statement
unfolding parse_create parse_drop
parse strings query =
    let q = trim strings query in
    let upper = strings.upper q in
    if strings.starts_with upper (codes "DROP MIDDLEWARE ")
    then parse_drop strings q
    else if strings.starts_with upper (codes "CREATE OR REPLACE MIDDLEWARE ")
    then parse_create strings true 29 q
    else if strings.starts_with upper (codes "CREATE MIDDLEWARE ")
    then parse_create strings false 18 q
    else ok not_ours

-- What ApplyMiddlewareExec throws.
pub data ApplyError : Type 0 where
  invalid_names invalid_sql : ApplyError
  invalid_handler : Text → ApplyError
  no_middleware : Text → ApplyError
  refused : RegistryError → ApplyError

unfoldable pub check_definition : Middleware → Result {0, 0} ApplyError Unit
check_definition m =
    if not (is_middleware_name m.name)
      || (not (empty m.group_name) && not (is_middleware_name m.group_name))
    then err invalid_names
    else if empty m.handler_sql || ltb max_sql_bytes (length m.handler_sql)
    then err invalid_sql
    else ok tt

abbrev pub add_to :
    Middleware → Bool → MiddlewareRegistry → Result ApplyError (Text × MiddlewareRegistry)
add_to m or_replace r = elim (add m or_replace r) [
  | err thrown ↦ err (refused thrown)
  | ok added ↦ ok (
    codes "Middleware "
        ++ m.name
        ++ codes ": "
        ++ phase_name m.phase
        ++ (if empty m.group_name then [] else codes " GROUP " ++ m.group_name),
    added,
  )
]

-- ApplyMiddlewareExec on what the parser found; `prepares` is `!con.Prepare(sql)->HasError()`. A statement
-- that is not ours is not planned.
unfoldable pub apply :
    (Text → Bool) → Statement → MiddlewareRegistry → Result ApplyError (Text × MiddlewareRegistry)
unfolding check_definition
apply prepares not_ours r = ok ([], r)
apply prepares (create_middleware or_replace m) r = check_definition m >>= λ _.
    if not (prepares m.handler_sql) then err (invalid_handler m.name) else add_to m or_replace r
apply prepares (drop_middleware name) r =
    let dropped = drop name r in
    if dropped.0
    then ok (codes "Dropped middleware " ++ name, dropped.1)
    else err (no_middleware name)
