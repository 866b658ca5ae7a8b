-- ===== src/Tests/Ddl.antt =====
-- Options of the DDL and quoted texts.
use quackapi.Base.{◌≤◌, false, ◌∷◌, ◌++◌, ok, some, ◌≡◌, refl}
use quackapi.Text.{Text, codes, text_eq, ends_in, pop_back}
use quackapi.Strings.Ascii.{ascii, to_lower, prefix_of}
use quackapi.Auth.{skip_space}
use quackapi.Registry.Graphql.{strip_slashes}
use quackapi.Ddl.{
  trim, trim_end, strip_quotes, read_number, multiplier, read_seconds, parse_route_timeout_sec,
  parse_duration_seconds, join_group_prefix,
}
use quackapi.Ddl.Durations.{parse_duration_seconds-parse_route_timeout_sec}
use quackapi.Quote.{sql_quote, csv_escape_field}
use quackapi.Quote.Laws.{
  read_quoted, read_quoted-sql_quote, read_field, read_field-csv_escape_field,
}

five_minutes : parse_route_timeout_sec ascii (codes " '5m' ; ") ≡ ok 300
unfolding parse_route_timeout_sec trim trim_end skip_space strip_quotes ends_in pop_back
    read_seconds read_number multiplier to_lower text_eq
five_minutes = refl

parse_duration_seconds-parse_route_timeout_sec_example :
    (1 ≤ 300) × (300 ≤ 86400) × (parse_duration_seconds ascii (codes " '5m' ; ") ≡ ok 300)
parse_duration_seconds-parse_route_timeout_sec_example =
    parse_duration_seconds-parse_route_timeout_sec ascii (codes " '5m' ; ") 300 five_minutes

in_group : join_group_prefix ascii (codes "/api/v1/") (codes "items") ≡ ok (codes "/api/v1/items")
unfolding join_group_prefix strip_slashes ends_in pop_back prefix_of text_eq
in_group = refl

read_quoted-sql_quote_example :
    (body : Text) × (sql_quote (codes "it's") ++ codes " OR 1" ≡ 39 ∷ body)
    × (read_quoted 39 false body ≡ some (codes "it's", codes " OR 1"))
read_quoted-sql_quote_example = read_quoted-sql_quote (codes "it's") (codes " OR 1") refl

read_field-csv_escape_field_example :
    read_field (csv_escape_field (codes "a,\"b\"") ++ codes ",c")
    ≡ some (codes "a,\"b\"", codes ",c")
read_field-csv_escape_field_example =
    read_field-csv_escape_field (codes "a,\"b\"") (codes ",c") refl
