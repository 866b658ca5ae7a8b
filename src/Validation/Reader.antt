-- ===== src/Validation/Reader.antt =====
-- ParseValue, ParseArray, ParseObject and ParseDocument of JsonReader. A value inside another is read on less fuel.
use quackapi.Base.{
  ℕ, zero, suc, ◌+◌, ltb, [], ◌∷◌, length, Result, ok, err, ◌>>=◌, ◌==◌, if◌then◌else◌,
}
use quackapi.Text.{Text, codes}
use quackapi.Router.{skip}
use quackapi.Validation.{
  Node, nil, boolean, number, string, array, object, no_child, child, Members, no_member, member,
  Failure, malformed, out_of_fuel, Read, max_nesting_depth, skip_whitespace, consume, comma_list,
  read_number, starts_number, at,
}
use quackapi.Validation.Strings.{parse_string}

-- A key, a colon and a value.
unfoldable pub parse_member : (Text → Read Node) → Text → Read (Text × Node)
unfolding consume parse_string
parse_member parse s = parse_string s >>= λ key.
    consume b':' key.1 >>= λ t. parse t >>= λ value. ok ((key.0, value.0), value.1)

abbrev pub add_member : Text × Node → Members → Members
add_member (key, value) members = member key value members

-- true, false, null and numbers.
unfoldable pub parse_scalar : ℕ → Text → Read Node
unfolding read_number
parse_scalar c s =
    if at (codes "true") (c ∷ s)
    then ok (boolean, skip 3 s)
    else if at (codes "false") (c ∷ s)
    then ok (boolean, skip 4 s)
    else if at (codes "null") (c ∷ s)
    then ok (nil, skip 3 s)
    else if starts_number c
    then (let digits = read_number s in ok (number (c ∷ digits.0), digits.1))
    else err malformed

-- The value that starts with the character, `parse` reads the values in it.
unfoldable pub value_from : (Text → Read Node) → ℕ → ℕ → ℕ → Text → Read Node
unfolding parse_string parse_member parse_scalar comma_list
value_from parse fuel depth c s =
    if c == 34
    then (parse_string (c ∷ s) >>= λ text. ok (string text.0, text.1))
    else if c == b'{'
    then (if ltb depth max_nesting_depth
        then (comma_list no_member add_member (parse_member parse) b'}' fuel s >>= λ members.
            ok (object members.0, members.1))
        else err malformed)
    else if c == b'['
    then (if ltb depth max_nesting_depth
        then (comma_list no_child child parse b']' fuel s >>= λ nodes. ok (array nodes.0, nodes.1))
        else err malformed)
    else parse_scalar c s

abbrev pub value_at : (Text → Read Node) → ℕ → ℕ → Text → Read Node
value_at parse fuel depth [] = err malformed
value_at parse fuel depth (c ∷ s) = value_from parse fuel depth c s

unfoldable pub parse_value : ℕ → ℕ → Text → Read Node
unfolding value_from skip_whitespace
parse_value zero depth s = err out_of_fuel
parse_value (suc fuel) depth s =
    value_at (parse_value fuel (depth + 1)) fuel depth (skip_whitespace s)

abbrev pub at_end : Node × Text → Result Failure Node
at_end (node, []) = ok node
at_end (node, _ ∷ _) = err malformed

unfoldable pub parse_document : Text → Result Failure Node
unfolding parse_value skip_whitespace
parse_document input = parse_value (suc (length input)) 0 (skip_whitespace input) >>= λ read.
    at_end (read.0, skip_whitespace read.1)
