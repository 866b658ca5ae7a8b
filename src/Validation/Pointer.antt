-- ===== src/Validation/Pointer.antt =====
-- The errors of a request's validation: QuackapiValidationBodyPointerLoc and QuackapiValidationErrorsJson of
-- src/quackapi_validation.cpp.
pub mod Json
use quackapi.Base.{
  ℕ, zero, suc, ◌+◌, ◌-◌, ◌*◌, ◌/◌, ltb, leb, Bool, true, false, not, ◌&&◌, ◌||◌, List, [], ◌∷◌,
  ◌++◌, all, length, Option, none, some, Result, ok, err, ◌==◌, if◌then◌else◌,
}
use quackapi.Text.{Text, codes, text_eq, empty}
use quackapi.Util.{json_escape}
use quackapi.Router.{skip}
use quackapi.Validation.{
  Node, nil, boolean, number, string, array, object, Nodes, no_child, child, Members, no_member,
  member,
}
use quackapi.Validation.Reader.{parse_document}
use quackapi.Validation.Transform.{quoted, comma}

abbrev is_digit : ℕ → Bool
is_digit c = leb b'0' c && leb c b'9'

abbrev pub leading_zero : Text → Bool
leading_zero [] = false
leading_zero (c ∷ s) = c == b'0' && not (empty s)

unfoldable pub is_canonical_array_index : Text → Bool
is_canonical_array_index segment =
    not (empty segment || leading_zero segment) && all is_digit segment

-- `~0` and `~1`
unfoldable pub decode_json_pointer_segment : Text → Text
decode_json_pointer_segment [] = []
decode_json_pointer_segment (c ∷ []) = c ∷ []
decode_json_pointer_segment (c ∷ d ∷ s) =
    let later = decode_json_pointer_segment s in
    let rest = decode_json_pointer_segment (d ∷ s) in
    if c == b'~' && d == b'0'
    then b'~' ∷ later
    else if c == b'~' && d == b'1'
    then b'/' ∷ later
    else c ∷ rest

-- `end == npos` closes the last segment.
unfoldable pub segments_from : Text → Text → List Text
segments_from current [] = current ∷ []
segments_from current (c ∷ s) =
    if c == b'/' then current ∷ segments_from [] s else segments_from (current ++ c ∷ []) s

unfoldable pub pointer_segments : Text → List Text
unfolding segments_from
pointer_segments [] = segments_from [] []
pointer_segments (c ∷ s) = if c == b'/' then segments_from [] s else segments_from [] (c ∷ s)

-- `idx_t(-1)`
abbrev pub max_index : ℕ
max_index = 18446744073709551615

-- The loop of ParseIndex, which stops at a number that is out of range.
unfoldable pub index_from : ℕ → Text → ℕ
index_from index [] = index
index_from index (c ∷ s) =
    let digit = c - b'0' in
    let later = index_from (index * 10 + digit) s in
    if ltb ((max_index - digit) / 10) index then max_index else later

unfoldable pub parse_index : Text → ℕ
unfolding index_from
parse_index segment = index_from 0 segment

-- `index < children.size() ? &children[index] : nullptr`
unfoldable pub nth_child : ℕ → Nodes → Option Node
nth_child index no_child = none
nth_child zero (child node nodes) = some node
nth_child (suc index) (child node nodes) = nth_child index nodes

unfoldable pub find_member : Text → Members → Option Node
unfolding text_eq
find_member name no_member = none
find_member name (member key node members) =
    if text_eq key name then some node else find_member name members

-- Whether the segment is an index of the value that the pointer has reached.
unfoldable pub indexes : Option Node → Text → Bool
unfolding is_canonical_array_index
indexes (some (array nodes)) segment = is_canonical_array_index segment
indexes _ segment = false

unfoldable pub descend : Option Node → Text → Option Node
unfolding nth_child find_member parse_index is_canonical_array_index
descend (some (array nodes)) segment =
    if is_canonical_array_index segment then nth_child (parse_index segment) nodes else none
descend (some (object members)) segment = find_member segment members
descend _ segment = none

-- The loop over the segments.
unfoldable pub segments_loc : Option Node → List Text → Text
unfolding decode_json_pointer_segment indexes descend json_escape
segments_loc current [] = []
segments_loc current (raw ∷ segments) =
    let segment = decode_json_pointer_segment raw in
    b','
    ∷ ((if indexes current segment then segment else quoted segment)
        ++ segments_loc (descend current segment) segments)

abbrev pub root_of : Text → Option Node
root_of json_body = elim (parse_document json_body) [ err _ ↦ none | ok root ↦ some root ]

unfoldable pub body_pointer_loc : Text → Text → Text
unfolding segments_loc pointer_segments parse_document
body_pointer_loc pointer json_body =
    if empty pointer
    then codes "[\"body\"" ++ codes "]"
    else codes "[\"body\""
      ++ segments_loc (root_of json_body) (pointer_segments pointer)
      ++ codes "]"

-- QuackapiValidationIssue
pub record Issue : Type 0 where
  pub loc_json : Text
  pub message : Text
  pub type : Text

unfoldable pub issues_json : Bool → List Issue → Text
unfolding json_escape
issues_json first [] = []
issues_json first (issue ∷ issues) =
    comma first
    ++ codes "{\"loc\":"
    ++ issue.loc_json
    ++ codes ",\"msg\":"
    ++ quoted issue.message
    ++ codes ",\"type\":"
    ++ quoted issue.type
    ++ codes "}"
    ++ issues_json false issues

unfoldable pub errors_json : List Issue → Text
unfolding issues_json
errors_json issues = codes "{\"detail\":[" ++ issues_json true issues ++ codes "]}"
