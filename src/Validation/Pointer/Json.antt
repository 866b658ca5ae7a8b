-- ===== src/Validation/Pointer/Json.antt =====
-- The errors of a request's validation as JSON, which JsonReader reads.
use quackapi.Base.{
  ℕ, ◌+◌, leb, Bool, true, false, ◌&&◌, List, [], ◌∷◌, ◌++◌, all-imp, map, Option, some, ok,
  append_assoc, append-nil, if◌then◌else◌, ◌≡◌, refl, ap, ◌∙◌, arith, Bool-cases, inl, inr,
}
use quackapi.Text.{Text, codes, empty}
use quackapi.Util.{escape_byte, json_escape}
use quackapi.Strings.Ascii.{ascii}
use quackapi.Validation.{
  Node, number, string, array, object, Nodes, no_child, child, no_member, member, number_char,
}
use quackapi.Validation.Reader.{parse_document}
use quackapi.Validation.Transform.{quoted, serialize, serialize_nodes}
use quackapi.Validation.Items.{printable, nodes_printable, is_number}
use quackapi.Validation.RoundTrip.{parse_document-serialize}
use quackapi.Validation.Pointer.{
  is_canonical_array_index, decode_json_pointer_segment, pointer_segments, indexes, descend,
  segments_loc, root_of, body_pointer_loc, Issue, issues_json, errors_json,
}

-- The segments of a pointer as values: an index is a number, any other segment a string.
unfoldable pub segment_nodes : Option Node → List Text → Nodes
segment_nodes current [] = no_child
segment_nodes current (raw ∷ segments) =
    let segment = decode_json_pointer_segment raw in
    child (if indexes current segment then number segment else string segment)
      (segment_nodes (descend current segment) segments)

-- The location of a pointer: "body", and the segments of one that is not empty.
unfoldable pub pointer_node : Text → Text → Node
unfolding segment_nodes
pointer_node pointer json_body = array (
    child (string (codes "body")) (
      if empty pointer
      then no_child
      else segment_nodes (root_of json_body) (pointer_segments pointer)))

canonical-number :
    (segment : Text) → is_canonical_array_index segment ≡ true → is_number segment ≡ true
unfolding is_canonical_array_index
canonical-number [] h = cc
canonical-number (c ∷ s) h =
    ground (arith, all-imp (λ c. leb b'0' c && leb c b'9') number_char (λ x d. ground arith) s)

indexes-canonical :
    (current : Option Node) (segment : Text)
    → indexes current segment ≡ true
    → is_canonical_array_index segment ≡ true
unfolding indexes
indexes-canonical (some (array nodes)) segment h = h
indexes-canonical _ segment h = cc

segment_nodes-printable :
    (depth : ℕ) (current : Option Node) (segments : List Text)
    → nodes_printable depth (segment_nodes current segments) ≡ true
unfolding segment_nodes
segment_nodes-printable depth current [] = refl
segment_nodes-printable depth current (raw ∷ segments) =
    let segment = decode_json_pointer_segment raw in
    let later = segment_nodes-printable depth (descend current segment) segments in
    elim (Bool-cases (indexes current segment)) [
      | inl index ↦ rw index (
          ground (arith, canonical-number segment (indexes-canonical current segment index), later))
      | inr name ↦ rw name later
    ]

pointer_node-printable :
    (depth : ℕ) (pointer json_body : Text)
    → leb depth 127 ≡ true
    → printable depth (pointer_node pointer json_body) ≡ true
unfolding pointer_node
pointer_node-printable depth pointer json_body h = elim (Bool-cases (empty pointer)) [
  | inl nothing ↦ rw nothing (ground arith)
  | inr some_there ↦ rw some_there (
      ground
        (arith, segment_nodes-printable (depth + 1) (root_of json_body) (pointer_segments pointer)))
]

segments_loc-serialize :
    (current : Option Node) (segments : List Text)
    → segments_loc current segments
      ≡ serialize_nodes ascii (λ t. t) false false (segment_nodes current segments)
unfolding segments_loc segment_nodes serialize
segments_loc-serialize current [] = refl
segments_loc-serialize current (raw ∷ segments) =
    let segment = decode_json_pointer_segment raw in
    let later = segments_loc-serialize (descend current segment) segments in
    elim (Bool-cases (indexes current segment)) [
      | inl index ↦ rw index (ap (λ t. b',' ∷ (segment ++ t)) later)
      | inr name ↦ rw name (ap (λ t. b',' ∷ (quoted segment ++ t)) later)
    ]

body_pointer_loc-serialize :
    (pointer json_body : Text)
    → body_pointer_loc pointer json_body
      ≡ serialize ascii (λ t. t) false (pointer_node pointer json_body)
unfolding body_pointer_loc pointer_node serialize json_escape escape_byte
body_pointer_loc-serialize pointer json_body = elim (Bool-cases (empty pointer)) [
  | inl nothing ↦ rw nothing refl
  | inr some_there ↦ rw some_there (
      ap (λ t. codes "[\"body\"" ++ t ++ codes "]")
        (segments_loc-serialize (root_of json_body) (pointer_segments pointer)))
]

-- The location of a JSON pointer in a body is a JSON text that JsonReader reads, and as an array of "body" and the segments of
-- the pointer: numbers where they index an array of the body, decoded strings elsewhere.
pub parse_document-body_pointer_loc :
    (pointer json_body : Text)
    → parse_document (body_pointer_loc pointer json_body) ≡ ok (pointer_node pointer json_body)
parse_document-body_pointer_loc pointer json_body =
    ap parse_document (body_pointer_loc-serialize pointer json_body)
    ∙ parse_document-serialize ascii (λ t. t) (pointer_node pointer json_body)
        (pointer_node-printable 0 pointer json_body refl)

-- An error at a pointer of a body, with its message and its type.
abbrev pub Error : Type 0
Error = Text × Text × Text × Text

abbrev pub issue_of : Error → Issue
issue_of (pointer, json_body, message, type) = record {
  loc_json = body_pointer_loc pointer json_body;
  message = message;
  type = type;
}

abbrev pub error_node : Error → Node
error_node (pointer, json_body, message, type) = object (
    member (codes "loc") (pointer_node pointer json_body)
      (member (codes "msg") (string message) (member (codes "type") (string type) no_member)))

unfoldable pub error_nodes : List Error → Nodes
error_nodes [] = no_child
error_nodes (error ∷ errors) = child (error_node error) (error_nodes errors)

error_nodes-printable : (errors : List Error) → nodes_printable 2 (error_nodes errors) ≡ true
unfolding error_nodes
error_nodes-printable [] = refl
error_nodes-printable ((pointer, json_body, message, type) ∷ errors) =
    ground (arith, pointer_node-printable 3 pointer json_body refl, error_nodes-printable errors)

abbrev plainly : Node → Text
plainly = serialize ascii (λ t. t) false

-- One error as the source writes it, before any text.
issue-serialize :
    (error : Error) (rest : Text)
    → codes "{\"loc\":"
        ++ (issue_of error).loc_json
        ++ codes ",\"msg\":"
        ++ quoted (issue_of error).message
        ++ codes ",\"type\":"
        ++ quoted (issue_of error).type
        ++ codes "}"
        ++ rest
      ≡ plainly (error_node error) ++ rest
unfolding serialize json_escape escape_byte
issue-serialize (pointer, json_body, message, type) rest =
    rw (body_pointer_loc-serialize pointer json_body) (simp (append_assoc, append-nil))

issues_json-serialize :
    (first : Bool) (errors : List Error)
    → issues_json first (map issue_of errors)
      ≡ serialize_nodes ascii (λ t. t) false first (error_nodes errors)
unfolding issues_json serialize error_nodes
issues_json-serialize first [] = refl
issues_json-serialize true (error ∷ errors) =
    issue-serialize error (issues_json false (map issue_of errors))
    ∙ ap (λ t. plainly (error_node error) ++ t) (issues_json-serialize false errors)
issues_json-serialize false (error ∷ errors) =
    ap (λ t. b',' ∷ t)
      (issue-serialize error (issues_json false (map issue_of errors))
        ∙ ap (λ t. plainly (error_node error) ++ t) (issues_json-serialize false errors))

errors_json-serialize :
    (errors : List Error)
    → errors_json (map issue_of errors)
      ≡ plainly (object (member (codes "detail") (array (error_nodes errors)) no_member))
unfolding errors_json serialize json_escape escape_byte
errors_json-serialize errors =
    rw (issues_json-serialize true errors) (simp (append_assoc, append-nil))

-- The body of a 422 for errors at pointers into request bodies is a JSON text that JsonReader reads: as an object with
-- the one member "detail", which is the array of the errors, each with its location, its message and its type.
pub parse_document-errors_json :
    (errors : List Error)
    → parse_document (errors_json (map issue_of errors))
      ≡ ok (object (member (codes "detail") (array (error_nodes errors)) no_member))
parse_document-errors_json errors =
    ap parse_document (errors_json-serialize errors)
    ∙ parse_document-serialize ascii (λ t. t) _ (ground (arith, error_nodes-printable errors))
