-- ===== src/Tests/Validation.antt =====
-- JSON texts, declarations and the errors of a validation.
use quackapi.Base.{◌≢◌, false, [], ◌∷◌, ok, err, some, ◌≡◌, refl, map}
use quackapi.Text.{Text, codes, text_eq}
use quackapi.Strings.Ascii.{ascii, to_upper, prefix_of}
use quackapi.Util.{escape_byte, json_escape}
use quackapi.Validation.{
  Node, nil, boolean, number, string, array, object, no_child, child, no_member, member, malformed,
  out_of_fuel, skip_whitespace, consume, comma_items, comma_list, read_number,
}
use quackapi.Validation.Strings.{
  hex_value, utf8, unicode_escape, surrogates, read_escape, string_from, parse_string,
}
use quackapi.Validation.Reader.{parse_member, parse_scalar, value_from, parse_value, parse_document}
use quackapi.Validation.Transform.{
  serialize, has_variant, variant_leaves_as_json, upper_to_openapi, node_to_openapi,
  transform_to_openapi,
}
use quackapi.Validation.Termination.{parse_document-ends}
use quackapi.Validation.RoundTrip.{parse_document-serialize}
use quackapi.Validation.Pointer.{
  is_canonical_array_index, decode_json_pointer_segment, segments_from, pointer_segments,
  index_from, parse_index, nth_child, find_member, indexes, descend, segments_loc, body_pointer_loc,
  errors_json,
}
use quackapi.Validation.Pointer.Json.{issue_of, error_nodes, parse_document-errors_json, Error}

abbrev body : Text
body = codes "{ \"items\" : [ {\"sku\": \"\\u00e9\\ud83d\\ude00\"}, -1.5e3, true, null ] }"

abbrev declaration : Node
declaration = object (
    member (codes "a") (string (codes "variant"))
      (member (codes "b") (array (child (string (codes "DATE")) no_child)) no_member))

body_read :
    parse_document body
    ≡ ok (
        object (
          member
            (codes "items")
            (array (
              child
                (object (
                  member
                    (codes "sku")
                    (string (0xc3 ∷ 0xa9 ∷ 0xf0 ∷ 0x9f ∷ 0x98 ∷ 0x80 ∷ []))
                    no_member))
                (child (number (codes "-1.5e3")) (child boolean (child nil no_child)))))
            no_member))
unfolding parse_document parse_value value_from parse_scalar parse_member parse_string string_from
    read_escape surrogates unicode_escape hex_value utf8 comma_list comma_items read_number consume
    skip_whitespace text_eq
body_read = refl

unclosed : parse_document (codes "[1, 2") ≡ err malformed
unfolding parse_document parse_value value_from parse_scalar parse_member parse_string string_from
    read_escape surrogates unicode_escape hex_value utf8 comma_list comma_items read_number consume
    skip_whitespace text_eq
unclosed = refl

parse_document-ends_example : parse_document body ≢ err out_of_fuel
parse_document-ends_example = parse_document-ends body

parse_document-serialize_example :
    parse_document (serialize ascii (λ t. t) false declaration) ≡ ok declaration
parse_document-serialize_example = parse_document-serialize ascii (λ t. t) declaration refl

leaves_as_json :
    variant_leaves_as_json ascii (λ t. t) (codes "{\"a\": \"variant\", \"b\": [\"DATE\"]}")
    ≡ some (codes "{\"a\":\"JSON\",\"b\":[\"DATE\"]}")
unfolding variant_leaves_as_json serialize has_variant json_escape escape_byte to_upper
    parse_document parse_value value_from parse_scalar parse_member parse_string string_from
    read_escape surrogates unicode_escape hex_value utf8 comma_list comma_items read_number consume
    skip_whitespace text_eq
leaves_as_json = refl

-- A Boolean of a declaration is lost.
boolean_lost :
    variant_leaves_as_json ascii (λ t. t) (codes "{\"a\":\"VARIANT\",\"b\":true}")
    ≡ some (codes "{\"a\":\"JSON\",\"b\":}")
unfolding variant_leaves_as_json serialize has_variant json_escape escape_byte to_upper
    parse_document parse_value value_from parse_scalar parse_member parse_string string_from
    read_escape surrogates unicode_escape hex_value utf8 comma_list comma_items read_number consume
    skip_whitespace text_eq
boolean_lost = refl

schema :
    transform_to_openapi ascii (λ t. t) (codes "[{\"d\":\"DATE\"}]")
    ≡ codes
        "{\"type\":\"array\",\"items\":{\"type\":\"object\",\"properties\":{\"d\":{\"type\":\"string\",\"format\":\"date\"}}}}"
unfolding transform_to_openapi node_to_openapi upper_to_openapi json_escape escape_byte to_upper
    prefix_of parse_document parse_value value_from parse_scalar parse_member parse_string
    string_from read_escape surrogates unicode_escape hex_value utf8 comma_list comma_items
    read_number consume skip_whitespace text_eq
schema = refl

sku_loc : body_pointer_loc (codes "/items/0/s~1u") body ≡ codes "[\"body\",\"items\",0,\"s/u\"]"
unfolding body_pointer_loc segments_loc pointer_segments segments_from decode_json_pointer_segment
    indexes descend nth_child find_member is_canonical_array_index parse_index index_from
    json_escape escape_byte parse_document parse_value value_from parse_scalar parse_member
    parse_string string_from read_escape surrogates unicode_escape hex_value utf8 comma_list
    comma_items read_number consume skip_whitespace text_eq
sku_loc = refl

abbrev wrong_type : Error
wrong_type = (codes "/items/1", body, codes "Input \"x\"", codes "type_error")

parse_document-errors_json_example :
    parse_document (errors_json (map issue_of (wrong_type ∷ [])))
    ≡ ok (object (member (codes "detail") (array (error_nodes (wrong_type ∷ []))) no_member))
parse_document-errors_json_example = parse_document-errors_json (wrong_type ∷ [])
