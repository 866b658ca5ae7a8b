-- ===== src/Validation/Transform.antt =====
-- The declarations of json_transform as values of JsonReader: SerializeTransformNode, TransformNodeHasVariant and
-- TransformNodeToOpenApi of src/quackapi_validation.cpp. `trim` is StringUtil::Trim.
use quackapi.Base.{
  Bool, true, false, ◌&&◌, ◌||◌, [], ◌∷◌, ◌++◌, ok, err, Option, none, some, if◌then◌else◌,
}
use quackapi.Text.{Text, codes, text_eq}
use quackapi.Strings.{StringUtil}
use quackapi.Ddl.{one_of}
use quackapi.Util.{json_escape}
use quackapi.Validation.{
  Node, nil, boolean, number, string, array, object, Nodes, no_child, child, Members, no_member,
  member,
}
use quackapi.Validation.Reader.{parse_document}

abbrev pub quoted : Text → Text
quoted s = 34 ∷ (json_escape s ++ 34 ∷ [])

-- What stands before an item that is not the first.
abbrev pub comma : Bool → Text
comma true = []
comma false = b',' ∷ []

module _ (strings : StringUtil) (trim : Text → Text) where
  abbrev pub is_variant : Text → Bool
  is_variant declared_type = text_eq (strings.upper (trim declared_type)) (codes "VARIANT")

  -- The kind BOOL has no text.
  unfoldable mutual
    unfolding text_eq json_escape

    pub serialize : Bool → Node → Text
    serialize replace_variant nil = codes "null"
    serialize replace_variant boolean = []
    serialize replace_variant (number digits) = digits
    serialize replace_variant (string value) =
        quoted (if replace_variant && is_variant value then codes "JSON" else value)
    serialize replace_variant (array nodes) =
        b'[' ∷ (serialize_nodes replace_variant true nodes ++ b']' ∷ [])
    serialize replace_variant (object members) =
        b'{' ∷ (serialize_members replace_variant true members ++ b'}' ∷ [])

    pub serialize_nodes : Bool → Bool → Nodes → Text
    serialize_nodes replace_variant first no_child = []
    serialize_nodes replace_variant first (child node nodes) =
        comma first ++ serialize replace_variant node ++ serialize_nodes replace_variant false nodes

    pub serialize_members : Bool → Bool → Members → Text
    serialize_members replace_variant first no_member = []
    serialize_members replace_variant first (member key node members) =
        comma first
        ++ quoted key
        ++ b':'
          ∷ (serialize replace_variant node ++ serialize_members replace_variant false members)

  unfoldable mutual
    unfolding text_eq

    pub has_variant : Node → Bool
    has_variant nil = false
    has_variant boolean = false
    has_variant (number digits) = false
    has_variant (string value) = is_variant value
    has_variant (array nodes) = nodes_have_variant nodes
    has_variant (object members) = members_have_variant members

    pub nodes_have_variant : Nodes → Bool
    nodes_have_variant no_child = false
    nodes_have_variant (child node nodes) = has_variant node || nodes_have_variant nodes

    pub members_have_variant : Members → Bool
    members_have_variant no_member = false
    members_have_variant (member key node members) =
        has_variant node || members_have_variant members

  -- QuackapiDuckdbTransformVariantLeavesAsJson; `none` is false.
  unfoldable pub variant_leaves_as_json : Text → Option Text
  unfolding parse_document has_variant serialize
  variant_leaves_as_json body_type = elim (parse_document body_type) [
    | err _ ↦ none
    | ok structure ↦ if has_variant structure then some (serialize true structure) else none
  ]

  abbrev pub integer_type : Text → Bool
  integer_type = one_of (
      codes "TINYINT"
      ∷ codes "SMALLINT"
      ∷ codes "INTEGER"
      ∷ codes "INT"
      ∷ codes "UTINYINT"
      ∷ codes "USMALLINT"
      ∷ [])

  -- TransformScalarToOpenApi, on the type in upper case.
  unfoldable pub upper_to_openapi : Text → Text
  unfolding text_eq
  upper_to_openapi type =
      if one_of (codes "BOOLEAN" ∷ codes "BOOL" ∷ []) type
      then codes "{\"type\":\"boolean\"}"
      else if integer_type type
      then codes "{\"type\":\"integer\",\"format\":\"int32\"}"
      else if one_of (codes "BIGINT" ∷ codes "UINTEGER" ∷ []) type
      then codes "{\"type\":\"integer\",\"format\":\"int64\"}"
      else if one_of (codes "HUGEINT" ∷ codes "UBIGINT" ∷ codes "UHUGEINT" ∷ []) type
      then codes "{\"type\":\"integer\"}"
      else if one_of (codes "FLOAT" ∷ codes "REAL" ∷ []) type
      then codes "{\"type\":\"number\",\"format\":\"float\"}"
      else if text_eq type (codes "DOUBLE")
          || strings.starts_with type (codes "DECIMAL")
          || strings.starts_with type (codes "NUMERIC")
      then codes "{\"type\":\"number\"}"
      else if text_eq type (codes "DATE")
      then codes "{\"type\":\"string\",\"format\":\"date\"}"
      else if strings.starts_with type (codes "TIMESTAMP")
      then codes "{\"type\":\"string\",\"format\":\"date-time\"}"
      else if text_eq type (codes "UUID")
      then codes "{\"type\":\"string\",\"format\":\"uuid\"}"
      else if one_of (codes "JSON" ∷ codes "ANY" ∷ codes "VARIANT" ∷ []) type
      then codes "{}"
      else codes "{\"type\":\"string\"}"

  abbrev pub scalar_to_openapi : Text → Text
  scalar_to_openapi declared_type = upper_to_openapi (strings.upper (trim declared_type))

  unfoldable mutual
    unfolding upper_to_openapi json_escape

    pub node_to_openapi : Node → Text
    node_to_openapi nil = codes "{}"
    node_to_openapi boolean = codes "{}"
    node_to_openapi (number digits) = codes "{}"
    node_to_openapi (string value) = scalar_to_openapi value
    node_to_openapi (array nodes) =
        codes "{\"type\":\"array\",\"items\":" ++ first_to_openapi nodes ++ codes "}"
    node_to_openapi (object members) =
        codes "{\"type\":\"object\",\"properties\":{"
        ++ members_to_openapi true members
        ++ codes "}}"

    -- The schema of an array is that of its first child.
    pub first_to_openapi : Nodes → Text
    first_to_openapi no_child = codes "{}"
    first_to_openapi (child node nodes) = node_to_openapi node

    pub members_to_openapi : Bool → Members → Text
    members_to_openapi first no_member = []
    members_to_openapi first (member key node members) =
        comma first
        ++ quoted key
        ++ b':' ∷ (node_to_openapi node ++ members_to_openapi false members)

  unfoldable pub transform_to_openapi : Text → Text
  unfolding parse_document node_to_openapi
  transform_to_openapi body_type = elim (parse_document body_type) [
    | err _ ↦ codes "{}"
    | ok structure ↦ node_to_openapi structure
  ]
