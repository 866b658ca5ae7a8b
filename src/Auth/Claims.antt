-- ===== src/Auth/Claims.antt =====
-- ParseJsonObjectClaims: the top-level keys of a JSON object, read by DuckDB's JSON functions.
use quackapi.Base.{Bool, not, List, [], ◌∷◌, ◌++◌, Option, none, some, if◌then◌else◌, any, find}
use quackapi.Text.{Text, codes, text_eq}

-- The three queries of ParseJsonObjectClaims.
pub record Json : Type 0 where
  -- SELECT TRY_CAST(? AS JSON) IS NOT NULL gives true
  pub valid : Text → Bool
  -- SELECT json_type(?::JSON), none on an error, the empty text on NULL
  pub type : Text → Option Text
  -- the rows (key, val) of json_each, none on an error; a NULL is none
  pub fields : Text → Option (List (Option Text × Option Text))

-- `unordered_map`: the order of the entries is that of the rows.
pub record Claims : Type 0 where
  pub values : List (Text × Text)
  pub nulls : List Text

abbrev pub no_claims : Claims
no_claims = record { values = []; nulls = [] }

abbrev pub add_claim : Text → Option Text → Claims → Claims
add_claim key none claims = record claims { nulls = claims.nulls ++ key ∷ [] }
add_claim key (some val) claims = record claims { values = claims.values ++ (key, val) ∷ [] }

-- The loop over the rows, with the keys seen; a key that comes twice is refused.
unfoldable pub read_rows : List Text → Claims → List (Option Text × Option Text) → Option Claims
read_rows seen claims [] = some claims
read_rows seen claims ((none, val) ∷ rows) = read_rows seen claims rows
read_rows seen claims ((some key, val) ∷ rows) =
    let later = read_rows (key ∷ seen) (add_claim key val claims) rows in
    if any (text_eq key) seen then none else later

unfoldable pub parse_object_claims : Json → Text → Option Claims
parse_object_claims json text = if not (json.valid text) then none else elim (json.type text) [
  | none ↦ none
  | some jtype ↦
      if not (text_eq jtype (codes "OBJECT"))
      then none
      else elim (json.fields text) [ none ↦ none | some rows ↦ read_rows [] no_claims rows ]
]

-- `claims.find(key)`
abbrev pub claim_of : Text → List (Text × Text) → Option Text
claim_of key values = elim (find (λ kv. text_eq kv.0 key) values) [
  | none ↦ none
  | some (_, value) ↦ some value
]
