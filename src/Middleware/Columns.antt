-- ===== src/Middleware/Columns.antt =====
-- The contract of a hook's result, GetMiddlewareResultColumns: its control columns and their types.
use quackapi.Base.{
  ℕ, zero, suc, ◌+◌, Bool, true, false, not, ◌&&◌, List, [], ◌∷◌, Option, none, some, if◌then◌else◌,
}
use quackapi.Text.{Text, codes, text_eq}
use quackapi.Strings.{StringUtil}

-- DuckDB's LogicalTypeId, as far as the contract tells its values apart.
pub data LogicalTypeId : Type 0 where
  boolean_type integer_type varchar_type other_type : LogicalTypeId

pub data Control : Type 0 where
  allow status body header_name header_value : Control

-- `invalid` is `none`: a column's number is below the number of names.
pub record Columns : Type 0 where
  pub allow_col : Option ℕ
  pub status_col : Option ℕ
  pub body_col : Option ℕ
  pub header_name_col : Option ℕ
  pub header_value_col : Option ℕ

abbrev pub no_columns : Columns
no_columns = record {
  allow_col = none;
  status_col = none;
  body_col = none;
  header_name_col = none;
  header_value_col = none;
}

-- The slot of a column, by its name in lower case.
unfoldable pub control_of : Text → Option Control
control_of lower =
    if text_eq lower (codes "allow")
    then some allow
    else if text_eq lower (codes "status")
    then some status
    else if text_eq lower (codes "body")
    then some body
    else if text_eq lower (codes "header_name")
    then some header_name
    else if text_eq lower (codes "header_value")
    then some header_value
    else none

unfoldable pub slot : Control → Columns → Option ℕ
slot allow columns = columns.allow_col
slot status columns = columns.status_col
slot body columns = columns.body_col
slot header_name columns = columns.header_name_col
slot header_value columns = columns.header_value_col

unfoldable pub set_slot : Control → ℕ → Columns → Columns
set_slot allow col columns = record columns { allow_col = some col }
set_slot status col columns = record columns { status_col = some col }
set_slot body col columns = record columns { body_col = some col }
set_slot header_name col columns = record columns { header_name_col = some col }
set_slot header_value col columns = record columns { header_value_col = some col }

abbrev pub is_none {ℓ} : {A : Type ℓ} → Option A → Bool
is_none none = true
is_none (some _) = false

-- The loop over the names; a control column that comes twice is refused.
unfoldable pub find_columns : StringUtil → ℕ → List Text → Columns → Option Columns
unfolding control_of slot set_slot
find_columns strings col [] columns = some columns
find_columns strings col (name ∷ names) columns = elim (control_of (strings.lower name)) [
  | none ↦ find_columns strings (col + 1) names columns
  | some control ↦
      if is_none (slot control columns)
      then find_columns strings (col + 1) names (set_slot control col columns)
      else none
]

abbrev same_type : LogicalTypeId → LogicalTypeId → Bool
same_type boolean_type boolean_type = true
same_type integer_type integer_type = true
same_type varchar_type varchar_type = true
same_type _ _ = false

-- The column is there, and has the type.
unfoldable pub type_at : LogicalTypeId → List LogicalTypeId → ℕ → Bool
type_at wanted [] col = false
type_at wanted (found ∷ types) zero = same_type found wanted
type_at wanted (found ∷ types) (suc col) = type_at wanted types col

abbrev optional : LogicalTypeId → List LogicalTypeId → Option ℕ → Bool
optional wanted types none = true
optional wanted types (some col) = type_at wanted types col

abbrev mandatory : LogicalTypeId → List LogicalTypeId → Option ℕ → Bool
mandatory wanted types none = false
mandatory wanted types (some col) = type_at wanted types col

abbrev agree : Bool → Bool → Bool
agree true b = b
agree false b = not b

unfoldable pub typed : List LogicalTypeId → Columns → Bool
unfolding type_at
typed types columns =
    mandatory boolean_type types columns.allow_col
    && optional integer_type types columns.status_col
    && optional varchar_type types columns.body_col
    && optional varchar_type types columns.header_name_col
    && optional varchar_type types columns.header_value_col
    && agree (is_none columns.header_name_col) (is_none columns.header_value_col)

unfoldable pub get_result_columns : StringUtil → List Text → List LogicalTypeId → Option Columns
unfolding find_columns typed
get_result_columns strings names types = elim (find_columns strings 0 names no_columns) [
  | none ↦ none
  | some columns ↦ if typed types columns then some columns else none
]
