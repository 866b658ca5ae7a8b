-- ===== src/Validation.antt =====
-- JsonReader of src/quackapi_validation.cpp: the reader of declared structures and of request bodies.
-- The reader's position is the text that is left.
pub mod Strings
pub mod Reader
pub mod Pointer
pub mod Transform
pub mod Consumes
pub mod Termination
pub mod Escapes
pub mod Items
pub mod RoundTrip
use quackapi.Base.{
  ℕ, zero, suc, ◌+◌, ltb, leb, Bool, true, false, ◌&&◌, ◌||◌, List, [], ◌∷◌, ◌++◌, length, Result,
  ok, err, ◌>>=◌, ◌==◌, if◌then◌else◌,
}
use quackapi.Text.{Text, codes, text_eq}
use quackapi.Router.{skip}
use quackapi.Middleware.Parse.{take}

-- JsonNode, by its kind: the reader keeps no value of a Boolean, and the text of a number.
mutual
  pub data Node : Type 0 where
    nil boolean : Node
    number : Text → Node
    string : Text → Node
    array : Nodes → Node
    object : Members → Node

  pub data Nodes : Type 0 where
    no_child : Nodes
    child : Node → Nodes → Nodes

  pub data Members : Type 0 where
    no_member : Members
    member : Text → Node → Members → Members

-- `false` of the reader; or the model's fuel ran out.
pub data Failure : Type 0 where
  malformed out_of_fuel : Failure

-- A value and the text after it.
abbrev pub Read {ℓ} : Type ℓ → Type ℓ
Read A = Result Failure (A × Text)

abbrev pub max_nesting_depth : ℕ
max_nesting_depth = 128

abbrev pub json_space : ℕ → Bool
json_space c = c == 32 || c == 10 || c == 13 || c == 9

unfoldable pub skip_whitespace : Text → Text
skip_whitespace [] = []
skip_whitespace (c ∷ s) = let rest = skip_whitespace s in if json_space c then rest else c ∷ s

abbrev pub expect : ℕ → Text → Result Failure Text
expect expected [] = err malformed
expect expected (c ∷ s) = if c == expected then ok s else err malformed

unfoldable pub consume : ℕ → Text → Result Failure Text
unfolding skip_whitespace
consume expected s = expect expected (skip_whitespace s)

-- What stands after an item: the end, or a comma.
abbrev pub separator : ℕ → Text → Read Bool
separator close [] = err malformed
separator close (c ∷ s) =
    if c == close then ok (false, s) else if c == b',' then ok (true, s) else err malformed

-- The loops of ParseArray and ParseObject: items with commas between them, up to the closing bracket.
module _ {ℓ κ} {A : Type ℓ} {C : Type κ} (none_there : C) (add : A → C → C) (item : Text → Read A)
    (close : ℕ) where
  unfoldable pub comma_items : ℕ → Text → Read C
  unfolding skip_whitespace
  comma_items zero s = err out_of_fuel
  comma_items (suc fuel) s = item s >>= λ first.
      separator close (skip_whitespace first.1) >>= λ next. elim next.0 [
        | false ↦ ok (add first.0 none_there, next.1)
        | true ↦ comma_items fuel next.1 >>= λ more. ok (add first.0 more.0, more.1)
      ]

  abbrev closes : Text → Bool
  closes [] = false
  closes (c ∷ s) = c == close

  -- From the opening bracket on, which is read.
  unfoldable pub comma_list : ℕ → Text → Read C
  unfolding comma_items skip_whitespace
  comma_list fuel s =
      let t = skip_whitespace s in
      if closes t then ok (none_there, skip 1 t) else comma_items fuel t

abbrev pub number_char : ℕ → Bool
number_char c =
    (leb b'0' c && leb c b'9') || c == b'.' || c == b'e' || c == b'E' || c == b'+' || c == b'-'

-- The loop over the characters of a number.
unfoldable pub read_number : Text → Text × Text
read_number [] = ([], [])
read_number (c ∷ s) =
    let rest = read_number s in if number_char c then (c ∷ rest.0, rest.1) else ([], c ∷ s)

abbrev pub starts_number : ℕ → Bool
starts_number c = c == b'-' || (leb b'0' c && leb c b'9')

-- `input.compare(position, length, word) == 0`
abbrev pub at : Text → Text → Bool
at word s = text_eq (take (length word) s) word
