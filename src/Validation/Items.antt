-- ===== src/Validation/Items.antt =====
-- Items with commas between them, as SerializeTransformNode writes them and JsonReader reads them.
use quackapi.Base.{
  ℕ, suc, ◌+◌, ◌<◌, ltb, Bool, true, false, not, ◌&&◌, [], ◌∷◌, ◌++◌, all, length, ok, ◌==◌,
  append_assoc, ◌≡◌, refl, ap, ◌∙◌, arith,
}
use quackapi.Text.{Text, codes, text_eq}
use quackapi.Strings.{StringUtil}
use quackapi.Util.{json_escape}
use quackapi.Validation.{
  Node, nil, boolean, number, string, array, object, Nodes, no_child, child, Members, no_member,
  member, Read, skip_whitespace, consume, comma_items, read_number, number_char, starts_number,
  max_nesting_depth, json_space,
}
use quackapi.Validation.Reader.{parse_member, add_member, parse_scalar, parse_value}
use quackapi.Validation.Transform.{quoted, serialize, serialize_nodes, serialize_members}
use quackapi.Validation.Escapes.{parse_string-quoted}

-- A number as the reader reads it.
abbrev pub is_number : Text → Bool
is_number [] = false
is_number (c ∷ s) = starts_number c && all number_char s

-- A value without a Boolean, with numbers that the reader reads, and nested at most 128 deep.
abbrev mutual
  pub printable : ℕ → Node → Bool
  printable depth nil = true
  printable depth boolean = false
  printable depth (number digits) = is_number digits
  printable depth (string value) = true
  printable depth (array nodes) = ltb depth max_nesting_depth && nodes_printable (depth + 1) nodes
  printable depth (object members) =
      ltb depth max_nesting_depth && members_printable (depth + 1) members

  pub nodes_printable : ℕ → Nodes → Bool
  nodes_printable depth no_child = true
  nodes_printable depth (child node nodes) = printable depth node && nodes_printable depth nodes

  pub members_printable : ℕ → Members → Bool
  members_printable depth no_member = true
  members_printable depth (member key node members) =
      printable depth node && members_printable depth members

-- What may follow a value: no character of a number.
abbrev pub stops : Text → Bool
stops [] = true
stops (c ∷ s) = not (number_char c)

pub read_number-stops :
    (digits rest : Text)
    → all number_char digits ≡ true
    → stops rest ≡ true
    → read_number (digits ++ rest) ≡ (digits, rest)
unfolding read_number
read_number-stops [] [] h k = refl
read_number-stops [] (c ∷ s) h k = ground arith
read_number-stops (d ∷ digits) rest h k =
    let digit : number_char d ≡ true = ground arith in
    rw (digit, read_number-stops digits rest (ground arith) k) refl

-- A character that a value starts with is no space and no closing bracket.
abbrev pub opens : ℕ → Bool
opens c = not (json_space c) && not (c == b']') && not (c == b'}')

pub skip_whitespace-opens :
    (c : ℕ) (s : Text) → json_space c ≡ false → skip_whitespace (c ∷ s) ≡ c ∷ s
unfolding skip_whitespace
skip_whitespace-opens c s h = rw h refl

pub parse_scalar-number :
    (c : ℕ) (digits rest : Text)
    → starts_number c ≡ true
    → all number_char digits ≡ true
    → stops rest ≡ true
    → parse_scalar c (digits ++ rest) ≡ ok (number (c ∷ digits), rest)
unfolding parse_scalar text_eq
parse_scalar-number c digits rest h k l =
    let t : c == b't' ≡ false = ground arith in
    let f : c == b'f' ≡ false = ground arith in
    let n : c == b'n' ≡ false = ground arith in
    rw (t, f, n, h, read_number-stops digits rest k l) refl

module _ (strings : StringUtil) (trim : Text → Text) where
  abbrev pub written : Node → Text
  written = serialize strings trim false

  abbrev pub nodes_written : Nodes → Text
  nodes_written = serialize_nodes strings trim false false

  abbrev pub members_written : Members → Text
  members_written = serialize_members strings trim false false

  -- A value is read back where something that is no number follows.
  abbrev pub ReadsBack : ℕ → Node → Type 0
  ReadsBack depth node =
      (fuel : ℕ) (rest : Text)
      → length (written node ++ rest) < fuel
      → stops rest ≡ true
      → parse_value fuel depth (written node ++ rest) ≡ ok (node, rest)

  pub written-opens :
      (depth : ℕ) (node : Node)
      → printable depth node ≡ true
      → (c : ℕ) × (s : Text) × (written node ≡ c ∷ s) × (opens c ≡ true)
  unfolding serialize
  written-opens depth nil h = (b'n', codes "ull", refl, refl)
  written-opens depth boolean h = cc
  written-opens depth (number []) h = cc
  written-opens depth (number (c ∷ s)) h = (c, s, refl, ground arith)
  written-opens depth (string value) h = (34, _, refl, refl)
  written-opens depth (array nodes) h = (b'[', _, refl, refl)
  written-opens depth (object members) h = (b'{', _, refl, refl)

  -- The spaces before a value are none.
  pub unspaced :
      (depth : ℕ) (node : Node) (rest : Text)
      → printable depth node ≡ true
      → skip_whitespace (written node ++ rest) ≡ written node ++ rest
  unspaced depth node rest h =
      let (c, s, e, o) = written-opens depth node h in
      rw e (skip_whitespace-opens c (s ++ rest) (ground arith))

  -- What follows a child: a comma and the next one, or the bracket.
  abbrev pub after_child : Nodes → Text → Text
  after_child no_child rest = b']' ∷ rest
  after_child (child y ys) rest = b',' ∷ (written y ++ after_child ys rest)

  pub nodes_written-after_child :
      (xs : Nodes) (rest : Text) → nodes_written xs ++ b']' ∷ rest ≡ after_child xs rest
  unfolding serialize
  nodes_written-after_child no_child rest = refl
  nodes_written-after_child (child y ys) rest =
      ap (λ t. b',' ∷ t)
        (append_assoc (written y) (nodes_written ys) (b']' ∷ rest)
          ∙ ap (λ t. written y ++ t) (nodes_written-after_child ys rest))

  after_child-stops : (xs : Nodes) (rest : Text) → stops (after_child xs rest) ≡ true
  after_child-stops no_child rest = refl
  after_child-stops (child y ys) rest = refl

  abbrev pub children : ℕ → ℕ → ℕ → Text → Read Nodes
  children parsing depth = comma_items no_child child (parse_value parsing depth) b']'

  pub child_last :
      (x : Node) (depth parsing fuel : ℕ) (rest : Text)
      → ReadsBack depth x
      → length (written x ++ b']' ∷ rest) < parsing
      → children parsing depth (suc fuel) (written x ++ b']' ∷ rest) ≡ ok (child x no_child, rest)
  unfolding comma_items skip_whitespace
  child_last x depth parsing fuel rest back p = rw (back parsing (b']' ∷ rest) p refl) refl

  pub child_more :
      (x y : Node) (ys : Nodes) (depth parsing fuel : ℕ) (rest : Text)
      → ReadsBack depth x
      → children parsing depth fuel (written y ++ after_child ys rest) ≡ ok (child y ys, rest)
      → length (written x ++ after_child (child y ys) rest) < parsing
      → children parsing depth (suc fuel) (written x ++ after_child (child y ys) rest)
        ≡ ok (child x (child y ys), rest)
  unfolding comma_items skip_whitespace
  child_more x y ys depth parsing fuel rest back later p =
      rw (back parsing (after_child (child y ys) rest) p refl) (rw later refl)

  -- The same for members.
  abbrev pub after_member : Members → Text → Text
  after_member no_member rest = b'}' ∷ rest
  after_member (member key y ys) rest =
      b',' ∷ (quoted key ++ b':' ∷ (written y ++ after_member ys rest))

  pub members_written-after_member :
      (xs : Members) (rest : Text) → members_written xs ++ b'}' ∷ rest ≡ after_member xs rest
  unfolding serialize
  members_written-after_member no_member rest = refl
  members_written-after_member (member key y ys) rest =
      ap (λ t. b',' ∷ t)
        (append_assoc (quoted key) (b':' ∷ (written y ++ members_written ys)) (b'}' ∷ rest)
          ∙ ap (λ t. quoted key ++ b':' ∷ t)
              (append_assoc (written y) (members_written ys) (b'}' ∷ rest)
                ∙ ap (λ t. written y ++ t) (members_written-after_member ys rest)))

  abbrev pub members : ℕ → ℕ → ℕ → Text → Read Members
  members parsing depth =
      comma_items no_member add_member (parse_member (parse_value parsing depth)) b'}'

  member_back :
      (key : Text) (x : Node) (depth parsing : ℕ) (rest : Text)
      → ReadsBack depth x
      → stops rest ≡ true
      → length (written x ++ rest) < parsing
      → parse_member (parse_value parsing depth) (quoted key ++ b':' ∷ (written x ++ rest))
        ≡ ok ((key, x), rest)
  unfolding parse_member consume skip_whitespace
  member_back key x depth parsing rest back stop p =
      ap (λ t. parse_member (parse_value parsing depth) (34 ∷ t))
        (append_assoc (json_escape key) (34 ∷ []) (b':' ∷ (written x ++ rest)))
      ∙ rw (parse_string-quoted key (b':' ∷ (written x ++ rest)))
          (rw (back parsing rest p stop) refl)

  pub member_last :
      (key : Text) (x : Node) (depth parsing fuel : ℕ) (rest : Text)
      → ReadsBack depth x
      → length (written x ++ b'}' ∷ rest) < parsing
      → members parsing depth (suc fuel) (quoted key ++ b':' ∷ (written x ++ b'}' ∷ rest))
        ≡ ok (member key x no_member, rest)
  unfolding comma_items skip_whitespace
  member_last key x depth parsing fuel rest back p =
      rw (member_back key x depth parsing (b'}' ∷ rest) back refl p) refl

  pub member_more :
      (key next : Text) (x y : Node) (ys : Members) (depth parsing fuel : ℕ) (rest : Text)
      → ReadsBack depth x
      → members parsing depth fuel (quoted next ++ b':' ∷ (written y ++ after_member ys rest))
        ≡ ok (member next y ys, rest)
      → length (written x ++ after_member (member next y ys) rest) < parsing
      → members parsing depth
          (suc fuel)
          (quoted key ++ b':' ∷ (written x ++ after_member (member next y ys) rest))
        ≡ ok (member key x (member next y ys), rest)
  unfolding comma_items skip_whitespace
  member_more key next x y ys depth parsing fuel rest back later p =
      rw (member_back key x depth parsing (after_member (member next y ys) rest) back refl p)
        (rw later refl)
