-- ===== src/Validation/RoundTrip.antt =====
-- JsonReader on what SerializeTransformNode writes.
use quackapi.Base.{
  ℕ, zero, suc, ◌+◌, ◌<◌, ltb, true, false, [], ◌∷◌, ◌++◌, length, length-append, ok, ◌>>=◌, ◌==◌,
  append_assoc, append-nil, ◌≡◌, refl, ap, ◌∙◌, subst, arith,
}
use quackapi.Text.{Text, text_eq}
use quackapi.Strings.{StringUtil}
use quackapi.Util.{json_escape}
use quackapi.Validation.{
  Node, nil, boolean, number, string, array, object, Nodes, no_child, child, Members, no_member,
  member, Read, skip_whitespace, comma_items, comma_list, max_nesting_depth, json_space,
}
use quackapi.Validation.Strings.{parse_string}
use quackapi.Validation.Reader.{
  parse_member, add_member, parse_scalar, value_from, parse_value, parse_document,
}
use quackapi.Validation.Transform.{quoted, serialize}
use quackapi.Validation.Escapes.{parse_string-quoted}
use quackapi.Validation.Items.{
  printable, nodes_printable, members_printable, opens, parse_scalar-number, skip_whitespace-opens,
  written-opens, unspaced, written, nodes_written, members_written, ReadsBack, after_child,
  children, after_member, members, nodes_written-after_child, child_last, child_more,
  members_written-after_member, member_last, member_more,
}

-- A list that does not start with its closing bracket is read item by item.
comma_list-items {ℓ κ} :
    {A : Type ℓ} {C : Type κ} (none_there : C) (add : A → C → C) (item : Text → Read A)
    (close fuel c : ℕ) (s : Text)
    → json_space c ≡ false
    → (c == close) ≡ false
    → comma_list none_there add item close fuel (c ∷ s)
      ≡ comma_items none_there add item close fuel (c ∷ s)
unfolding comma_list
comma_list-items none_there add item close fuel c s plain other =
    rw (skip_whitespace-opens c s plain) (rw other refl)

module _ (strings : StringUtil) (trim : Text → Text) where
  abbrev Back : ℕ → Node → Type 0
  Back = ReadsBack strings trim

  nil-Back : (depth : ℕ) → Back depth nil
  unfolding serialize parse_value value_from skip_whitespace parse_scalar text_eq
  nil-Back depth zero rest f k = absurd (omega arith)
  nil-Back depth (suc fuel) rest f k = refl

  string-Back : (depth : ℕ) (value : Text) → Back depth (string value)
  unfolding serialize parse_value value_from skip_whitespace
  string-Back depth value zero rest f k = absurd (omega arith)
  string-Back depth value (suc fuel) rest f k =
      ap (λ t. parse_string (34 ∷ t) >>= λ text. ok (string text.0, text.1))
        (append_assoc (json_escape value) (34 ∷ []) rest)
      ∙ rw (parse_string-quoted value rest) refl

  number-Back :
      (depth : ℕ) (digits : Text)
      → printable depth (number digits) ≡ true
      → Back depth (number digits)
  unfolding serialize parse_value value_from
  number-Back depth [] h fuel rest f k = cc
  number-Back depth (c ∷ s) h zero rest f k = absurd (omega arith)
  number-Back depth (c ∷ s) h (suc fuel) rest f k =
      let plain : json_space c ≡ false = ground arith in
      let quote : c == 34 ≡ false = ground arith in
      let brace : c == b'{' ≡ false = ground arith in
      let bracket : c == b'[' ≡ false = ground arith in
      rw (skip_whitespace-opens c (s ++ rest) plain) (
        rw (quote, brace, bracket, parse_scalar-number c s rest (ground arith) (ground arith) k)
          refl)

  -- A list of items that starts with a value is read item by item.
  comma_list-written {κ} :
      {A : Type 0} {C : Type κ} (none_there : C) (add : A → C → C) (item : Text → Read A)
      (close fuel depth : ℕ) (x : Node) (rest : Text)
      → ((c : ℕ) → opens c ≡ true → (c == close) ≡ false)
      → printable depth x ≡ true
      → comma_list none_there add item close fuel (written strings trim x ++ rest)
        ≡ comma_items none_there add item close fuel (written strings trim x ++ rest)
  comma_list-written none_there add item close fuel depth x rest other h =
      let (c, s, e, o) = written-opens strings trim depth x h in
      rw e
        (comma_list-items none_there add item close fuel c (s ++ rest) (ground arith) (other c o))

  array_text :
      (x : Node) (xs : Nodes) (rest : Text)
      → ((written strings trim x ++ nodes_written strings trim xs) ++ b']' ∷ []) ++ rest
        ≡ written strings trim x ++ after_child strings trim xs rest
  array_text x xs rest =
      append_assoc (written strings trim x ++ nodes_written strings trim xs) (b']' ∷ []) rest
      ∙ append_assoc (written strings trim x) (nodes_written strings trim xs) (b']' ∷ rest)
      ∙ ap (λ t. written strings trim x ++ t) (nodes_written-after_child strings trim xs rest)

  object_text :
      (key : Text) (x : Node) (xs : Members) (rest : Text)
      → ((quoted key ++ b':' ∷ (written strings trim x ++ members_written strings trim xs))
            ++ b'}' ∷ [])
          ++ rest
        ≡ quoted key ++ b':' ∷ (written strings trim x ++ after_member strings trim xs rest)
  object_text key x xs rest =
      append_assoc
        (quoted key ++ b':' ∷ (written strings trim x ++ members_written strings trim xs))
        (b'}' ∷ []) rest
      ∙ append_assoc (quoted key)
          (b':' ∷ (written strings trim x ++ members_written strings trim xs)) (b'}' ∷ rest)
      ∙ ap (λ t. quoted key ++ b':' ∷ t)
          (append_assoc (written strings trim x) (members_written strings trim xs) (b'}' ∷ rest)
            ∙ ap (λ t. written strings trim x ++ t)
                (members_written-after_member strings trim xs rest))

  array-back :
      (depth fuel : ℕ) (x : Node) (xs : Nodes) (rest : Text)
      → ltb depth max_nesting_depth ≡ true
      → printable (depth + 1) x ≡ true
      → children strings trim fuel
          (depth + 1)
          fuel
          (written strings trim x ++ after_child strings trim xs rest)
        ≡ ok (child x xs, rest)
      → parse_value (suc fuel) depth (written strings trim (array (child x xs)) ++ rest)
        ≡ ok (array (child x xs), rest)
  unfolding serialize parse_value value_from skip_whitespace
  array-back depth fuel x xs rest shallow h items = rw shallow (
      ap
        (λ t. comma_list no_child child (parse_value fuel (depth + 1)) b']' fuel t >>= λ nodes.
          ok (array nodes.0, nodes.1))
        (array_text x xs rest)
      ∙ rw
          (comma_list-written no_child child (parse_value fuel (depth + 1)) b']' fuel (depth + 1) x
            (after_child strings trim xs rest) (λ c o. ground arith) h)
          (rw items refl))

  object-back :
      (depth fuel : ℕ) (key : Text) (x : Node) (xs : Members) (rest : Text)
      → ltb depth max_nesting_depth ≡ true
      → members strings trim fuel
          (depth + 1)
          fuel
          (quoted key ++ b':' ∷ (written strings trim x ++ after_member strings trim xs rest))
        ≡ ok (member key x xs, rest)
      → parse_value (suc fuel) depth (written strings trim (object (member key x xs)) ++ rest)
        ≡ ok (object (member key x xs), rest)
  unfolding serialize parse_value value_from skip_whitespace
  object-back depth fuel key x xs rest shallow items = rw shallow (
      ap
        (λ t.
          comma_list no_member add_member (parse_member (parse_value fuel (depth + 1))) b'}' fuel t
          >>= λ found. ok (object found.0, found.1))
        (object_text key x xs rest)
      ∙ rw
          (comma_list-items no_member add_member (parse_member (parse_value fuel (depth + 1))) b'}'
            fuel 34
            ((json_escape key ++ 34 ∷ [])
              ++ b':' ∷ (written strings trim x ++ after_member strings trim xs rest))
            refl refl)
          (rw items refl))

  empty_array-Back : (depth : ℕ) → ltb depth max_nesting_depth ≡ true → Back depth (array no_child)
  unfolding serialize parse_value value_from skip_whitespace comma_list
  empty_array-Back depth shallow zero rest f k = absurd (omega arith)
  empty_array-Back depth shallow (suc fuel) rest f k = rw shallow refl

  empty_object-Back :
      (depth : ℕ) → ltb depth max_nesting_depth ≡ true → Back depth (object no_member)
  unfolding serialize parse_value value_from skip_whitespace comma_list
  empty_object-Back depth shallow zero rest f k = absurd (omega arith)
  empty_object-Back depth shallow (suc fuel) rest f k = rw shallow refl

  mutual
    unfolding serialize

    value-Back : (node : Node) (depth : ℕ) → printable depth node ≡ true → Back depth node
    value-Back nil depth h = nil-Back depth
    value-Back boolean depth h = cc
    value-Back (number digits) depth h = number-Back depth digits h
    value-Back (string value) depth h = string-Back depth value
    value-Back (array nodes) depth h = array_nodes-Back nodes depth (ground arith) (ground arith)
    value-Back (object found) depth h =
        object_members-Back found depth (ground arith) (ground arith)

    array_nodes-Back :
        (nodes : Nodes) (depth : ℕ)
        → ltb depth max_nesting_depth ≡ true
        → nodes_printable (depth + 1) nodes ≡ true
        → Back depth (array nodes)
    array_nodes-Back no_child depth shallow h fuel rest f k =
        empty_array-Back depth shallow fuel rest f k
    array_nodes-Back (child x xs) depth shallow h zero rest f k = absurd (omega arith)
    array_nodes-Back (child x xs) depth shallow h (suc fuel) rest f k =
        let shorter : length (written strings trim x ++ after_child strings trim xs rest) < fuel =
          omega (arith, ap length (array_text x xs rest)) in
        array-back depth fuel x xs rest shallow (ground arith) (
          children-Back xs x (depth + 1) fuel fuel rest (value-Back x (depth + 1) (ground arith))
            (ground arith) shorter shorter)

    children-Back :
        (xs : Nodes) (x : Node) (depth parsing fuel : ℕ) (rest : Text)
        → Back depth x
        → nodes_printable depth xs ≡ true
        → length (written strings trim x ++ after_child strings trim xs rest) < fuel
        → length (written strings trim x ++ after_child strings trim xs rest) < parsing
        → children strings trim parsing depth fuel
            (written strings trim x ++ after_child strings trim xs rest)
          ≡ ok (child x xs, rest)
    children-Back xs x depth parsing zero rest back h f p = absurd (omega arith)
    children-Back no_child x depth parsing (suc fuel) rest back h f p =
        child_last strings trim x depth parsing fuel rest back p
    children-Back (child y ys) x depth parsing (suc fuel) rest back h f p =
        let whole =
          length-append (written strings trim x) (after_child strings trim (child y ys) rest) in
        child_more strings trim x y ys depth parsing fuel rest back
          (children-Back ys y depth parsing fuel rest (value-Back y depth (ground arith))
            (ground arith) (omega (arith, whole)) (omega (arith, whole)))
          p

    object_members-Back :
        (found : Members) (depth : ℕ)
        → ltb depth max_nesting_depth ≡ true
        → members_printable (depth + 1) found ≡ true
        → Back depth (object found)
    object_members-Back no_member depth shallow h fuel rest f k =
        empty_object-Back depth shallow fuel rest f k
    object_members-Back (member key x xs) depth shallow h zero rest f k = absurd (omega arith)
    object_members-Back (member key x xs) depth shallow h (suc fuel) rest f k =
        let tail = written strings trim x ++ after_member strings trim xs rest in
        let shorter : length tail + 1 < fuel = omega (
          arith,
          ap length (object_text key x xs rest),
          length-append (quoted key) (b':' ∷ tail),
        ) in
        object-back depth fuel key x xs rest shallow (
          members-Back xs key x (depth + 1) fuel fuel rest (value-Back x (depth + 1) (ground arith))
            (ground arith) (omega arith) (omega arith))

    members-Back :
        (xs : Members) (key : Text) (x : Node) (depth parsing fuel : ℕ) (rest : Text)
        → Back depth x
        → members_printable depth xs ≡ true
        → length (written strings trim x ++ after_member strings trim xs rest) < fuel
        → length (written strings trim x ++ after_member strings trim xs rest) < parsing
        → members strings trim parsing depth fuel
            (quoted key ++ b':' ∷ (written strings trim x ++ after_member strings trim xs rest))
          ≡ ok (member key x xs, rest)
    members-Back xs key x depth parsing zero rest back h f p = absurd (omega arith)
    members-Back no_member key x depth parsing (suc fuel) rest back h f p =
        member_last strings trim key x depth parsing fuel rest back p
    members-Back (member next y ys) key x depth parsing (suc fuel) rest back h f p =
        let tail = written strings trim y ++ after_member strings trim ys rest in
        let whole =
          length-append (written strings trim x)
            (after_member strings trim (member next y ys) rest) in
        let long = length-append (quoted next) (b':' ∷ tail) in
        member_more strings trim key next x y ys depth parsing fuel rest back
          (members-Back ys next y depth parsing fuel rest (value-Back y depth (ground arith))
            (ground arith) (omega (arith, whole, long)) (omega (arith, whole, long)))
          p

  -- What SerializeTransformNode writes of a declaration is read as that declaration, where it holds no Boolean, its numbers
  -- are those that the reader reads, it is nested at most 128 deep, and no VARIANT is replaced.
  pub parse_document-serialize :
      (node : Node)
      → printable 0 node ≡ true
      → parse_document (serialize strings trim false node) ≡ ok node
  unfolding parse_document skip_whitespace
  parse_document-serialize node h =
      let w = written strings trim node in
      let plain : skip_whitespace w ≡ w =
        subst (λ t. skip_whitespace t ≡ t) (append-nil w) (unspaced strings trim 0 node [] h) in
      let back : parse_value (suc (length w)) 0 w ≡ ok (node, []) =
        subst (λ t. parse_value (suc (length w)) 0 t ≡ ok (node, [])) (append-nil w)
          (value-Back node 0 h (suc (length w)) [] (omega (arith, length-append w [])) refl) in
      rw plain (rw back refl)
