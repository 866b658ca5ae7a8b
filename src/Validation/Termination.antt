-- ===== src/Validation/Termination.antt =====
-- JsonReader ends: the model's fuel is enough for every text.
use quackapi.Base.{
  ℕ, zero, suc, ◌+◌, ◌≤◌, ◌<◌, ltb, Bool, true, false, [], ◌∷◌, length, ok, err, ◌>>=◌,
  Result-cases, err-injective, ◌==◌, ◌≡◌, ◌≢◌, refl, sym, ◌∙◌, subst, arith, Bool-cases, inl, inr,
}
use quackapi.Text.{Text, codes}
use quackapi.Validation.{
  Node, no_child, child, no_member, malformed, out_of_fuel, Read, skip_whitespace, consume,
  separator, comma_items, comma_list, closes, read_number, at, max_nesting_depth, starts_number,
}
use quackapi.Validation.Strings.{string_from, parse_string}
use quackapi.Validation.Reader.{
  parse_member, add_member, parse_scalar, value_from, value_at, parse_value, at_end, parse_document,
}
use quackapi.Validation.Consumes.{
  Within, Within->>=, Within-weaken, Below->>=, Below-weaken, consume-Below, skip_whitespace-le,
  skip-le, string_from-Within,
}

parse_string-Within : (s : Text) → Within (length s) (parse_string s)
unfolding parse_string
parse_string-Within s = Below->>= _ (consume 34 s) _ (consume-Below 34 s) λ rest shorter.
    Within-weaken _ _ (string_from (suc (length rest)) [] rest) (omega arith)
      (string_from-Within (suc (length rest)) [] rest (omega arith))

read_number-le : (s : Text) → length (read_number s).1 ≤ length s
unfolding read_number
read_number-le [] = omega arith
read_number-le (c ∷ s) = ground (arith, read_number-le s)

parse_scalar-Within : (c : ℕ) (s : Text) → Within (suc (length s)) (parse_scalar c s)
unfolding parse_scalar
parse_scalar-Within c s = elim (Bool-cases (at (codes "true") (c ∷ s))) [
  | inl t ↦ rw (t, parse_scalar) (omega (arith, skip-le 3 s))
  | inr o1 ↦ elim (Bool-cases (at (codes "false") (c ∷ s))) [
    | inl f ↦ rw (o1, f, parse_scalar) (omega (arith, skip-le 4 s))
    | inr o2 ↦ elim (Bool-cases (at (codes "null") (c ∷ s))) [
      | inl n ↦ rw (o1, o2, n, parse_scalar) (omega (arith, skip-le 3 s))
      | inr o3 ↦ elim (Bool-cases (starts_number c)) [
        | inl d ↦ rw (o1, o2, o3, d, parse_scalar) (omega (arith, read_number-le s))
        | inr bad ↦ rw (o1, o2, o3, bad, parse_scalar) refl
      ]
    ]
  ]
]

separator-Within : (close : ℕ) (s : Text) → Within (length s) (separator close s)
separator-Within close [] = refl
separator-Within close (c ∷ s) = elim (Bool-cases (c == close)) [
  | inl ends ↦ rw ends (omega arith)
  | inr other ↦ elim (Bool-cases (c == b',')) [
    | inl comma ↦ rw (other, comma) (omega arith)
    | inr bad ↦ rw (other, bad) refl
  ]
]

-- An item reads something of each text below the bound.
abbrev Reads {ℓ} : {A : Type ℓ} → ℕ → (Text → Read A) → Type 0
Reads bound item = (t : Text) → length t < bound → Within (length t) (item t)

module _ {ℓ κ} {A : Type ℓ} {C : Type κ} (none_there : C) (add : A → C → C) (item : Text → Read A)
    (close bound : ℕ) (reads : Reads bound item) where
  -- What follows the separator.
  rest-Within :
      (n : ℕ) (first : A) (more : Bool) (left : Text) (later : Read C)
      → length left < n
      → Within (length left) later
      → Within n (elim more [
        | false ↦ ok (add first none_there, left)
        | true ↦ later >>= λ others. ok (add first others.0, others.1)
      ])
  rest-Within n first false left later h k = h
  rest-Within n first true left (err failure) h k = k
  rest-Within n first true left (ok (others, end)) h k = omega arith

  comma_items-Within :
      (fuel : ℕ) (s : Text)
      → length s < fuel
      → length s < bound
      → Within (length s) (comma_items none_there add item close fuel s)
  unfolding comma_items
  comma_items-Within zero s h b = absurd (omega arith)
  comma_items-Within (suc fuel) s h b = Within->>= _ (item s) _ (reads s b) λ first rest shorter.
      Within->>= _ (separator close (skip_whitespace rest)) _
        (Within-weaken _ _ (separator close (skip_whitespace rest))
          (omega (arith, skip_whitespace-le rest)) (separator-Within close (skip_whitespace rest)))
        λ more left fewer.
          rest-Within (length s) first more left (comma_items none_there add item close fuel left)
            fewer (comma_items-Within fuel left (omega arith) (omega arith))

  comma_list-Within :
      (fuel : ℕ) (s : Text)
      → length s < fuel
      → length s < bound
      → Within (suc (length s)) (comma_list none_there add item close fuel s)
  unfolding comma_list
  comma_list-Within fuel s h b =
      let t = skip_whitespace s in
      let shorter = skip_whitespace-le s in
      elim (Bool-cases (closes none_there add item close t)) [
        | inl ends ↦ rw ends (omega (arith, skip-le 1 t))
        | inr more ↦ rw more (
            Within-weaken (length t) (suc (length s)) (comma_items none_there add item close fuel t)
              (omega arith) (comma_items-Within fuel t (omega arith) (omega arith)))
      ]

module _ (parse : Text → Read Node) (bound : ℕ) (reads : Reads bound parse) where
  parse_member-Within : Reads bound (parse_member parse)
  unfolding parse_member
  parse_member-Within s b =
      Within->>= _ (parse_string s) _ (parse_string-Within s) λ key rest shorter.
        Below->>= _ (consume b':' rest) _
          (Below-weaken _ _ (consume b':' rest) (omega arith) (consume-Below b':' rest))
          λ t less.
            Within->>= _ (parse t) _
              (Within-weaken _ _ (parse t) (omega arith) (reads t (omega arith)))
              λ value end within. within

  value_from-Within :
      (fuel depth c : ℕ) (s : Text)
      → length s < fuel
      → length s < bound
      → Within (suc (length s)) (value_from parse fuel depth c s)
  unfolding value_from
  value_from-Within fuel depth c s h b = elim (Bool-cases (c == 34)) [
    | inl quote ↦
        rw (quote, value_from)
          (Within->>= _ (parse_string (c ∷ s)) _ (parse_string-Within (c ∷ s))
            λ text rest within. within)
    | inr o1 ↦ elim (Bool-cases (c == b'{')) [
      | inl brace ↦ elim (Bool-cases (ltb depth max_nesting_depth)) [
        | inl shallow ↦
            rw (o1, brace, shallow, value_from)
              (Within->>= _ (comma_list no_member add_member (parse_member parse) b'}' fuel s) _
                (comma_list-Within no_member add_member (parse_member parse) b'}' bound
                  parse_member-Within fuel s h b)
                λ members rest within. within)
        | inr deep ↦ rw (o1, brace, deep, value_from) refl
      ]
      | inr o2 ↦ elim (Bool-cases (c == b'[')) [
        | inl bracket ↦ elim (Bool-cases (ltb depth max_nesting_depth)) [
          | inl shallow ↦
              rw (o1, o2, bracket, shallow, value_from)
                (Within->>= _ (comma_list no_child child parse b']' fuel s) _
                  (comma_list-Within no_child child parse b']' bound reads fuel s h b)
                  λ nodes rest within. within)
          | inr deep ↦ rw (o1, o2, bracket, deep, value_from) refl
        ]
        | inr o3 ↦ rw (o1, o2, o3, value_from) (parse_scalar-Within c s)
      ]
    ]
  ]

value_at-Within :
    (parse : Text → Read Node) (fuel depth : ℕ)
    → Reads fuel parse
    → (t : Text) → length t < suc fuel
    → Within (length t) (value_at parse fuel depth t)
value_at-Within parse fuel depth reads [] h = refl
value_at-Within parse fuel depth reads (c ∷ s) h =
    value_from-Within parse fuel reads fuel depth c s (omega arith) (omega arith)

parse_value-Within :
    (fuel depth : ℕ) (s : Text) → length s < fuel → Within (length s) (parse_value fuel depth s)
unfolding parse_value
parse_value-Within zero depth s h = absurd (omega arith)
parse_value-Within (suc fuel) depth s h =
    let t = skip_whitespace s in
    Within-weaken (length t) (length s) (value_at (parse_value fuel (depth + 1)) fuel depth t)
      (skip_whitespace-le s)
      (value_at-Within (parse_value fuel (depth + 1)) fuel depth
        (parse_value-Within fuel (depth + 1)) t (omega (arith, skip_whitespace-le s)))

malformed-fueled : malformed ≢ out_of_fuel
malformed-fueled h = cc

at_end-fueled : (node : Node) (rest : Text) → at_end (node, rest) ≢ err out_of_fuel
at_end-fueled node [] h = cc
at_end-fueled node (_ ∷ _) h = cc

-- Every text is read or refused: the reader of JSON ends on it, on as much fuel as it has characters, and one.
pub parse_document-ends : (input : Text) → parse_document input ≢ err out_of_fuel
unfolding parse_document
parse_document-ends input h =
    let t = skip_whitespace input in
    let within =
      parse_value-Within (suc (length input)) 0 t (omega (arith, skip_whitespace-le input)) in
    elim (Result-cases (parse_value (suc (length input)) 0 t)) [
      | inl ((node, rest), e) ↦ at_end-fueled node (skip_whitespace rest) (rw e at h)
      | inr (failure, e) ↦
          let refused : failure ≡ malformed = subst (Within (length t)) e within in
          malformed-fueled (sym refused ∙ err-injective (rw e at h))
    ]
