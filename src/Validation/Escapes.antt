-- ===== src/Validation/Escapes.antt =====
-- ParseString on what QuackapiJsonEscape writes.
use quackapi.Base.{
  ℕ, zero, suc, ◌+◌, ◌*◌, ◌/◌, ◌%◌, ◌≤◌, ◌<◌, ltb, leb, true, false, [], ◌∷◌, ◌++◌, length,
  length-append, ok, ◌==◌, ==_iff, append_assoc, append-nil, ◌≡◌, refl, sym, ap, ◌∙◌, subst, arith,
  Bool-cases, inl, inr,
}
use quackapi.Text.{Text}
use quackapi.Util.{escape_byte, json_escape, hex_digit}
use quackapi.Util.Escape.{by_letter, escape_byte-control}
use quackapi.Validation.{skip_whitespace, consume}
use quackapi.Validation.Strings.{
  hex_value, unicode_escape, surrogates, utf8, read_escape, string_from, parse_string,
}

-- One round of the loop reads one escaped byte.
abbrev Step : ℕ → Type 0
Step c =
    (fuel : ℕ) (result rest : Text)
    → string_from (suc fuel) result (escape_byte c ++ rest)
      ≡ string_from fuel (result ++ c ∷ []) rest

Step-same : (c k : ℕ) → (c == k) ≡ true → Step k → Step c
Step-same c k same h = subst Step (sym ((==_iff c k).0 same)) h

letter-Step : (c : ℕ) → by_letter c ≡ true → Step c
unfolding string_from escape_byte read_escape
letter-Step c h = elim (Bool-cases (c == 34)) [
  | inl e ↦ Step-same c 34 e λ fuel result rest. refl
  | inr other1 ↦ elim (Bool-cases (c == 92)) [
    | inl e ↦ Step-same c 92 e λ fuel result rest. refl
    | inr other2 ↦ elim (Bool-cases (c == 8)) [
      | inl e ↦ Step-same c 8 e λ fuel result rest. refl
      | inr other3 ↦ elim (Bool-cases (c == 12)) [
        | inl e ↦ Step-same c 12 e λ fuel result rest. refl
        | inr other4 ↦ elim (Bool-cases (c == 10)) [
          | inl e ↦ Step-same c 10 e λ fuel result rest. refl
          | inr other5 ↦ elim (Bool-cases (c == 13)) [
            | inl e ↦ Step-same c 13 e λ fuel result rest. refl
            | inr other6 ↦ Step-same c 9 (ground arith) λ fuel result rest. refl
          ]
        ]
      ]
    ]
  ]
]

hex_value-digit : (n : ℕ) → n < 16 → hex_value (hex_digit n) ≡ ok n
unfolding hex_value
hex_value-digit n h = elim (Bool-cases (ltb n 10)) [
  | inl small ↦ rw small (ground arith)
  | inr large ↦ rw large (ground arith)
]

surrogates-small : (c : ℕ) (rest : Text) → ltb c 32 ≡ true → surrogates c rest ≡ ok (c, rest)
unfolding surrogates
surrogates-small c rest small = let low : leb 0xd800 c ≡ false = ground arith in rw low refl

utf8-small : (c : ℕ) → ltb c 32 ≡ true → utf8 c ≡ c ∷ []
unfolding utf8
utf8-small c small = let low : leb c 0x7f ≡ true = ground arith in rw low refl

-- The escape of a control byte is a code point of one byte.
control-read :
    (c : ℕ) (rest : Text)
    → ltb c 32 ≡ true
    → read_escape (b'u' ∷ b'0' ∷ b'0' ∷ hex_digit (c / 16) ∷ hex_digit (c % 16) ∷ rest)
      ≡ ok (c ∷ [], rest)
unfolding read_escape unicode_escape
control-read c rest small =
    rw (hex_value-digit (c / 16) (ground arith), hex_value-digit (c % 16) (ground arith))
      (let back : (0 + c / 16) * 16 + c % 16 ≡ c = omega arith in
        rw back (rw (surrogates-small c rest small) (rw (utf8-small c small) refl)))

escape_byte-plain : (c : ℕ) → by_letter c ≡ false → ltb c 32 ≡ false → escape_byte c ≡ c ∷ []
unfolding escape_byte
escape_byte-plain c letter large = ground arith

plain-Step : (c : ℕ) → by_letter c ≡ false → ltb c 32 ≡ false → Step c
unfolding string_from
plain-Step c letter large fuel result rest =
    let quote : c == 34 ≡ false = ground arith in
    let slash : c == 92 ≡ false = ground arith in
    ap (λ t. string_from (suc fuel) result (t ++ rest)) (escape_byte-plain c letter large)
    ∙ (rw (quote, large, slash, string_from) refl)

byte-Step : (c : ℕ) → Step c
unfolding string_from
byte-Step c = elim (Bool-cases (by_letter c)) [
  | inl letter ↦ letter-Step c letter
  | inr none_there ↦ elim (Bool-cases (ltb c 32)) [
    | inl small ↦ λ fuel result rest.
        ap (λ t. string_from (suc fuel) result (t ++ rest)) (escape_byte-control c none_there small)
        ∙ (rw (control-read c rest small) refl)
    | inr large ↦ plain-Step c none_there large
  ]
]

-- What QuackapiJsonEscape writes, up to the quote after it, is read as it was.
pub string_from-json_escape :
    (s result rest : Text) (fuel : ℕ)
    → length s < fuel
    → string_from fuel result (json_escape s ++ 34 ∷ rest) ≡ ok (result ++ s, rest)
unfolding string_from json_escape
string_from-json_escape s result rest zero h = absurd (omega arith)
string_from-json_escape [] result rest (suc fuel) h = rw (append-nil result) refl
string_from-json_escape (c ∷ s) result rest (suc fuel) h =
    ap (string_from (suc fuel) result) (append_assoc (escape_byte c) (json_escape s) (34 ∷ rest))
    ∙ byte-Step c fuel result (json_escape s ++ 34 ∷ rest)
    ∙ string_from-json_escape s (result ++ c ∷ []) rest fuel (omega arith)
    ∙ ap (λ t. ok (t, rest)) (append_assoc result (c ∷ []) s)

escape_byte-long : (c : ℕ) → 1 ≤ length (escape_byte c)
unfolding escape_byte
escape_byte-long c = ground arith

json_escape-long : (s : Text) → length s ≤ length (json_escape s)
unfolding json_escape
json_escape-long [] = omega arith
json_escape-long (c ∷ s) =
    omega
      (arith, length-append (escape_byte c) (json_escape s), escape_byte-long c, json_escape-long s)

pub parse_string-quoted :
    (s rest : Text) → parse_string (34 ∷ (json_escape s ++ 34 ∷ rest)) ≡ ok (s, rest)
unfolding parse_string consume skip_whitespace
parse_string-quoted s rest =
    string_from-json_escape s [] rest (suc (length (json_escape s ++ 34 ∷ rest)))
      (omega (arith, length-append (json_escape s) (34 ∷ rest), json_escape-long s))
