-- ===== src/Util/Escape.antt =====
-- A reader of JSON strings, on what QuackapiJsonEscape writes.
use quackapi.Base.{
  ℕ, zero, suc, ◌||◌, ==_iff, subst, ltb, ◌+◌, ◌-◌, ◌*◌, ◌/◌, ◌%◌, ◌<◌, Bool, true, false, [], ◌∷◌,
  ◌++◌, ◌==◌, if◌then◌else◌, Option, none, some, ◌≡◌, refl, sym, ap, ◌∙◌, arith, Bool-cases, inl,
  inr, append_assoc,
}
use quackapi.Text.{Text}
use quackapi.Util.{escape_byte, json_escape, hex_digit}

abbrev pub hex_value : ℕ → ℕ
hex_value d = if ltb d 58 then d - 48 else d - 87

abbrev pub push : ℕ → Option (Text × Text) → Option (Text × Text)
push c none = none
push c (some (s, rest)) = some (c ∷ s, rest)

-- The byte that a letter after a backslash stands for.
abbrev pub short_escape : ℕ → Option ℕ
short_escape e =
    if e == 34
    then some 34
    else if e == 92
    then some 92
    else if e == b'b'
    then some 8
    else if e == b'f'
    then some 12
    else if e == b'n'
    then some 10
    else if e == b'r'
    then some 13
    else if e == b't'
    then some 9
    else none

-- Where a reader of a JSON string stands: between characters, after a backslash, or before so many more
-- digits of a `\u` escape with the value so far.
pub data Reading : Type 0 where
  plain escaped : Reading
  hex : ℕ → ℕ → Reading

-- The reader of RFC 8259 after the opening quote: the string, where a `\u` escape gives the code point,
-- and what stands after the closing quote.
unfoldable pub read_string : Reading → Text → Option (Text × Text)
read_string reading [] = none
read_string plain (c ∷ rest) =
    let later = read_string plain rest in
    let escape = read_string escaped rest in
    if c == 34
    then some ([], rest)
    else if c == 92
    then escape
    else if ltb c 32
    then none
    else push c later
read_string escaped (e ∷ rest) =
    let later = read_string plain rest in
    let digits = read_string (hex 4 0) rest in
    if e == b'u' then digits else elim (short_escape e) [ none ↦ none | some c ↦ push c later ]
read_string (hex zero v) (d ∷ rest) = none
read_string (hex (suc zero) v) (d ∷ rest) = push (v * 16 + hex_value d) (read_string plain rest)
read_string (hex (suc (suc n)) v) (d ∷ rest) = read_string (hex (suc n) (v * 16 + hex_value d)) rest

pub hex_value-hex_digit : (n : ℕ) → n < 16 → hex_value (hex_digit n) ≡ n
hex_value-hex_digit n h = ground arith

-- The bytes that are escaped by a letter.
read_string-letter :
    (c k : ℕ) (rest : Text)
    → (c == k) ≡ true
    → read_string plain (escape_byte k ++ rest) ≡ push k (read_string plain rest)
    → read_string plain (escape_byte c ++ rest) ≡ push c (read_string plain rest)
read_string-letter c k rest same h =
    subst (λ j. read_string plain (escape_byte j ++ rest) ≡ push j (read_string plain rest))
      (sym ((==_iff c k).0 same)) h

abbrev pub by_letter : ℕ → Bool
by_letter c = c == 34 || c == 92 || c == 8 || c == 12 || c == 10 || c == 13 || c == 9

read_string-special :
    (c : ℕ) (rest : Text)
    → by_letter c ≡ true
    → read_string plain (escape_byte c ++ rest) ≡ push c (read_string plain rest)
unfolding read_string escape_byte
read_string-special c rest h = elim (Bool-cases (c == 34)) [
  | inl e ↦ read_string-letter c 34 rest e refl
  | inr other1 ↦ elim (Bool-cases (c == 92)) [
    | inl e ↦ read_string-letter c 92 rest e refl
    | inr other2 ↦ elim (Bool-cases (c == 8)) [
      | inl e ↦ read_string-letter c 8 rest e refl
      | inr other3 ↦ elim (Bool-cases (c == 12)) [
        | inl e ↦ read_string-letter c 12 rest e refl
        | inr other4 ↦ elim (Bool-cases (c == 10)) [
          | inl e ↦ read_string-letter c 10 rest e refl
          | inr other5 ↦ elim (Bool-cases (c == 13)) [
            | inl e ↦ read_string-letter c 13 rest e refl
            | inr other6 ↦ read_string-letter c 9 rest (ground arith) refl
          ]
        ]
      ]
    ]
  ]
]

pub escape_byte-control :
    (c : ℕ)
    → by_letter c ≡ false
    → ltb c 32 ≡ true
    → escape_byte c ≡ 92 ∷ b'u' ∷ b'0' ∷ b'0' ∷ hex_digit (c / 16) ∷ hex_digit (c % 16) ∷ []
unfolding escape_byte
escape_byte-control c h small = ground arith

read_string-control :
    (c : ℕ) (rest : Text)
    → by_letter c ≡ false
    → ltb c 32 ≡ true
    → read_string plain (escape_byte c ++ rest) ≡ push c (read_string plain rest)
unfolding read_string
read_string-control c rest h small =
    ap (λ t. read_string plain (t ++ rest)) (escape_byte-control c h small)
    ∙ ap (λ n. push n (read_string plain rest))
        (rw
          (hex_value-hex_digit (c / 16) (ground arith), hex_value-hex_digit (c % 16) (ground arith))
          (omega arith))

read_string-other :
    (c : ℕ) (rest : Text)
    → by_letter c ≡ false
    → ltb c 32 ≡ false
    → read_string plain (escape_byte c ++ rest) ≡ push c (read_string plain rest)
unfolding read_string escape_byte
read_string-other c rest h large = ground arith

read_string-byte :
    (c : ℕ) (rest : Text)
    → read_string plain (escape_byte c ++ rest) ≡ push c (read_string plain rest)
read_string-byte c rest = elim (Bool-cases (by_letter c)) [
  | inl letter ↦ read_string-special c rest letter
  | inr none_there ↦ elim (Bool-cases (ltb c 32)) [
    | inl small ↦ read_string-control c rest none_there small
    | inr large ↦ read_string-other c rest none_there large
  ]
]

-- What QuackapiJsonEscape makes of a string, followed by a closing quote and any text, is read back
-- as that string and that text.
pub read_string-json_escape :
    (s rest : Text) → read_string plain (json_escape s ++ 34 ∷ rest) ≡ some (s, rest)
unfolding json_escape read_string
read_string-json_escape [] rest = refl
read_string-json_escape (c ∷ s) rest =
    ap (read_string plain) (append_assoc (escape_byte c) (json_escape s) (34 ∷ rest))
    ∙ read_string-byte c (json_escape s ++ 34 ∷ rest)
    ∙ ap (push c) (read_string-json_escape s rest)
