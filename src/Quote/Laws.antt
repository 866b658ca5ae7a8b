-- ===== src/Quote/Laws.antt =====
-- Readers of quoted text, on what is quoted.
use quackapi.Base.{
  ℕ, Bool, true, false, [], ◌∷◌, ◌++◌, ◌||◌, Option, none, some, any, ◌==◌, if◌then◌else◌, ◌≡◌,
  refl, sym, ap, ◌∙◌, arith, ==_iff, Bool-cases, inl, inr, append_assoc,
}
use quackapi.Text.{Text}
use quackapi.Quote.{double_quote, quoted, sql_quote, needs_quote, csv_escape_field}

abbrev pub push : ℕ → Option (Text × Text) → Option (Text × Text)
push c none = none
push c (some (s, rest)) = some (c ∷ s, rest)

-- A reader of a quoted text after its opening quote: a quote that is followed by another one stands for
-- itself, and any other one closes the text. The flag says that a quote has just been read.
unfoldable pub read_quoted : ℕ → Bool → Text → Option (Text × Text)
read_quoted quote false [] = none
read_quoted quote true [] = some ([], [])
read_quoted quote false (c ∷ rest) =
    let closing = read_quoted quote true rest in
    let later = read_quoted quote false rest in if c == quote then closing else push c later
read_quoted quote true (c ∷ rest) =
    let later = read_quoted quote false rest in
    if c == quote then push quote later else some ([], c ∷ rest)

abbrev pub starts_with_byte : ℕ → Text → Bool
starts_with_byte c [] = false
starts_with_byte c (d ∷ _) = d == c

read_quoted-closed :
    (quote : ℕ) (rest : Text)
    → starts_with_byte quote rest ≡ false
    → read_quoted quote false (quote ∷ rest) ≡ some ([], rest)
unfolding read_quoted
read_quoted-closed quote [] h = ground arith
read_quoted-closed quote (c ∷ rest) h = ground arith

read_quoted-plain :
    (quote c : ℕ) (rest : Text)
    → (c == quote) ≡ false
    → read_quoted quote false (c ∷ rest) ≡ push c (read_quoted quote false rest)
unfolding read_quoted
read_quoted-plain quote c rest h = ground arith

read_quoted-pair :
    (quote : ℕ) (rest : Text)
    → read_quoted quote false (quote ∷ quote ∷ rest) ≡ push quote (read_quoted quote false rest)
unfolding read_quoted
read_quoted-pair quote rest = ground arith

read_quoted-double_quote :
    (quote : ℕ) (s rest : Text)
    → starts_with_byte quote rest ≡ false
    → read_quoted quote false (double_quote quote s ++ quote ∷ rest) ≡ some (s, rest)
unfolding double_quote
read_quoted-double_quote quote [] rest h = read_quoted-closed quote rest h
read_quoted-double_quote quote (c ∷ s) rest h = elim (Bool-cases (c == quote)) [
  | inr other ↦ rw other (
      ground (
        arith,
        read_quoted-plain quote c (double_quote quote s ++ quote ∷ rest) other,
        read_quoted-double_quote quote s rest h,
      ))
  | inl same ↦ rw same (
      read_quoted-pair quote (double_quote quote s ++ quote ∷ rest)
      ∙ rw (read_quoted-double_quote quote s rest h)
          (ap (λ k. some (k ∷ s, rest)) (sym ((==_iff c quote).0 same))))
]

-- What SqlQuote makes of a text, followed by anything but another single quote, is a quote and a
-- body that is read back, by SQL's rule for quotes, as that text and what follows.
pub read_quoted-sql_quote :
    (s rest : Text)
    → starts_with_byte 39 rest ≡ false
    → (body : Text) × (sql_quote s ++ rest ≡ 39 ∷ body)
      × (read_quoted 39 false body ≡ some (s, rest))
unfolding sql_quote
read_quoted-sql_quote s rest h = (
  double_quote 39 s ++ 39 ∷ rest,
  ap (λ t. 39 ∷ t) (append_assoc (double_quote 39 s) (39 ∷ []) rest),
  read_quoted-double_quote 39 s rest h,
)

-- A field that is not quoted, up to the byte that ends it.
unfoldable pub read_bare : Text → Text × Text
read_bare [] = ([], [])
read_bare (c ∷ s) =
    let (field, rest) = read_bare s in if needs_quote c then ([], c ∷ s) else (c ∷ field, rest)

-- A reader of a CSV field (RFC 4180).
unfoldable pub read_field : Text → Option (Text × Text)
read_field [] = some ([], [])
read_field (c ∷ s) = if c == 34 then read_quoted 34 false s else some (read_bare (c ∷ s))

-- What ends a field.
abbrev pub ends_field : Text → Bool
ends_field [] = true
ends_field (c ∷ _) = c == b',' || c == 10 || c == 13

read_bare-append :
    (s rest : Text)
    → any needs_quote s ≡ false
    → ends_field rest ≡ true
    → read_bare (s ++ rest) ≡ (s, rest)
unfolding read_bare
read_bare-append [] [] h e = refl
read_bare-append [] (c ∷ rest) h e = ground arith
read_bare-append (c ∷ s) rest h e = ground (arith, read_bare-append s rest)

read_field-bare :
    (s rest : Text)
    → any needs_quote s ≡ false
    → ends_field rest ≡ true
    → read_field (s ++ rest) ≡ some (s, rest)
unfolding read_field
read_field-bare [] [] h e = refl
read_field-bare [] (c ∷ rest) h e = ground (arith, read_bare-append [] (c ∷ rest) refl e)
read_field-bare (c ∷ s) rest h e = ground (arith, read_bare-append (c ∷ s) rest h e)

ends_field-quote : (rest : Text) → ends_field rest ≡ true → starts_with_byte 34 rest ≡ false
ends_field-quote [] e = refl
ends_field-quote (c ∷ rest) e = ground arith

read_field-quoted :
    (s rest : Text) → ends_field rest ≡ true → read_field (quoted 34 s ++ rest) ≡ some (s, rest)
unfolding read_field
read_field-quoted s rest e =
    ap (read_quoted 34 false) (append_assoc (double_quote 34 s) (34 ∷ []) rest)
    ∙ read_quoted-double_quote 34 s rest (ends_field-quote rest e)

-- What CsvEscapeField makes of a text, followed by a comma, a line break or the end, is read back
-- as that field and what follows.
pub read_field-csv_escape_field :
    (s rest : Text)
    → ends_field rest ≡ true
    → read_field (csv_escape_field s ++ rest) ≡ some (s, rest)
unfolding csv_escape_field
read_field-csv_escape_field s rest e = elim (Bool-cases (any needs_quote s)) [
  | inl special ↦ rw special (read_field-quoted s rest e)
  | inr bare ↦ rw bare (read_field-bare s rest bare e)
]
