-- ===== src/Validation/Consumes.antt =====
-- JsonReader ends: each value that it reads takes something of the text, so that the fuel is enough.
use quackapi.Base.{
  ℕ, zero, suc, ◌≤◌, ◌<◌, ltb, leb, ◌&&◌, ◌||◌, [], ◌∷◌, ◌++◌, length, Result, ok, err, ◌>>=◌, ◌==◌,
  ◌≡◌, refl, arith, Bool-cases, inl, inr, ◌⊎◌,
}
use quackapi.Text.{Text}
use quackapi.Router.{skip}
use quackapi.Validation.{Failure, malformed, Read, skip_whitespace, expect, consume, at}
use quackapi.Validation.Strings.{
  hex_value, unicode_escape, surrogates, read_escape, string_from, high_surrogate, utf8,
}

-- Less than `bound` is left; or the text is malformed.
abbrev pub Within {ℓ} : {A : Type ℓ} → ℕ → Read A → Type 0
Within bound (err failure) = failure ≡ malformed
Within bound (ok (value, rest)) = length rest < bound

module _ {ℓ κ} {A : Type ℓ} {B : Type κ} where
  pub Within->>= :
      (bound : ℕ) (first : Read A) (next : A × Text → Read B)
      → Within bound first
      → ((value : A) (rest : Text) → length rest < bound → Within bound (next (value, rest)))
      → Within bound (first >>= next)
  Within->>= bound (err failure) next h k = h
  Within->>= bound (ok (value, rest)) next h k = k value rest h

pub Within-weaken {ℓ} :
    {A : Type ℓ} (low high : ℕ) (read : Read A) → low ≤ high → Within low read → Within high read
Within-weaken low high (err failure) b h = h
Within-weaken low high (ok (value, rest)) b h = omega arith

pub skip_whitespace-le : (s : Text) → length (skip_whitespace s) ≤ length s
unfolding skip_whitespace
skip_whitespace-le [] = omega arith
skip_whitespace-le (c ∷ s) = ground (arith, skip_whitespace-le s)

pub skip-le : (n : ℕ) (s : Text) → length (skip n s) ≤ length s
skip-le zero s = omega arith
skip-le (suc n) [] = omega arith
skip-le (suc n) (c ∷ s) = omega (arith, skip-le n s)

-- What is left after a character that is expected.
abbrev pub Below : ℕ → Result Failure Text → Type 0
Below bound (err failure) = failure ≡ malformed
Below bound (ok rest) = length rest < bound

pub Below->>= {ℓ} :
    {B : Type ℓ} (bound : ℕ) (first : Result Failure Text) (next : Text → Read B)
    → Below bound first
    → ((rest : Text) → length rest < bound → Within bound (next rest))
    → Within bound (first >>= next)
Below->>= bound (err failure) next h k = h
Below->>= bound (ok rest) next h k = k rest h

expect-Below : (c : ℕ) (s : Text) → Below (length s) (expect c s)
expect-Below c [] = refl
expect-Below c (x ∷ s) = elim (Bool-cases (x == c)) [
  | inl found ↦ rw found (omega arith)
  | inr other ↦ rw other refl
]

pub Below-weaken :
    (low high : ℕ) (read : Result Failure Text) → low ≤ high → Below low read → Below high read
Below-weaken low high (err failure) b h = h
Below-weaken low high (ok rest) b h = omega arith

pub consume-Below : (c : ℕ) (s : Text) → Below (length s) (consume c s)
unfolding consume
consume-Below c s =
    Below-weaken (length (skip_whitespace s)) (length s) (expect c (skip_whitespace s))
      (skip_whitespace-le s) (expect-Below c (skip_whitespace s))

hex_value-malformed : (c : ℕ) → ((n : ℕ) × (hex_value c ≡ ok n)) ⊎ (hex_value c ≡ err malformed)
unfolding hex_value
hex_value-malformed c = elim (Bool-cases (leb b'0' c && leb c b'9')) [
  | inl decimal ↦ rw decimal (inl (_, refl))
  | inr other ↦ elim (Bool-cases (leb b'a' c && leb c b'f')) [
    | inl small ↦ rw (other, small) (inl (_, refl))
    | inr neither ↦ elim (Bool-cases (leb b'A' c && leb c b'F')) [
      | inl large ↦ rw (other, neither, large) (inl (_, refl))
      | inr bad ↦ rw (other, neither, bad) (inr refl)
    ]
  ]
]

unicode_escape-Within : (s : Text) → Within (length s) (unicode_escape s)
unfolding unicode_escape
unicode_escape-Within [] = refl
unicode_escape-Within (_ ∷ []) = refl
unicode_escape-Within (_ ∷ _ ∷ []) = refl
unicode_escape-Within (_ ∷ _ ∷ _ ∷ []) = refl
unicode_escape-Within (a ∷ b ∷ c ∷ d ∷ s) = elim (hex_value-malformed a) [
  | inr bad ↦ rw bad refl
  | inl (x, ea) ↦ rw ea (elim (hex_value-malformed b) [
    | inr bad ↦ rw bad refl
    | inl (y, eb) ↦ rw eb (elim (hex_value-malformed c) [
      | inr bad ↦ rw bad refl
      | inl (z, ec) ↦ rw ec (elim (hex_value-malformed d) [
        | inr bad ↦ rw bad refl
        | inl (w, ed) ↦ rw ed (omega arith)
      ])
    ])
  ])
]

surrogates-Within : (codepoint : ℕ) (s : Text) → Within (suc (length s)) (surrogates codepoint s)
unfolding surrogates
surrogates-Within codepoint s =
    elim (Bool-cases (high_surrogate codepoint && leb 6 (length s) && at (92 ∷ b'u' ∷ []) s)) [
      | inr single ↦ rw single (omega arith)
      | inl paired ↦ rw paired (
          Within->>= _ (unicode_escape (skip 2 s)) _
            (Within-weaken _ _ (unicode_escape (skip 2 s)) (omega (arith, skip-le 2 s))
              (unicode_escape-Within (skip 2 s)))
            λ low rest shorter. elim (Bool-cases (ltb low 0xdc00 || ltb 0xdfff low)) [
              | inl bad ↦ rw bad refl
              | inr good ↦ rw good shorter
            ])
    ]

unicode-Within :
    (s : Text)
    → Within (suc (length s)) (
        unicode_escape s >>= λ first.
        surrogates first.0 first.1 >>= λ code. ok (utf8 code.0, code.1))
unicode-Within s =
    Within->>= _ (unicode_escape s) _
      (Within-weaken _ _ (unicode_escape s) (omega arith) (unicode_escape-Within s))
      λ first rest shorter.
        Within->>= _ (surrogates first rest) _
          (Within-weaken _ _ (surrogates first rest) (omega arith) (surrogates-Within first rest))
          λ code left within. within

read_escape-Within : (s : Text) → Within (length s) (read_escape s)
unfolding read_escape
read_escape-Within [] = refl
read_escape-Within (e ∷ s) = elim (Bool-cases (e == 34 || e == 92 || e == b'/')) [
  | inl itself ↦ rw (itself, read_escape) (omega arith)
  | inr o1 ↦ elim (Bool-cases (e == b'b')) [
    | inl b ↦ rw (o1, b, read_escape) (omega arith)
    | inr o2 ↦ elim (Bool-cases (e == b'f')) [
      | inl f ↦ rw (o1, o2, f, read_escape) (omega arith)
      | inr o3 ↦ elim (Bool-cases (e == b'n')) [
        | inl n ↦ rw (o1, o2, o3, n, read_escape) (omega arith)
        | inr o4 ↦ elim (Bool-cases (e == b'r')) [
          | inl r ↦ rw (o1, o2, o3, o4, r, read_escape) (omega arith)
          | inr o5 ↦ elim (Bool-cases (e == b't')) [
            | inl t ↦ rw (o1, o2, o3, o4, o5, t, read_escape) (omega arith)
            | inr o6 ↦ elim (Bool-cases (e == b'u')) [
              | inl u ↦ rw (o1, o2, o3, o4, o5, o6, u, read_escape) (unicode-Within s)
              | inr o7 ↦ rw (o1, o2, o3, o4, o5, o6, o7, read_escape) refl
            ]
          ]
        ]
      ]
    ]
  ]
]

pub string_from-Within :
    (fuel : ℕ) (result s : Text) → length s < fuel → Within (length s) (string_from fuel result s)
unfolding string_from
string_from-Within zero result s h = absurd (omega arith)
string_from-Within (suc fuel) result [] h = refl
string_from-Within (suc fuel) result (c ∷ s) h = elim (Bool-cases (c == 34)) [
  | inl quote ↦ rw (quote, string_from) (omega arith)
  | inr text ↦ elim (Bool-cases (ltb c 32)) [
    | inl control ↦ rw (text, control, string_from) refl
    | inr plain ↦ elim (Bool-cases (c == 92)) [
      | inr other ↦
          rw (text, plain, other, string_from)
            (Within-weaken (length s) (suc (length s)) (string_from fuel (result ++ c ∷ []) s)
              (omega arith) (string_from-Within fuel (result ++ c ∷ []) s (omega arith)))
      | inl escape ↦
          rw (text, plain, escape, string_from)
            (Within->>= _ (read_escape s) _
              (Within-weaken _ _ (read_escape s) (omega arith) (read_escape-Within s))
              λ escaped rest shorter.
                Within-weaken (length rest) (suc (length s))
                  (string_from fuel (result ++ escaped) rest) (omega arith)
                  (string_from-Within fuel (result ++ escaped) rest (ground arith)))
    ]
  ]
]
