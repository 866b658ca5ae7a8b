-- ===== src/Text/Laws.antt =====
-- Equality of byte strings is an equality, and decimal numerals are read back.
use quackapi.Base.{
  ℕ, zero, suc, ◌+◌, ◌-◌, ◌/◌, ◌%◌, ◌*◌, ◌<◌, ◌≤◌, true, [], ◌∷◌, ◌++◌, ltb, ◌≡◌, ◌↔◌, refl, sym,
  ap, ◌∙◌, arith, inl, inr, Bool-cases,
}
use quackapi.Keyed.{IsEquiv}
use quackapi.Text.{Text, text_eq, decimal, to_string}

pub text_eq_iff : (a b : Text) → (text_eq a b ≡ true) ↔ (a ≡ b)
unfolding text_eq
text_eq_iff (x ∷ a) (y ∷ b) = ground (arith, text_eq_iff a b)
text_eq_iff _ _ = ground arith

pub text_eq_refl : (a : Text) → text_eq a a ≡ true
text_eq_refl a = (text_eq_iff a a).1 refl

pub text_eq_sym : (a b : Text) → text_eq a b ≡ true → text_eq b a ≡ true
text_eq_sym a b h = (text_eq_iff b a).1 (sym ((text_eq_iff a b).0 h))

pub text_eq_trans : (a b c : Text) → text_eq a b ≡ true → text_eq b c ≡ true → text_eq a c ≡ true
text_eq_trans a b c h k = (text_eq_iff a c).1 ((text_eq_iff a b).0 h ∙ (text_eq_iff b c).0 k)

abbrev pub text_eq-IsEquiv : IsEquiv text_eq
text_eq-IsEquiv = record {
  same_refl = text_eq_refl;
  same_sym = text_eq_sym;
  same_trans = text_eq_trans;
}

-- The number that a run of digits stands for, after `acc`.
abbrev value : ℕ → Text → ℕ
value acc [] = acc
value acc (c ∷ cs) = value (acc * 10 + (c - b'0')) cs

value-append : (acc : ℕ) (xs ys : Text) → value acc (xs ++ ys) ≡ value (value acc xs) ys
value-append acc [] ys = refl
value-append acc (x ∷ xs) ys = value-append (acc * 10 + (x - b'0')) xs ys

decimal-value : (fuel n : ℕ) → n < fuel → value 0 (decimal fuel n) ≡ n
unfolding decimal
decimal-value zero n h = elim h [ ]
decimal-value (suc fuel) n h = elim (Bool-cases (ltb n 10)) [
  | inl small ↦ rw small (omega arith)
  | inr big ↦
      rw
        (
          big,
          value-append 0 (decimal fuel (n / 10)) ((n % 10 + b'0') ∷ []),
          decimal-value fuel (n / 10) (ground arith),
        )
        (omega arith)
]

to_string-value : (n : ℕ) → value 0 (to_string n) ≡ n
unfolding to_string
to_string-value n = decimal-value (suc n) n (omega arith)

pub to_string_injective : (m n : ℕ) → to_string m ≡ to_string n → m ≡ n
to_string_injective m n e = sym (to_string-value m) ∙ ap (value 0) e ∙ to_string-value n

-- A decimal numeral holds digits only.
abbrev pub AllDigits : Text → Type 0
AllDigits [] = Unit
AllDigits (c ∷ cs) = (b'0' ≤ c) × (c ≤ b'9') × AllDigits cs

AllDigits-append : (xs : Text) (d : ℕ) → d < 10 → AllDigits xs → AllDigits (xs ++ (d + b'0') ∷ [])
AllDigits-append [] d h _ = (omega arith, omega arith, tt)
AllDigits-append (x ∷ xs) d h (p, q, r) = (p, q, AllDigits-append xs d h r)

decimal-AllDigits : (fuel n : ℕ) → AllDigits (decimal fuel n)
unfolding decimal
decimal-AllDigits zero n = tt
decimal-AllDigits (suc fuel) n = elim (Bool-cases (ltb n 10)) [
  | inl small ↦ rw small (omega arith, ground arith, tt)
  | inr big ↦ rw big (
      AllDigits-append (decimal fuel (n / 10)) (n % 10) (omega arith)
        (decimal-AllDigits fuel (n / 10)))
]

pub to_string-AllDigits : (n : ℕ) → AllDigits (to_string n)
unfolding to_string
to_string-AllDigits n = decimal-AllDigits (suc n) n
