-- ===== src/Auth/Padding.antt =====
-- The fuel of the padding in QuackapiBase64UrlDecode.
use quackapi.Base.{
  ℕ, ◌+◌, ◌%◌, ◌≤◌, zero, suc, false, [], ◌∷◌, ◌++◌, length, length-append, ◌==◌, ◌≡◌, arith,
  Bool-cases, ◌⊎◌, inl, inr,
}
use quackapi.Text.{Text}
use quackapi.Auth.{pad}

-- The fuel is enough where it makes up for what is missing to the next multiple of four.
pad_ends :
    (fuel : ℕ) (s : Text)
    → (length s % 4 ≡ 0) ⊎ (4 ≤ length s % 4 + fuel)
    → length (pad fuel s) % 4 ≡ 0
unfolding pad
pad_ends zero s h = elim h [ inl full ↦ full | inr less ↦ absurd (omega arith) ]
pad_ends (suc fuel) s h = elim (Bool-cases (length s % 4 == 0)) [
  | inl full ↦ rw full (ground arith)
  | inr short ↦
      rw short
        (pad_ends fuel (s ++ b'=' ∷ []) (shorter (length s) (length-append s (b'=' ∷ [])) short h))
]
  where
    shorter :
        (n : ℕ) {m : ℕ}
        → m ≡ n + 1
        → (n % 4 == 0) ≡ false
        → (n % 4 ≡ 0) ⊎ (4 ≤ n % 4 + suc fuel)
        → (m % 4 ≡ 0) ⊎ (4 ≤ m % 4 + fuel)
    shorter n {m} e f h = elim (Bool-cases (n % 4 == 3)) [
      | inl last ↦ inl (ground arith)
      | inr early ↦ inr (ground arith)
    ]

-- Three rounds pad every text to a multiple of four bytes.
pub length-pad : (s : Text) → length (pad 3 s) % 4 ≡ 0
length-pad s = pad_ends 3 s (elim (Bool-cases (length s % 4 == 0)) [
  | inl full ↦ inl (ground arith)
  | inr short ↦ inr (ground arith)
])
