-- ===== src/Ddl/Durations.antt =====
-- Timeouts of routes and durations of queues.
use quackapi.Base.{
  ℕ, ◌+◌, ◌-◌, ◌*◌, ltb, ◌≤◌, Bool, false, [], ◌∷◌, ok, >>=-eq-ok, err-ne-ok, ◌≡◌, refl, ap, ◌∙◌,
  subst, arith, Bool-cases, inl, inr,
}
use quackapi.Text.{Text, empty}
use quackapi.Strings.{StringUtil}
use quackapi.Ddl.{
  option_text, minus, after_sign, starts_with_digit, read_number, multiplier, duration_multiplier,
  read_seconds, timeout_in_range, duration_in_range, parse_route_timeout_sec,
  parse_duration_seconds,
}

-- A number within the smaller bound is read the same under the larger one.
read_number-bound :
    (is_digit : ℕ → Bool) (low high num : ℕ) (s : Text) {r : ℕ × Text}
    → low ≤ high
    → read_number is_digit low num s ≡ ok r
    → read_number is_digit high num s ≡ ok r
unfolding read_number
read_number-bound is_digit low high num [] le h = h
read_number-bound is_digit low high num (c ∷ s) {r} le h = elim (Bool-cases (is_digit c)) [
  | inr other ↦ ground arith
  | inl digit ↦ elim (Bool-cases (ltb low (num * 10 + (c - b'0')))) [
    | inl above ↦ ground arith
    | inr within ↦
        ground (arith, read_number-bound is_digit low high (num * 10 + (c - 48)) s {r = r} le)
  ]
]

timeout_in_range-ok :
    (sec : ℕ) {n : ℕ} → timeout_in_range sec ≡ ok n → (sec ≡ n) × (1 ≤ n) × (n ≤ 86400)
timeout_in_range-ok sec {n} h = ground arith

duration_in_range-ok :
    (neg : Bool) (sec : ℕ) {n : ℕ} → duration_in_range neg sec ≡ ok n → (sec ≡ n) × (n ≤ 604800)
duration_in_range-ok neg sec {n} h = ground arith

after_sign-unsigned : (s : Text) → minus s ≡ false → after_sign s ≡ s
after_sign-unsigned [] h = refl
after_sign-unsigned (c ∷ s) h = ground arith

module _ (strings : StringUtil) where
  duration_multiplier-same :
      (unit : Text) → duration_multiplier strings unit ≡ multiplier strings unit
  unfolding multiplier duration_multiplier
  duration_multiplier-same [] = refl
  duration_multiplier-same (c ∷ s) = refl

  read_seconds-bound :
      (low high : ℕ) (s : Text) {n : ℕ}
      → low ≤ high
      → read_seconds strings (multiplier strings) low s ≡ ok n
      → read_seconds strings (duration_multiplier strings) high s ≡ ok n
  unfolding read_seconds
  read_seconds-bound low high s {n} le h =
      elim (Bool-cases (starts_with_digit strings.is_digit s)) [
        | inr other ↦ absurd (err-ne-ok (rw other at h))
        | inl digit ↦
            let ((num, unit), e1, h1) =
              >>=-eq-ok (read_number strings.is_digit low 0 s) _ (rw digit at h) in
            rw digit (
              rw (read_number-bound strings.is_digit low high 0 s le e1)
                (rw (duration_multiplier-same unit) h1))
      ]

  parse_timeout-ok :
      (raw : Text) {n : ℕ}
      → parse_route_timeout_sec strings raw ≡ ok n
      → (empty (option_text strings raw) ≡ false)
        × (minus (option_text strings raw) ≡ false)
        × (read_seconds strings (multiplier strings) 86400 (option_text strings raw) ≡ ok n)
        × (1 ≤ n)
        × (n ≤ 86400)
  unfolding parse_route_timeout_sec
  parse_timeout-ok raw {n} h =
      let s = option_text strings raw in
      elim (Bool-cases (empty s)) [
        | inl none_there ↦ absurd (err-ne-ok (rw none_there at h))
        | inr some_there ↦ elim (Bool-cases (minus s)) [
          | inl signed ↦ absurd (err-ne-ok (rw signed at (rw some_there at h)))
          | inr unsigned ↦
              let (sec, e, h') =
                >>=-eq-ok (read_seconds strings (multiplier strings) 86400 s) timeout_in_range
                  (rw unsigned at (rw some_there at h)) in
              let (same, low, high) = timeout_in_range-ok sec h' in
              (
                some_there,
                unsigned,
                subst (λ k. read_seconds strings (multiplier strings) 86400 s ≡ ok k) same e,
                low,
                high,
              )
        ]
      ]

  -- Where ParseRouteTimeoutSec accepts a text, the timeout is from one second to a day, and
  -- ParseDurationSeconds accepts the text with the same number of seconds.
  pub parse_duration_seconds-parse_route_timeout_sec :
      (raw : Text) (n : ℕ)
      → parse_route_timeout_sec strings raw ≡ ok n
      → (1 ≤ n) × (n ≤ 86400) × (parse_duration_seconds strings raw ≡ ok n)
  unfolding parse_duration_seconds
  parse_duration_seconds-parse_route_timeout_sec raw n h =
      let s = option_text strings raw in
      let (some_there, unsigned, e, low, high) = parse_timeout-ok raw h in
      let read : read_seconds strings (duration_multiplier strings) 31536000 (after_sign s) ≡ ok n =
        ap (read_seconds strings (duration_multiplier strings) 31536000)
          (after_sign-unsigned s unsigned)
        ∙ read_seconds-bound 86400 31536000 s (omega arith) e in
      (low, high, rw some_there (rw read (rw unsigned (ground arith))))
