-- ===== src/RateLimit/Keys.antt =====
-- A counter's key, its route and its client.
use quackapi.Base.{true, [], ◌∷◌, ◌++◌, append_assoc, ◌≡◌, ◌↔◌, refl, ◌∙◌, arith, length}
use quackapi.Text.{Text, to_string}
use quackapi.Text.Laws.{AllDigits, to_string-AllDigits, to_string_injective}
use quackapi.Strings.{StringUtil}
use quackapi.RateLimit.{route_prefix, rate_key}

-- Digits end at the colon.
digits_split :
    (a b : Text) {s t : Text}
    → AllDigits a
    → AllDigits b
    → a ++ (b':' ∷ s) ≡ b ++ (b':' ∷ t)
    → (a ≡ b) × (s ≡ t)
digits_split [] [] p q e = (refl, cc)
digits_split [] (y ∷ b) p (q, r, _) e = ground arith
digits_split (x ∷ a) [] (p, r, _) q e = ground arith
digits_split (x ∷ a) (y ∷ b) (_, _, p) (_, _, q) e =
    let (l, r) = digits_split a b p q (cc) in (cc, r)

append_split : (a b : Text) {s t : Text} → length a ≡ length b → a ++ s ≡ b ++ t → (a ≡ b) × (s ≡ t)
append_split [] [] n e = (refl, e)
append_split [] (y ∷ b) n e = absurd (omega arith)
append_split (x ∷ a) [] n e = absurd (omega arith)
append_split (x ∷ a) (y ∷ b) n e = let (l, r) = append_split a b (omega arith) (cc) in (cc, r)

-- The key is the route's prefix and the client.
pub rate_key-prefix : (route client : Text) → rate_key route client ≡ route_prefix route ++ client
unfolding rate_key route_prefix
rate_key-prefix route client = simp append_assoc

-- A key that starts with a route's prefix is that route's.
pub prefix_owner :
    (route other client rest : Text)
    → rate_key other client ≡ route_prefix route ++ rest
    → (other ≡ route) × (client ≡ rest)
unfolding rate_key route_prefix
prefix_owner route other client rest e =
    let aligned : to_string (length other) ++ (b':' ∷ (other ++ b'|' ∷ client))
        ≡ to_string (length route) ++ (b':' ∷ (route ++ b'|' ∷ rest)) =
      e ∙ simp append_assoc in
    let (sizes, bodies) =
      digits_split (to_string (length other)) (to_string (length route)) (to_string-AllDigits _)
        (to_string-AllDigits _) aligned in
    let (names, tails) = append_split other route (to_string_injective _ _ sizes) bodies in
    (names, cc)

-- Two counter keys are equal only for the same route and the same client.
pub rate_key_injective :
    (route other client who : Text)
    → rate_key other client ≡ rate_key route who
    → (other ≡ route) × (client ≡ who)
rate_key_injective route other client who e =
    prefix_owner route other client who (e ∙ rate_key-prefix route who)

module _ (strings : StringUtil) where
  pub starts_with-rate_key_iff :
      (route other client : Text)
      → (strings.starts_with (rate_key other client) (route_prefix route) ≡ true) ↔ (other ≡ route)
  starts_with-rate_key_iff route other client = (
    λ h.
        let (rest, e) = (strings.starts_with_iff _ _).0 h in
        (prefix_owner route other client rest e).0,
    λ e. (strings.starts_with_iff _ _).1 (client, rw (← e) (rate_key-prefix other client)),
  )
