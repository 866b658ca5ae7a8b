-- ===== src/Strings/Ascii.antt =====
-- StringUtil on ASCII text: a concrete function for each parameter, which meets the laws.
use quackapi.Base.{
  ℕ, ◌+◌, ◌-◌, Bool, true, false, ◌&&◌, ◌||◌, [], ◌∷◌, ◌++◌, map, ◌≡◌, ◌↔◌, refl, leb, ◌==◌,
  if◌then◌else◌, arith,
}
use quackapi.Text.{Text, text_eq}
use quackapi.Text.Laws.{text_eq_refl, text_eq_sym, text_eq_trans}
use quackapi.Keyed.{IsEquiv}
use quackapi.Strings.{StringUtil}

abbrev within : ℕ → ℕ → ℕ → Bool
within lo hi c = leb lo c && leb c hi

abbrev space : ℕ → Bool
space c = c == 32 || within 9 13 c

unfoldable pub to_lower : ℕ → ℕ
to_lower c = if within b'A' b'Z' c then c + 32 else c

unfoldable pub to_upper : ℕ → ℕ
to_upper c = if within b'a' b'z' c then c - 32 else c

unfoldable pub prefix_of : Text → Text → Bool
prefix_of s [] = true
prefix_of [] (_ ∷ _) = false
prefix_of (x ∷ s) (y ∷ p) = x == y && prefix_of s p

prefix_of_sound : (s p : Text) → prefix_of s p ≡ true → (rest : Text) × (s ≡ p ++ rest)
unfolding prefix_of
prefix_of_sound s [] h = (s, refl)
prefix_of_sound [] (_ ∷ _) h = cc
prefix_of_sound (x ∷ s) (y ∷ p) h =
    let (rest, e) = prefix_of_sound s p (ground arith) in (rest, ground arith)

prefix_of_complete : (p rest : Text) → prefix_of (p ++ rest) p ≡ true
unfolding prefix_of
prefix_of_complete [] rest = refl
prefix_of_complete (x ∷ p) rest = ground (arith, prefix_of_complete p rest)

pub prefix_of_iff : (s p : Text) → (prefix_of s p ≡ true) ↔ ((rest : Text) × (s ≡ p ++ rest))
prefix_of_iff s p = (prefix_of_sound s p, λ r. rw r.1 (prefix_of_complete p r.0))

pub lowered_equiv : IsEquiv (λ a b. text_eq (map to_lower a) (map to_lower b))
lowered_equiv = record {
  same_refl = λ a. text_eq_refl (map to_lower a);
  same_sym = λ a b. text_eq_sym (map to_lower a) (map to_lower b);
  same_trans = λ a b c. text_eq_trans (map to_lower a) (map to_lower b) (map to_lower c);
}

abbrev pub ascii : StringUtil
ascii = record {
  is_space = space;
  is_digit = within b'0' b'9';
  lower = map to_lower;
  upper = map to_upper;
  ci_equals = λ a b. text_eq (map to_lower a) (map to_lower b);
  starts_with = prefix_of;
  ci_equals_equiv = lowered_equiv;
  starts_with_iff = prefix_of_iff;
}
