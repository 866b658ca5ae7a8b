-- ===== src/Strings.antt =====
-- DuckDB's StringUtil, which the sources call and do not contain: a parameter of the model. The laws
-- are what its documentation says of a case-insensitive comparison and of a prefix test.
pub mod Ascii
use quackapi.Base.{ℕ, Bool, true, List, ◌++◌, ◌≡◌, ◌↔◌}
use quackapi.Text.{Text}
use quackapi.Keyed.{IsEquiv}

pub record StringUtil : Type 0 where
  -- CharacterIsSpace and CharacterIsDigit of a byte
  pub is_space : ℕ → Bool
  pub is_digit : ℕ → Bool
  -- Lower and Upper
  pub lower : Text → Text
  pub upper : Text → Text
  -- CIEquals(l, r)
  pub ci_equals : Text → Text → Bool
  -- StartsWith(str, prefix)
  pub starts_with : Text → Text → Bool
  pub ci_equals_equiv : IsEquiv ci_equals
  pub starts_with_iff :
      (s prefix : Text) → (starts_with s prefix ≡ true) ↔ ((rest : Text) × (s ≡ prefix ++ rest))
