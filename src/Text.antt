-- ===== src/Text.antt =====
-- A C++ `string` as the list of its bytes: the comparisons and the members of `std::string` that the
-- sources use, and `std::to_string` of a size.
pub mod Laws
use Prim.Native.Char.{code}
use Prim.Native.String.{String}
use quackapi.Base.{
  ℕ, zero, suc, ◌+◌, ◌-◌, ◌/◌, ◌%◌, ◌*◌, Bool, true, false, not, ◌&&◌, List, [], ◌∷◌, ◌++◌, Option,
  none, some, ltb, leb, ◌==◌, if◌then◌else◌,
}

abbrev pub Text : Type 0
Text = List ℕ

-- A literal of the sources.
abbrev pub codes : String → Text
codes String.[] = []
codes (String.◌∷◌ c s) = code c ∷ codes s

-- `a == b`
unfoldable pub text_eq : Text → Text → Bool
text_eq [] [] = true
text_eq (x ∷ xs) (y ∷ ys) = x == y && text_eq xs ys
text_eq _ _ = false

-- `s.empty()`
abbrev pub empty : Text → Bool
empty [] = true
empty (_ ∷ _) = false

-- `s.back() == c` on a string that is not empty; false on the empty string.
unfoldable pub ends_in : ℕ → Text → Bool
ends_in c [] = false
ends_in c (x ∷ []) = x == c
ends_in c (x ∷ y ∷ s) = ends_in c (y ∷ s)

-- `s.pop_back()`, or `s.substr(0, s.size() - 1)`
unfoldable pub pop_back : Text → Text
pop_back [] = []
pop_back (x ∷ []) = []
pop_back (x ∷ y ∷ s) = x ∷ pop_back (y ∷ s)

-- `std::to_string` on fuel: the decimal digits of a number below 10 ^ fuel.
unfoldable pub decimal : ℕ → ℕ → Text
decimal zero n = []
decimal (suc fuel) n =
    let leading = decimal fuel (n / 10) in
    if ltb n 10 then (n + b'0') ∷ [] else leading ++ (n % 10 + b'0') ∷ []

unfoldable pub to_string : ℕ → Text
unfolding decimal
to_string n = decimal (suc n) n
