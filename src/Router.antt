-- ===== src/Router.antt =====
-- Paths and route patterns of src/quackapi_server.cpp: SplitPath, HasTrailingSlash, StripTrailingSlash,
-- MatchPattern, IsPathParam, IsClaimsParam and MethodListContains.
pub mod Split
pub mod Matching
use quackapi.Base.{
  ℕ, zero, suc, ltb, leb, Bool, true, false, not, ◌&&◌, ◌||◌, List, [], ◌∷◌, ◌++◌, Option, none,
  some, ◌==◌, if◌then◌else◌, any, length,
}
use quackapi.Text.{Text, codes, text_eq, empty, ends_in, pop_back}
use quackapi.Strings.{StringUtil}

-- The loop of SplitPath: a slash closes a segment that is not empty.
unfoldable pub split_from : List Text → Text → Text → List Text
split_from segments current [] = if empty current then segments else segments ++ current ∷ []
split_from segments current (c ∷ path) =
    split_from (if c == b'/' && not (empty current) then segments ++ current ∷ [] else segments)
      (if c == b'/' then [] else current ++ c ∷ []) path

unfoldable pub split_path : Text → List Text
unfolding split_from
split_path path = split_from [] [] path

unfoldable pub has_trailing_slash : Text → Bool
unfolding ends_in
has_trailing_slash path = ltb 1 (length path) && ends_in b'/' path

unfoldable pub strip_trailing_slash : Text → Text
unfolding has_trailing_slash pop_back
strip_trailing_slash path = if has_trailing_slash path then pop_back path else path

-- `{name}`: what stands between the braces, of a segment that starts with the opening one.
abbrev pub braced : Text → Option Text
braced rest = if ends_in b'}' rest then some (pop_back rest) else none

-- The parameter that a segment of a pattern captures: `:name` or `{name}`.
unfoldable pub capture_name : Text → Option Text
capture_name [] = none
capture_name (c ∷ rest) = if c == b':' then some rest else if c == b'{' then braced rest else none

abbrev pub Captures : Type 0
Captures = List (Text × Text)

abbrev pub capture : Text → Text → Option Captures → Option Captures
capture name part none = none
capture name part (some captures) = some ((name, part) ∷ captures)

-- The loop of MatchPattern over the two lists of segments, which it takes to be of one length.
unfoldable pub match_segments : List Text → List Text → Option Captures
match_segments [] [] = some []
match_segments (ps ∷ pattern) (part ∷ path) =
    let rest = match_segments pattern path in
    elim (capture_name ps) [
      | some name ↦ capture name part rest
      | none ↦ if text_eq ps part then rest else none
    ]
match_segments _ _ = none

-- The captures of a path that matches; a path that does not is `none`.
unfoldable pub match_pattern : Text → Text → Option Captures
match_pattern pattern path =
    if (if has_trailing_slash pattern
      then has_trailing_slash path
      else not (has_trailing_slash path))
    then match_segments (split_path pattern) (split_path path)
    else none

abbrev pub matches : Text → Text → Bool
matches pattern path = elim (match_pattern pattern path) [ none ↦ false | some _ ↦ true ]

abbrev pub names : Text → Option Text → Bool
names param_name none = false
names param_name (some name) = text_eq name param_name

-- `substr(n)`
abbrev pub skip : ℕ → Text → Text
skip zero s = s
skip (suc n) [] = []
skip (suc n) (_ ∷ s) = skip n s

-- The two tests of IsPathParam on a segment.
abbrev pub is_capture_of : Text → Text → Bool
is_capture_of param_name [] = false
is_capture_of param_name (c ∷ rest) =
    (c == b':' && text_eq rest param_name) || (c == b'{' && names param_name (braced rest))

unfoldable pub is_path_param : Text → Text → Bool
is_path_param pattern param_name = any (is_capture_of param_name) (split_path pattern)

abbrev pub method_list_contains : List Text → Text → Bool
method_list_contains list method = any (λ s. text_eq s method) list

-- IsClaimsParam: the claim that a parameter `claims_<k>` stands for.
unfoldable pub claims_param : StringUtil → Text → Option Text
claims_param strings param_name =
    let claim_key = skip 7 param_name in
    if leb (length param_name) 7
      || not (strings.starts_with (strings.lower param_name) (codes "claims_"))
      || empty claim_key
    then none
    else some claim_key
