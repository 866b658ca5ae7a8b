-- ===== src/Auth.antt =====
-- Checking a request's credentials, in src/quackapi_auth.cpp: the bearer token of a request, HS256
-- tokens, and the verdict of a scheme (VerifyAuthScheme) and of a route (CheckAuth). DuckDB's JSON
-- functions, which read the claims, and mbedtls are parameters; the clock is an argument.
pub mod Claims
pub mod Jwt
pub mod Verify
pub mod Padding
pub mod Parts
pub mod Objects
pub mod Expiry
pub mod Tokens
pub mod Schemes
use quackapi.Base.{
  ℕ, zero, suc, ◌+◌, ◌-◌, ◌*◌, ◌%◌, ltb, leb, Bool, true, false, not, ◌&&◌, ◌||◌, List, [], ◌∷◌,
  ◌++◌, map, Option, none, some, Result, ok, err, ◌>>=◌, ◌==◌, if◌then◌else◌, any, find, length,
}
use quackapi.Text.{Text, codes, text_eq, empty}
use quackapi.Strings.{StringUtil}
use quackapi.Crypto.{Mbedtls, constant_time_equals}

-- `s.find(c)`: what stands before and after the first such byte.
unfoldable pub split_at : ℕ → Text → Option (Text × Text)
split_at c [] = none
split_at c (x ∷ s) =
    let later = split_at c s in
    if x == c
    then some ([], s)
    else elim later [ none ↦ none | some (before, after) ↦ some (x ∷ before, after) ]

-- ExtractBearer, after the scheme and its first space.
unfoldable pub skip_space : (ℕ → Bool) → Text → Text
skip_space is_space [] = []
skip_space is_space (c ∷ s) = let rest = skip_space is_space s in if is_space c then rest else c ∷ s

-- The token of `Bearer <token>`; the six letters of the scheme are compared after Lower.
unfoldable pub extract_bearer : StringUtil → Text → Option Text
unfolding skip_space
extract_bearer strings (a ∷ b ∷ c ∷ d ∷ e ∷ f ∷ rest) =
    let token = skip_space strings.is_space rest in
    elim rest [
      | [] ↦ none
      | space ∷ _ ↦
          if not (text_eq (strings.lower (a ∷ b ∷ c ∷ d ∷ e ∷ f ∷ [])) (codes "bearer"))
            || not (strings.is_space space)
            || empty token
          then none
          else some token
    ]
extract_bearer strings _ = none

-- QuackapiBase64UrlDecode: the alphabet of base64url, padded to a multiple of four.
abbrev pub url_byte : ℕ → ℕ
url_byte c = if c == b'-' then b'+' else if c == b'_' then b'/' else c

-- The loop that pads, on fuel: three rounds are enough.
unfoldable pub pad : ℕ → Text → Text
pad zero s = s
pad (suc fuel) s = let longer = pad fuel (s ++ b'=' ∷ []) in if length s % 4 == 0 then s else longer

unfoldable pub base64_url_decode : Mbedtls → Text → Option Text
unfolding pad
base64_url_decode mbedtls input = mbedtls.base64_decode (pad 3 (map url_byte input))

-- HeaderGet on CollectHeaders, where the first header of a name wins.
abbrev pub header_get : StringUtil → List (Text × Text) → Text → Text
header_get strings headers name = elim (find (λ kv. strings.ci_equals kv.0 name) headers) [
  | none ↦ []
  | some (_, value) ↦ value
]
