-- ===== src/Validation/Strings.antt =====
-- ParseString of JsonReader, with ParseUnicodeEscape and AppendUtf8. The bit operations are written as the
-- arithmetic that they are where the code point is in the range of its case.
use quackapi.Base.{
  ℕ, zero, suc, ◌+◌, ◌-◌, ◌*◌, ◌/◌, ◌%◌, ltb, leb, Bool, true, false, ◌&&◌, ◌||◌, [], ◌∷◌, ◌++◌,
  length, Result, ok, err, ◌>>=◌, ◌==◌, if◌then◌else◌,
}
use quackapi.Text.{Text}
use quackapi.Router.{skip}
use quackapi.Validation.{Failure, malformed, out_of_fuel, Read, at, consume}

-- -1 is an error.
unfoldable pub hex_value : ℕ → Result Failure ℕ
hex_value c =
    if leb b'0' c && leb c b'9'
    then ok (c - b'0')
    else if leb b'a' c && leb c b'f'
    then ok (10 + c - b'a')
    else if leb b'A' c && leb c b'F'
    then ok (10 + c - b'A')
    else err malformed

unfoldable pub utf8 : ℕ → Text
utf8 codepoint =
    if leb codepoint 0x7f
    then codepoint ∷ []
    else if leb codepoint 0x7ff
    then (0xc0 + codepoint / 64) ∷ (0x80 + codepoint % 64) ∷ []
    else if leb codepoint 0xffff
    then (0xe0 + codepoint / 4096) ∷ (0x80 + codepoint / 64 % 64) ∷ (0x80 + codepoint % 64) ∷ []
    else (0xf0 + codepoint / 262144)
      ∷ (0x80 + codepoint / 4096 % 64)
      ∷ (0x80 + codepoint / 64 % 64)
      ∷ (0x80 + codepoint % 64)
      ∷ []

-- ParseUnicodeEscape: four digits.
unfoldable pub unicode_escape : Text → Read ℕ
unfolding hex_value
unicode_escape (a ∷ b ∷ c ∷ d ∷ s) = do
  x ← hex_value a
  y ← hex_value b
  z ← hex_value c
  w ← hex_value d
  ok (((x * 16 + y) * 16 + z) * 16 + w, s)
unicode_escape _ = err malformed

abbrev pub high_surrogate : ℕ → Bool
high_surrogate codepoint = leb 0xd800 codepoint && leb codepoint 0xdbff

-- After a first escape: with a high surrogate, a second one gives the rest of the code point.
unfoldable pub surrogates : ℕ → Text → Read ℕ
unfolding unicode_escape
surrogates codepoint s =
    if high_surrogate codepoint && leb 6 (length s) && at (92 ∷ b'u' ∷ []) s
    then (unicode_escape (skip 2 s) >>= λ low.
        if ltb low.0 0xdc00 || ltb 0xdfff low.0
        then err malformed
        else ok (0x10000 + (codepoint - 0xd800) * 1024 + (low.0 - 0xdc00), low.1))
    else ok (codepoint, s)

-- The letter after the backslash, and what it adds.
unfoldable pub read_escape : Text → Read Text
unfolding surrogates utf8
read_escape [] = err malformed
read_escape (e ∷ s) =
    if e == 34 || e == 92 || e == b'/'
    then ok (e ∷ [], s)
    else if e == b'b'
    then ok (8 ∷ [], s)
    else if e == b'f'
    then ok (12 ∷ [], s)
    else if e == b'n'
    then ok (10 ∷ [], s)
    else if e == b'r'
    then ok (13 ∷ [], s)
    else if e == b't'
    then ok (9 ∷ [], s)
    else if e == b'u'
    then (unicode_escape s >>= λ first.
        surrogates first.0 first.1 >>= λ code. ok (utf8 code.0, code.1))
    else err malformed

-- The loop of ParseString after the opening quote, with the string so far.
unfoldable pub string_from : ℕ → Text → Text → Read Text
unfolding read_escape
string_from zero result s = err out_of_fuel
string_from (suc fuel) result [] = err malformed
string_from (suc fuel) result (c ∷ s) = elim (c == 34) [
  | true ↦ ok (result, s)
  | false ↦ elim (ltb c 32) [
    | true ↦ err malformed
    | false ↦ elim (c == 92) [
      | false ↦ string_from fuel (result ++ c ∷ []) s
      | true ↦ read_escape s >>= λ escaped. string_from fuel (result ++ escaped.0) escaped.1
    ]
  ]
]

-- Each round reads a character, and a text has no more rounds than characters and one.
unfoldable pub parse_string : Text → Read Text
unfolding string_from
parse_string s = consume 34 s >>= λ t. string_from (suc (length t)) [] t
