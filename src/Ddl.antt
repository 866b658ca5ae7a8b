-- ===== src/Ddl.antt =====
-- Options of the DDL: QuackapiTrim (src/quackapi_util.cpp), ParseRouteTimeoutSec, ParseRouteRequestBytes
-- and JoinGroupPrefix (src/quackapi_ddl.cpp), and ParseDurationSeconds (src/quackapi_queue.cpp).
pub mod Durations
pub mod Prefixes
use quackapi.Base.{
  ℕ, zero, suc, ◌+◌, ◌-◌, ◌*◌, ltb, leb, Bool, true, false, not, ◌&&◌, ◌||◌, List, [], ◌∷◌, ◌++◌,
  all, any, length, Result, ok, err, ◌>>=◌, ◌==◌, if◌then◌else◌,
}
use quackapi.Text.{Text, codes, text_eq, empty, ends_in, pop_back}
use quackapi.Strings.{StringUtil}
use quackapi.Auth.{skip_space}
use quackapi.Registry.Graphql.{strip_slashes}

-- The messages of the parsers.
pub data OptionError : Type 0 where
  empty_value : OptionError
  negative_value : OptionError
  zero_timeout : OptionError
  no_number : OptionError
  too_large : OptionError
  no_byte_count : OptionError
  unknown_unit : Text → OptionError
  above_maximum : OptionError
  prefix_relative : OptionError
  path_has_prefix : Text → Text → OptionError

-- The second loop of QuackapiTrim, from the end.
unfoldable pub trim_end : (ℕ → Bool) → Text → Text
trim_end droppable [] = []
trim_end droppable (c ∷ s) =
    let rest = trim_end droppable s in if empty rest && droppable c then [] else c ∷ rest

unfoldable pub trim : StringUtil → Text → Text
unfolding skip_space trim_end
trim strings input =
    trim_end (λ c. strings.is_space c || c == b';') (skip_space strings.is_space input)

-- `s` without the single quotes around it; 39 is the quote.
unfoldable pub strip_quotes : Text → Text
unfolding ends_in pop_back
strip_quotes [] = []
strip_quotes (c ∷ rest) =
    if c == 39 && (not (empty rest) && ends_in 39 rest) then pop_back rest else c ∷ rest

-- The loop over the digits, which stops at a number above `bound`.
unfoldable pub read_number : (ℕ → Bool) → ℕ → ℕ → Text → Result OptionError (ℕ × Text)
read_number is_digit bound num [] = ok (num, [])
read_number is_digit bound num (c ∷ s) =
    let next = num * 10 + (c - b'0') in
    let rest = read_number is_digit bound next s in
    if not (is_digit c) then ok (num, c ∷ s) else if ltb bound next then err too_large else rest

abbrev pub one_of : List Text → Text → Bool
one_of units unit = any (text_eq unit) units

-- The seconds of a unit, in lower case, in ParseRouteTimeoutSec.
unfoldable pub multiplier : StringUtil → Text → Result OptionError ℕ
multiplier strings [] = ok 1
multiplier strings (c ∷ s) =
    let unit = strings.lower (c ∷ s) in
    if one_of (codes "s" ∷ codes "sec" ∷ codes "secs" ∷ codes "second" ∷ codes "seconds" ∷ []) unit
    then ok 1
    else if one_of (codes "m" ∷ codes "min" ∷ codes "mins" ∷ codes "minute" ∷ codes "minutes" ∷ [])
        unit
    then ok 60
    else if one_of (codes "h" ∷ codes "hr" ∷ codes "hrs" ∷ codes "hour" ∷ codes "hours" ∷ []) unit
    then ok 3600
    else err (unknown_unit unit)

-- The table of ParseDurationSeconds, which is written once more in the source.
unfoldable pub duration_multiplier : StringUtil → Text → Result OptionError ℕ
duration_multiplier strings [] = ok 1
duration_multiplier strings (c ∷ s) =
    let unit = strings.lower (c ∷ s) in
    if one_of (codes "s" ∷ codes "sec" ∷ codes "secs" ∷ codes "second" ∷ codes "seconds" ∷ []) unit
    then ok 1
    else if one_of (codes "m" ∷ codes "min" ∷ codes "mins" ∷ codes "minute" ∷ codes "minutes" ∷ [])
        unit
    then ok 60
    else if one_of (codes "h" ∷ codes "hr" ∷ codes "hrs" ∷ codes "hour" ∷ codes "hours" ∷ []) unit
    then ok 3600
    else err (unknown_unit unit)

abbrev pub starts_with_digit : (ℕ → Bool) → Text → Bool
starts_with_digit is_digit [] = false
starts_with_digit is_digit (c ∷ _) = is_digit c

-- The number and the unit, from the first digit on.
unfoldable pub read_seconds :
    StringUtil → (Text → Result OptionError ℕ) → ℕ → Text → Result OptionError ℕ
read_seconds strings units bound s =
    if not (starts_with_digit strings.is_digit s)
    then err no_number
    else do (num, unit) ← read_number strings.is_digit bound 0 s; mult ← units unit; ok (num * mult)

abbrev pub minus : Text → Bool
minus [] = false
minus (c ∷ _) = c == b'-'

abbrev pub after_sign : Text → Text
after_sign [] = []
after_sign (c ∷ s) = if c == b'-' then s else c ∷ s

abbrev pub option_text : StringUtil → Text → Text
option_text strings raw = strip_quotes (trim strings raw)

abbrev pub timeout_in_range : ℕ → Result OptionError ℕ
timeout_in_range sec =
    if sec == 0 then err zero_timeout else if ltb 86400 sec then err above_maximum else ok sec

unfoldable pub parse_route_timeout_sec : StringUtil → Text → Result OptionError ℕ
parse_route_timeout_sec strings raw =
    let s = option_text strings raw in
    if empty s
    then err empty_value
    else if minus s
    then err negative_value
    else read_seconds strings (multiplier strings) 86400 s >>= timeout_in_range

-- A number after a minus sign is refused but for zero.
abbrev pub duration_in_range : Bool → ℕ → Result OptionError ℕ
duration_in_range neg sec =
    if neg && not (sec == 0)
    then err negative_value
    else if ltb 604800 sec
    then err above_maximum
    else ok sec

unfoldable pub parse_duration_seconds : StringUtil → Text → Result OptionError ℕ
parse_duration_seconds strings raw =
    let s = option_text strings raw in
    if empty s
    then err empty_value
    else read_seconds strings (duration_multiplier strings) 31536000 (after_sign s)
      >>= duration_in_range (minus s)

-- ParseRouteRequestBytes: decimal digits only, in the range of `long long`.
unfoldable pub all_digits_value : ℕ → Text → ℕ
all_digits_value acc [] = acc
all_digits_value acc (c ∷ s) = all_digits_value (acc * 10 + (c - b'0')) s

unfoldable pub parse_route_request_bytes : Text → Result OptionError ℕ
parse_route_request_bytes raw =
    let parsed = all_digits_value 0 raw in
    if empty raw || not (all (λ c. leb b'0' c && leb c b'9') raw)
    then err no_byte_count
    else if leb 9223372036854775808 parsed
    then err too_large
    else if parsed == 0
    then err no_byte_count
    else ok parsed

-- JoinGroupPrefix
abbrev pub is_absolute : Text → Bool
is_absolute [] = false
is_absolute (c ∷ _) = c == b'/'

abbrev pub absolute : Text → Text
absolute path = if is_absolute path then path else b'/' ∷ path

unfoldable pub join_group_prefix : StringUtil → Text → Text → Result OptionError Text
unfolding strip_slashes
join_group_prefix strings prefix path =
    let p = strip_slashes (length prefix) prefix in
    let r = absolute path in
    if not (is_absolute prefix)
    then err prefix_relative
    else if empty path
    then ok (if empty p then codes "/" else p)
    else if text_eq r p || strings.starts_with r (p ++ b'/' ∷ [])
    then err (path_has_prefix path prefix)
    else ok (p ++ r)
