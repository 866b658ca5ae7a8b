-- ===== src/Middleware/Headers.antt =====
-- The response headers that a hook may set: IsHttpTokenChar, IsForbiddenResponseHeader and
-- IsSafeResponseHeader.
use quackapi.Base.{ℕ, ◌+◌, ltb, Bool, not, ◌&&◌, ◌||◌, List, [], ◌∷◌, any, all, length, ◌==◌}
use quackapi.Text.{Text, codes, text_eq, empty}
use quackapi.Strings.{StringUtil}
use quackapi.Middleware.{max_header_bytes, alpha, digit}

-- The punctuation of a token; 39 is the single quote.
abbrev punctuation : Text
punctuation =
    b'!' ∷ b'#' ∷ b'$' ∷ b'%' ∷ b'&' ∷ 39 ∷ b'*' ∷ b'+' ∷ b'-' ∷ b'.' ∷ b'^' ∷ b'_' ∷ b'`' ∷ b'|'
    ∷ b'~' ∷ []

unfoldable pub is_http_token_char : ℕ → Bool
is_http_token_char c = alpha c || digit c || any (λ p. c == p) punctuation

abbrev forbidden : List Text
forbidden =
    codes "connection"
    ∷ codes "content-length"
    ∷ codes "keep-alive"
    ∷ codes "proxy-authenticate"
    ∷ codes "proxy-authorization"
    ∷ codes "te"
    ∷ codes "trailer"
    ∷ codes "transfer-encoding"
    ∷ codes "upgrade"
    ∷ []

unfoldable pub is_forbidden_response_header : StringUtil → Text → Bool
is_forbidden_response_header strings name = any (text_eq (strings.lower name)) forbidden

-- 13 and 10 are the carriage return and the line feed.
unfoldable pub is_safe_response_header : StringUtil → Text → Text → Bool
unfolding is_http_token_char is_forbidden_response_header
is_safe_response_header strings name value =
    not (
      empty name
      || ltb 256 (length name)
      || ltb max_header_bytes (length value)
      || ltb max_header_bytes (length name + length value)
      || is_forbidden_response_header strings name)
    && all is_http_token_char name
    && not (any (λ c. c == 13) value)
    && not (any (λ c. c == 10) value)
