-- ===== src/Telemetry/Redaction.antt =====
-- Secrets do not reach the log.
use quackapi.Base.{
  ℕ, Bool, true, false, not, ◌&&◌, List, [], ◌∷◌, ◌++◌, map, some, any, all, ◌==◌, ◌≡◌, ◌⊎◌, refl,
  sym, ap, subst, ◌∙◌, arith, inl, inr, append_assoc, append-nil, if◌then◌else◌,
}
use quackapi.Text.{Text, codes, text_eq}
use quackapi.Strings.{StringUtil}
use quackapi.Auth.{split_at}
use quackapi.Telemetry.{
  is_denied_header_name, redacted_header, redacted_headers, is_denied_query_key, redact_pair,
  redact_from, redact_raw_query,
}

abbrev without : ℕ → Text → Bool
without c s = all (λ x. not (x == c)) s

split_at-first :
    (c : ℕ) (before after : Text)
    → without c before ≡ true
    → split_at c (before ++ c ∷ after) ≡ some (before, after)
unfolding split_at
split_at-first c [] after h = ground arith
split_at-first c (x ∷ before) after h = ground (arith, split_at-first c before after)

-- The pairs of a query, with an ampersand between two.
abbrev after_ampersands : List Text → Text
after_ampersands [] = []
after_ampersands (pair ∷ pairs) = b'&' ∷ pair ++ after_ampersands pairs

abbrev pub joined : List Text → Text
joined [] = []
joined (pair ∷ pairs) = pair ++ after_ampersands pairs

module _ (strings : StringUtil) (contains : Text → Text → Bool) (decode : Text → Text) where
  abbrev redacted : Text → Text
  redacted = redact_pair strings contains decode

  redact_from-pair :
      (pair begun rest : Text)
      → without b'&' pair ≡ true
      → redact_from strings contains decode begun (pair ++ rest)
        ≡ redact_from strings contains decode (begun ++ pair) rest
  unfolding redact_from
  redact_from-pair [] begun rest h =
      ap (λ s. redact_from strings contains decode s rest) (sym (append-nil begun))
  redact_from-pair (c ∷ pair) begun rest h =
      let other : (c == b'&') ≡ false = ground arith in
      rw (other, redact_from)
        (redact_from-pair pair (begun ++ c ∷ []) rest (ground arith)
          ∙ ap (λ s. redact_from strings contains decode s rest) (append_assoc begun (c ∷ []) pair))

  redact_from-joined :
      (pair : Text) (pairs : List Text)
      → all (without b'&') (pair ∷ pairs) ≡ true
      → redact_from strings contains decode [] (joined (pair ∷ pairs))
        ≡ joined (map redacted (pair ∷ pairs))
  unfolding redact_from
  redact_from-joined pair [] h =
      redact_from-pair pair [] [] (ground arith) ∙ sym (append-nil (redacted pair))
  redact_from-joined pair (next ∷ pairs) h =
      redact_from-pair pair [] (b'&' ∷ next ++ after_ampersands pairs) (ground arith)
      ∙ ap (λ s. redacted pair ++ b'&' ∷ s) (redact_from-joined next pairs (ground arith))

  redact_raw_query-joined :
      (path : Text) (before after : List Text) (pair : Text)
      → without b'?' path ≡ true
      → all (without b'&') (before ++ pair ∷ after) ≡ true
      → redact_raw_query strings contains decode (path ++ b'?' ∷ joined (before ++ pair ∷ after))
        ≡ joined (map redacted (before ++ pair ∷ after))
  unfolding redact_raw_query
  redact_raw_query-joined path [] after pair p h =
      rw (split_at-first b'?' path (joined (pair ∷ after)) p, redact_raw_query)
        (redact_from-joined pair after h)
  redact_raw_query-joined path (b ∷ before) after pair p h =
      rw (split_at-first b'?' path (joined (b ∷ before ++ pair ∷ after)) p, redact_raw_query)
        (redact_from-joined b (before ++ pair ∷ after) h)

  redact_pair-denied :
      (key value : Text)
      → without b'=' key ≡ true
      → is_denied_query_key strings contains decode key ≡ true
      → redacted (key ++ b'=' ∷ value) ≡ key ++ codes "=[REDACTED]"
  unfolding redact_pair
  redact_pair-denied key value h denied =
      rw (split_at-first b'=' key value h, denied, redact_pair) refl

  same_around :
      (x y : Text)
      → redacted x ≡ redacted y
      → (before after : List Text)
      → map redacted (before ++ x ∷ after) ≡ map redacted (before ++ y ∷ after)
  same_around x y e [] after = ap (λ r. r ∷ map redacted after) e
  same_around x y e (b ∷ before) after = ap (λ r. redacted b ∷ r) (same_around x y e before after)

  -- RedactRawQuery on a target whose query has a pair with a denied key: the result is the same for
  -- any two values of that key, wherever the pair stands. A
  -- path has no question mark, a pair no ampersand and a key no equals sign.
  pub redact_raw_query_blind :
      (path : Text) (before after : List Text) (key v w : Text)
      → without b'?' path ≡ true
      → without b'=' key ≡ true
      → is_denied_query_key strings contains decode key ≡ true
      → all (without b'&') (before ++ (key ++ b'=' ∷ v) ∷ after) ≡ true
      → all (without b'&') (before ++ (key ++ b'=' ∷ w) ∷ after) ≡ true
      → redact_raw_query strings contains decode
          (path ++ b'?' ∷ joined (before ++ (key ++ b'=' ∷ v) ∷ after))
        ≡ redact_raw_query strings contains decode
            (path ++ b'?' ∷ joined (before ++ (key ++ b'=' ∷ w) ∷ after))
  redact_raw_query_blind path before after key v w p k denied hv hw =
      let same = redact_pair-denied key v k denied ∙ sym (redact_pair-denied key w k denied) in
      redact_raw_query-joined path before after (key ++ b'=' ∷ v) p hv
      ∙ ap joined (same_around (key ++ b'=' ∷ v) (key ++ b'=' ∷ w) same before after)
      ∙ sym (redact_raw_query-joined path before after (key ++ b'=' ∷ w) p hw)

module _ (strings : StringUtil) (contains : Text → Text → Bool) where
  -- The same names, with the same values but for the names that are denied.
  abbrev pub Alike : List (Text × Text) → List (Text × Text) → Type 0
  Alike [] [] = Unit
  Alike ((k, v) ∷ xs) ((l, w) ∷ ys) =
      (k ≡ l)
      × ((is_denied_header_name strings contains (strings.lower k) ≡ true) ⊎ (v ≡ w))
      × Alike xs ys
  Alike _ _ = ⊥

  entry_same :
      (k l v w : Text)
      → k ≡ l
      → (is_denied_header_name strings contains (strings.lower k) ≡ true) ⊎ (v ≡ w)
      → redacted_header strings contains (strings.lower k) v
        ≡ redacted_header strings contains (strings.lower l) w
  entry_same k l v w e (inl denied) =
      subst
        (λ key.
          redacted_header strings contains (strings.lower k) v
          ≡ redacted_header strings contains (strings.lower key) w)
        e (rw denied refl)
  entry_same k l v w e (inr same) =
      ap (redacted_header strings contains (strings.lower k)) same
      ∙ ap (λ key. redacted_header strings contains (strings.lower key) w) e

  abbrev grown : List Text → List (Text × Text) → Text → Text × Text → List (Text × Text)
  grown allowed result key entry =
      if any (text_eq (strings.lower key)) allowed
        && not (any (λ old. text_eq old.0 (strings.lower key)) result)
      then result ++ entry ∷ []
      else result

  -- RedactedHeaders gives the same entries for two requests whose headers have the same names, and
  -- the same values but for the names that are denied.
  pub redacted_headers_blind :
      (allowed : List Text) (result xs ys : List (Text × Text))
      → Alike xs ys
      → redacted_headers strings contains allowed result xs
        ≡ redacted_headers strings contains allowed result ys
  unfolding redacted_headers
  redacted_headers_blind allowed result [] [] h = refl
  redacted_headers_blind allowed result [] (_ ∷ _) h = absurd h
  redacted_headers_blind allowed result (_ ∷ _) [] h = absurd h
  redacted_headers_blind allowed result ((k, v) ∷ xs) ((l, w) ∷ ys) (e, value, rest) =
      let old = redacted_header strings contains (strings.lower k) v in
      let new = redacted_header strings contains (strings.lower l) w in
      ap (λ r. redacted_headers strings contains allowed r xs)
        (ap (λ key. grown allowed result key old) e
          ∙ ap (grown allowed result l) (entry_same k l v w e value))
      ∙ redacted_headers_blind allowed (grown allowed result l new) xs ys rest
