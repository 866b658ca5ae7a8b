-- ===== src/Router/Matching.antt =====
-- MatchPattern against the relation that it decides.
use quackapi.Base.{
  true, false, List, [], ◌∷◌, none, some, if◌then◌else◌, all, ◌≡◌, ◌↔◌, refl, sym, ◌∙◌, subst,
  arith, Bool-cases, Option-cases, inl, inr, eq_of_some,
}
use quackapi.Text.{Text, text_eq}
use quackapi.Text.Laws.{text_eq_iff, text_eq_refl}
use quackapi.Router.{
  Captures, capture, capture_name, match_segments, match_pattern, split_path, has_trailing_slash,
}
use quackapi.Router.Split.{
  segment_ok, split_path-ok, render, split_path-render, has_trailing_slash-render,
}

-- The segments of a path fit those of a pattern, which bind the captures.
pub data Binds : List Text → List Text → Captures → Type 0 where
  done : Binds [] [] []
  literal :
      {part : Text} {pattern path : List Text} {captures : Captures}
      → capture_name part ≡ none
      → Binds pattern path captures
      → Binds (part ∷ pattern) (part ∷ path) captures
  bind :
      {ps name part : Text} {pattern path : List Text} {captures : Captures}
      → capture_name ps ≡ some name
      → Binds pattern path captures
      → Binds (ps ∷ pattern) (part ∷ path) ((name, part) ∷ captures)

match_segments-done : match_segments [] [] ≡ some []
unfolding match_segments
match_segments-done = refl

match_segments-short :
    (part : Text) (path : List Text) {captures : Captures}
    → match_segments [] (part ∷ path) ≡ some captures
    → ⊥
unfolding match_segments
match_segments-short part path h = cc

match_segments-long :
    (ps : Text) (pattern : List Text) {captures : Captures}
    → match_segments (ps ∷ pattern) [] ≡ some captures
    → ⊥
unfolding match_segments
match_segments-long ps pattern h = cc

match_segments-literal :
    (ps part : Text) (pattern path : List Text)
    → capture_name ps ≡ none
    → match_segments (ps ∷ pattern) (part ∷ path)
      ≡ (if text_eq ps part then match_segments pattern path else none)
unfolding match_segments
match_segments-literal ps part pattern path h = rw (h, match_segments) refl

match_segments-bind :
    (ps part name : Text) (pattern path : List Text)
    → capture_name ps ≡ some name
    → match_segments (ps ∷ pattern) (part ∷ path) ≡ capture name part (match_segments pattern path)
unfolding match_segments
match_segments-bind ps part name pattern path h = rw (h, match_segments) refl

match_segments_complete :
    {pattern path : List Text} {captures : Captures}
    → Binds pattern path captures
    → match_segments pattern path ≡ some captures
match_segments_complete done = match_segments-done
match_segments_complete (literal {part} {pattern} {path} h rest) =
    match_segments-literal part part pattern path h
    ∙ rw (text_eq_refl part) (match_segments_complete rest)
match_segments_complete (bind {ps} {name} {part} {pattern} {path} h rest) =
    match_segments-bind ps part name pattern path h ∙ rw (match_segments_complete rest) refl

match_segments_sound :
    (pattern path : List Text) (captures : Captures)
    → match_segments pattern path ≡ some captures
    → Binds pattern path captures
match_segments_sound [] [] captures h =
    subst (Binds [] []) (eq_of_some (sym match_segments-done ∙ h)) done
match_segments_sound [] (part ∷ path) captures h = absurd (match_segments-short part path h)
match_segments_sound (ps ∷ pattern) [] captures h = absurd (match_segments-long ps pattern h)
match_segments_sound (ps ∷ pattern) (part ∷ path) captures h =
    elim (Option-cases (capture_name ps)) [
      | inl no_name ↦
          let chosen = sym (match_segments-literal ps part pattern path no_name) ∙ h in
          elim (Bool-cases (text_eq ps part)) [
            | inr other ↦ ground arith
            | inl same ↦
                subst (λ t. Binds (ps ∷ pattern) (t ∷ path) captures) ((text_eq_iff ps part).0 same)
                  (literal no_name (match_segments_sound pattern path captures (ground arith)))
          ]
      | inr (name, named) ↦
          let chosen = sym (match_segments-bind ps part name pattern path named) ∙ h in
          elim (Option-cases (match_segments pattern path)) [
            | inl none_there ↦ ground arith
            | inr (later, found) ↦
                subst (Binds (ps ∷ pattern) (part ∷ path))
                  (eq_of_some {a = (name, part) ∷ later} (ground arith))
                  (bind named (match_segments_sound pattern path later found))
          ]
    ]

-- A path matches a pattern with some captures exactly when both or neither end in a slash and the segments
-- of the pattern bind those of the path to the captures.
pub match_pattern_iff :
    (pattern path : Text) (captures : Captures)
    → (match_pattern pattern path ≡ some captures) ↔ (
        (has_trailing_slash pattern ≡ has_trailing_slash path)
        × Binds (split_path pattern) (split_path path) captures)
unfolding match_pattern
match_pattern_iff pattern path captures = (
  λ h. (
    ground arith,
    match_segments_sound (split_path pattern) (split_path path) captures (ground arith),
  ),
  λ r. ground (arith, r.0, match_segments_complete r.1),
)

Binds-ok :
    {pattern path : List Text} {captures : Captures}
    → Binds pattern path captures
    → all segment_ok path ≡ true
    → all (λ c. segment_ok c.1) captures ≡ true
Binds-ok done h = refl
Binds-ok (literal k rest) h = Binds-ok rest (ground arith)
Binds-ok (bind k rest) h = ground (arith, Binds-ok rest)

-- Where MatchPattern succeeds, no captured value is empty or holds a slash.
pub captures-ok :
    (pattern path : Text) (captures : Captures)
    → match_pattern pattern path ≡ some captures
    → all (λ c. segment_ok c.1) captures ≡ true
captures-ok pattern path captures h =
    Binds-ok ((match_pattern_iff pattern path captures).0 h).1 (split_path-ok path)

-- Where a pattern does not end in a slash, and its segments bind some segments, none of which is
-- empty or holds a slash, to some captures, MatchPattern matches the path written from those
-- segments with these captures.
pub match_pattern-render :
    (pattern : Text) (segments : List Text) (captures : Captures)
    → has_trailing_slash pattern ≡ false
    → all segment_ok segments ≡ true
    → Binds (split_path pattern) segments captures
    → match_pattern pattern (render segments) ≡ some captures
match_pattern-render pattern segments captures h k b =
    (match_pattern_iff pattern (render segments) captures).1 (
      h ∙ sym (has_trailing_slash-render segments k),
      subst (λ s. Binds (split_path pattern) s captures) (sym (split_path-render segments k)) b,
    )
