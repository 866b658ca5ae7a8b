-- ===== src/Router/Split.antt =====
-- The segments of a path.
use quackapi.Base.{
  ℕ, Bool, true, false, not, ◌&&◌, List, [], ◌∷◌, ◌++◌, ◌==◌, if◌then◌else◌, all, all-append,
  append-nil, append_assoc, ◌≡◌, refl, ap, ◌∙◌, arith, Bool-cases, inl, inr,
}
use quackapi.Text.{Text, empty, ends_in}
use quackapi.Router.{split_from, split_path, has_trailing_slash}

abbrev pub slash_free : Text → Bool
slash_free s = all (λ c. not (c == b'/')) s

abbrev pub segment_ok : Text → Bool
segment_ok s = not (empty s) && slash_free s

split_from-ok :
    (segments : List Text) (current path : Text)
    → all segment_ok segments ≡ true
    → slash_free current ≡ true
    → all segment_ok (split_from segments current path) ≡ true
unfolding split_from
split_from-ok segments current [] h k = elim (Bool-cases (empty current)) [
  | inl e ↦ rw e h
  | inr e ↦ rw e (all-append segment_ok segments (current ∷ []) ∙ ground arith)
]
split_from-ok segments current (c ∷ path) h k = elim (Bool-cases (c == b'/')) [
  | inr other ↦ rw other (
      split_from-ok segments (current ++ c ∷ []) path h
        (all-append (λ c. not (c == b'/')) current (c ∷ []) ∙ ground arith))
  | inl slash ↦ rw slash (elim (Bool-cases (empty current)) [
    | inl e ↦ rw e (split_from-ok segments [] path h refl)
    | inr e ↦ rw e (
        split_from-ok (segments ++ current ∷ []) [] path
          (all-append segment_ok segments (current ∷ []) ∙ ground arith) refl)
  ])
]

-- Every segment of a path is there and holds no slash.
pub split_path-ok : (path : Text) → all segment_ok (split_path path) ≡ true
unfolding split_path
split_path-ok path = split_from-ok [] [] path refl refl

-- The path of some segments, each after a slash.
unfoldable pub render : List Text → Text
render [] = []
render (s ∷ rest) = b'/' ∷ s ++ render rest

split_from-char :
    (segments : List Text) (current path : Text) (c : ℕ)
    → (c == b'/') ≡ false
    → split_from segments current (c ∷ path) ≡ split_from segments (current ++ c ∷ []) path
unfolding split_from
split_from-char segments current path c h =
    ap
      (λ b.
        split_from (if b && not (empty current) then segments ++ current ∷ [] else segments)
          (if b then [] else current ++ c ∷ []) path)
      h

split_from-chars :
    (segments : List Text) (current s rest : Text)
    → slash_free s ≡ true
    → split_from segments current (s ++ rest) ≡ split_from segments (current ++ s) rest
split_from-chars segments current [] rest h = rw (append-nil current) refl
split_from-chars segments current (c ∷ s) rest h =
    split_from-char segments current (s ++ rest) c (ground arith)
    ∙ split_from-chars segments (current ++ c ∷ []) s rest (ground arith)
    ∙ ap (λ t. split_from segments t rest) (append_assoc current (c ∷ []) s)

empty-append : (xs : Text) (c : ℕ) → empty (xs ++ c ∷ []) ≡ false
empty-append [] c = refl
empty-append (x ∷ xs) c = refl

split_from-render :
    (segments rest : List Text) (current : Text)
    → empty current ≡ false
    → all segment_ok rest ≡ true
    → split_from segments current (render rest) ≡ segments ++ current ∷ rest
unfolding split_from render
split_from-render segments [] current h k = rw h refl
split_from-render segments (s ∷ rest) current h k =
    ap
      (λ b. split_from (if not b then segments ++ current ∷ [] else segments) [] (s ++ render rest))
      h
    ∙ split_from-chars (segments ++ current ∷ []) [] s (render rest) (ground arith)
    ∙ split_from-render (segments ++ current ∷ []) rest s (ground arith) (ground arith)
    ∙ append_assoc segments (current ∷ []) (s ∷ rest)

-- A path written from segments is split into them.
pub split_path-render :
    (segments : List Text)
    → all segment_ok segments ≡ true
    → split_path (render segments) ≡ segments
unfolding split_path render split_from
split_path-render [] h = refl
split_path-render (s ∷ rest) h =
    split_from-chars [] [] s (render rest) (ground arith)
    ∙ split_from-render [] rest s (ground arith) (ground arith)

ends_in-append :
    (c : ℕ) (xs : Text) (x : ℕ) (ys : Text) → ends_in c (xs ++ x ∷ ys) ≡ ends_in c (x ∷ ys)
unfolding ends_in
ends_in-append c [] x ys = refl
ends_in-append c (y ∷ []) x ys = refl
ends_in-append c (y ∷ z ∷ xs) x ys = ends_in-append c (z ∷ xs) x ys

ends_in-slash_free : (s : Text) → slash_free s ≡ true → ends_in b'/' s ≡ false
unfolding ends_in
ends_in-slash_free [] h = refl
ends_in-slash_free (c ∷ []) h = ground arith
ends_in-slash_free (c ∷ d ∷ s) h = ends_in-slash_free (d ∷ s) (ground arith)

ends_in-render :
    (segments : List Text) → all segment_ok segments ≡ true → ends_in b'/' (render segments) ≡ false
unfolding render ends_in
ends_in-render [] h = refl
ends_in-render ((c ∷ s) ∷ []) h = rw (append-nil s) (ends_in-slash_free (c ∷ s) (ground arith))
ends_in-render ([] ∷ rest) h = ground arith
ends_in-render ((c ∷ s) ∷ t ∷ rest) h =
    ends_in-append b'/' (c ∷ s) b'/' (t ++ render rest) ∙ ends_in-render (t ∷ rest) (ground arith)

-- Such a path has no trailing slash.
pub has_trailing_slash-render :
    (segments : List Text)
    → all segment_ok segments ≡ true
    → has_trailing_slash (render segments) ≡ false
unfolding has_trailing_slash
has_trailing_slash-render segments h = rw (ends_in-render segments h) (ground arith)
