-- ===== src/Auth/Parts.antt =====
-- The three parts of a token.
use quackapi.Base.{
  Bool, true, false, not, ◌&&◌, ◌||◌, [], ◌∷◌, ◌++◌, Option, none, some, ok, ◌==◌, any, ◌≡◌, ◌↔◌,
  refl, sym, ap, ◌∙◌, subst, arith, Bool-cases, Option-cases, inl, inr, >>=-eq-ok, ok-injective,
  append_assoc,
}
use quackapi.Text.{Text, codes, empty}
use quackapi.Text.Laws.{text_eq_iff}
use quackapi.Auth.{split_at}
use quackapi.Auth.Jwt.{Token, require, from_option, split_token, is_hs256}

abbrev pub has_dot : Text → Bool
has_dot s = any (λ c. c == b'.') s

split_at_sound :
    (s before after : Text)
    → split_at b'.' s ≡ some (before, after)
    → (s ≡ before ++ b'.' ∷ after) × (has_dot before ≡ false)
unfolding split_at
split_at_sound [] before after h = ground arith
split_at_sound (x ∷ s) before after h = elim (Bool-cases (x == b'.')) [
  | inl dot ↦ ground arith
  | inr other ↦ elim (Option-cases (split_at b'.' s)) [
    | inl missing ↦ ground arith
    | inr ((b, a), found) ↦ ground (arith, split_at_sound s b a found)
  ]
]

split_at_complete :
    (before after : Text)
    → has_dot before ≡ false
    → split_at b'.' (before ++ b'.' ∷ after) ≡ some (before, after)
unfolding split_at
split_at_complete [] after h = refl
split_at_complete (x ∷ before) after h = ground (arith, split_at_complete before after)

pub from_option-ok : {A : Type 0} (o : Option A) {a : A} → from_option o ≡ ok a → o ≡ some a
from_option-ok none h = cc
from_option-ok (some a) h = ap some (ok-injective h)

pub require-ok : (b : Bool) {u : Unit {0}} → require b ≡ ok u → b ≡ true
require-ok true h = refl
require-ok false h = cc

pub is_hs256-some : (alg : Option Text) → is_hs256 alg ≡ true → alg ≡ some (codes "HS256")
is_hs256-some none h = cc
is_hs256-some (some alg) h = ap some ((text_eq_iff alg (codes "HS256")).0 h)

-- A token is taken apart exactly into three parts that are not empty and hold no dot, with a dot between
-- each two.
pub record Parts (token : Text) (t : Token) : Type 0 where
  pub whole : token ≡ t.header ++ b'.' ∷ t.payload ++ b'.' ∷ t.signature
  pub no_dots : (has_dot t.header || has_dot t.payload || has_dot t.signature) ≡ false
  pub no_empty : (empty t.header || empty t.payload || empty t.signature) ≡ false

pub split_token_sound : (token : Text) (t : Token) → split_token token ≡ ok t → Parts token t
unfolding split_token
split_token_sound token t h =
    let ((header, after), e1, h1) = >>=-eq-ok (from_option (split_at b'.' token)) _ h in
    let ((payload, signature), e2, h2) = >>=-eq-ok (from_option (split_at b'.' after)) _ h1 in
    let (_, e3, h3) = >>=-eq-ok (require (not (has_dot signature))) _ h2 in
    let (_, e4, h4) =
      >>=-eq-ok (require (not (empty header) && not (empty payload) && not (empty signature))) _
        h3 in
    let (w1, n1) = split_at_sound token header after (from_option-ok (split_at b'.' token) e1) in
    let (w2, n2) =
      split_at_sound after payload signature (from_option-ok (split_at b'.' after) e2) in
    let n3 = require-ok (not (has_dot signature)) e3 in
    let n4 = require-ok (not (empty header) && not (empty payload) && not (empty signature)) e4 in
    subst (Parts token) (ok-injective h4) (record {
      whole =
          w1
          ∙ ap (λ r. header ++ b'.' ∷ r) w2
          ∙ sym (append_assoc header (b'.' ∷ payload) (b'.' ∷ signature));
      no_dots = ground arith;
      no_empty = ground arith;
    })

split_token-whole :
    (h p s : Text)
    → (has_dot h || has_dot p || has_dot s) ≡ false
    → (empty h || empty p || empty s) ≡ false
    → split_token (h ++ b'.' ∷ (p ++ b'.' ∷ s))
      ≡ ok (record { header = h; payload = p; signature = s })
unfolding split_token
split_token-whole h p s d e =
    rw (split_at_complete h (p ++ b'.' ∷ s) (ground arith))
      (rw (split_at_complete p s (ground arith)) (ground arith))

pub split_token_iff : (token : Text) (t : Token) → (split_token token ≡ ok t) ↔ Parts token t
split_token_iff token t = (
  split_token_sound token t,
  λ parts.
      ap split_token (parts.whole ∙ append_assoc t.header (b'.' ∷ t.payload) (b'.' ∷ t.signature))
      ∙ split_token-whole t.header t.payload t.signature parts.no_dots parts.no_empty,
)
