-- ===== src/Auth/Expiry.antt =====
-- The times of a token: its `exp` and `nbf` claims.
use quackapi.Base.{
  ℕ, ◌<◌, ◌≤◌, Bool, true, false, not, [], ◌∷◌, Option, none, some, any, ◌≡◌, ◌↔◌, refl, subst,
  arith, Option-cases, inl, inr, eq_of_some,
}
use quackapi.Text.{Text, codes, text_eq}
use quackapi.Auth.Claims.{Claims, claim_of}
use quackapi.Auth.Jwt.{LongLong, pos, negsuc, at_most, stoll, time_ok, times_ok}

abbrev pub After : ℕ → LongLong → Type 0
After now (pos n) = now < n
After now (negsuc n) = ⊥

abbrev pub NotAfter : ℕ → LongLong → Type 0
NotAfter now (pos n) = n ≤ now
NotAfter now (negsuc n) = Unit

-- A claim that is there is a whole number with a property; `stoll` reads it to its end.
abbrev pub Reads : (LongLong → Type 0) → Option Text → Type 0
Reads P found =
    (text : Text) → found ≡ some text → (n : LongLong) × (stoll text ≡ some (n, [])) × P n

-- `exp` and `nbf` are not null; where they are there, `exp` is after the time and `nbf` is not.
pub record Timely (exp_now nbf_now : ℕ) (claims : Claims) : Type 0 where
  pub exp_value : any (λ k. text_eq k (codes "exp")) claims.nulls ≡ false
  pub nbf_value : any (λ k. text_eq k (codes "nbf")) claims.nulls ≡ false
  pub expires : Reads (After exp_now) (claim_of (codes "exp") claims.values)
  pub begins : Reads (NotAfter nbf_now) (claim_of (codes "nbf") claims.values)

pub After-pos :
    (now : ℕ) (t : LongLong) (text : Text)
    → stoll text ≡ some (t, [])
    → After now t
    → (n : ℕ) × (stoll text ≡ some (pos n, [])) × (now < n)
After-pos now (pos n) text read later = (n, read, later)
After-pos now (negsuc n) text read later = absurd later

at_most-After : (now : ℕ) (t : LongLong) → (at_most t now ≡ false) ↔ After now t
at_most-After now (pos n) = (λ h. ground arith, λ h. ground arith)
at_most-After now (negsuc n) = (λ h. cc, λ h. absurd h)

at_most-NotAfter : (now : ℕ) (t : LongLong) → (not (at_most t now) ≡ false) ↔ NotAfter now t
at_most-NotAfter now (pos n) = (λ h. ground arith, λ h. ground arith)
at_most-NotAfter now (negsuc n) = (λ h. tt, λ h. refl)

module _ (refused : LongLong → Bool) (P : LongLong → Type 0)
    (admits : (t : LongLong) → (refused t ≡ false) ↔ P t) where
  held_sound :
      (text : Text)
      → time_ok refused (some text) ≡ true
      → (n : LongLong) × (stoll text ≡ some (n, [])) × P n
  held_sound text h = elim (Option-cases (stoll text)) [
    | inl missing ↦ (let never = rw (missing, time_ok) at h in cc)
    | inr ((n, []), found) ↦
        (n, found, (admits n).0 (let fine = rw (found, time_ok) at h in ground arith))
    | inr ((n, c ∷ rest), found) ↦ (let never = rw (found, time_ok) at h in cc)
  ]

  time_sound : (found : Option Text) → time_ok refused found ≡ true → Reads P found
  time_sound none h text e = cc
  time_sound (some held) h text e =
      subst (λ t. (n : LongLong) × (stoll t ≡ some (n, [])) × P n)
        (eq_of_some {A = Text} {a = held} {b = text} e) (held_sound held h)

  time_complete : (found : Option Text) → Reads P found → time_ok refused found ≡ true
  time_complete none r = refl
  time_complete (some text) r =
      let (n, read, p) = r text refl in rw (read, (admits n).1 p, time_ok) refl

-- The tests of VerifyJwtHs256 on the times.
pub times_ok_iff :
    (exp_now nbf_now : ℕ) (claims : Claims)
    → (times_ok exp_now nbf_now claims ≡ true) ↔ Timely exp_now nbf_now claims
times_ok_iff exp_now nbf_now claims = (
  λ h. record {
    exp_value = ground arith;
    nbf_value = ground arith;
    expires =
        time_sound (λ t. at_most t exp_now) (After exp_now) (at_most-After exp_now)
          (claim_of (codes "exp") claims.values) (ground arith);
    begins =
        time_sound (λ t. not (at_most t nbf_now)) (NotAfter nbf_now) (at_most-NotAfter nbf_now)
          (claim_of (codes "nbf") claims.values) (ground arith);
  },
  λ t.
      let e =
        time_complete (λ t. at_most t exp_now) (After exp_now) (at_most-After exp_now)
          (claim_of (codes "exp") claims.values) t.expires in
      let n =
        time_complete (λ t. not (at_most t nbf_now)) (NotAfter nbf_now) (at_most-NotAfter nbf_now)
          (claim_of (codes "nbf") claims.values) t.begins in
      rw (t.exp_value, t.nbf_value) (rw (e, n) refl),
)
