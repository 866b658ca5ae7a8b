-- ===== src/Auth/Objects.antt =====
-- The claims of a JSON object, as ParseJsonObjectClaims reads them.
use quackapi.Base.{
  Bool, true, not, ◌&&◌, List, [], ◌∷◌, ◌++◌, Option, none, some, any, all, if◌then◌else◌,
  append_assoc, append-nil, ◌≡◌, ◌↔◌, refl, sym, ap, ◌∙◌, arith, Bool-cases, Option-cases, inl, inr,
  eq_of_some,
}
use quackapi.Text.{Text, codes, text_eq}
use quackapi.Text.Laws.{text_eq_iff}
use quackapi.Auth.Claims.{Json, Claims, no_claims, add_claim, read_rows, parse_object_claims}

abbrev Rows : Type 0
Rows = List (Option Text × Option Text)

-- The keys of an object, the values that are there, and the keys that are null.
abbrev pub keys_of : Rows → List Text
keys_of [] = []
keys_of ((none, _) ∷ rows) = keys_of rows
keys_of ((some key, _) ∷ rows) = key ∷ keys_of rows

abbrev pub values_of : Rows → List (Text × Text)
values_of [] = []
values_of ((some key, some val) ∷ rows) = (key, val) ∷ values_of rows
values_of (_ ∷ rows) = values_of rows

abbrev pub nulls_of : Rows → List Text
nulls_of [] = []
nulls_of ((some key, none) ∷ rows) = key ∷ nulls_of rows
nulls_of (_ ∷ rows) = nulls_of rows

-- No key comes twice.
abbrev pub distinct : List Text → Bool
distinct [] = true
distinct (key ∷ keys) = all (λ later. not (text_eq later key)) keys && distinct keys

-- DuckDB reads the text as an object whose keys are distinct, and the claims are its members.
pub record IsObject (json : Json) (text : Text) (claims : Claims) : Type 0 where
  pub rows : Rows
  pub valid : json.valid text ≡ true
  pub object : json.type text ≡ some (codes "OBJECT")
  pub members : json.fields text ≡ some rows
  pub once : distinct (keys_of rows) ≡ true
  pub values : claims.values ≡ values_of rows
  pub nulls : claims.nulls ≡ nulls_of rows

abbrev unseen : List Text → List Text → Bool
unseen seen keys = all (λ key. not (any (text_eq key) seen)) keys

unseen-more :
    (key : Text) (seen keys : List Text)
    → unseen (key ∷ seen) keys ≡ (all (λ later. not (text_eq later key)) keys && unseen seen keys)
unseen-more key seen [] = refl
unseen-more key seen (k ∷ keys) = ground (arith, unseen-more key seen keys)

unseen-nil : (keys : List Text) → unseen [] keys ≡ true
unseen-nil [] = refl
unseen-nil (k ∷ keys) = unseen-nil keys

abbrev extended : Claims → Rows → Claims
extended claims rows = record {
  values = claims.values ++ values_of rows;
  nulls = claims.nulls ++ nulls_of rows;
}

-- One round of the loop, for a row that has a key.
row_read :
    (seen : List Text) (key : Text) (keys : List Text) (later : Option Claims) (f g : Claims)
    → later ≡ (if unseen (key ∷ seen) keys && distinct keys then some f else none)
    → f ≡ g
    → (if any (text_eq key) seen then none else later)
      ≡ (if unseen seen (key ∷ keys) && distinct (key ∷ keys) then some g else none)
row_read seen key keys later f g e same = elim (Bool-cases (any (text_eq key) seen)) [
  | inl there ↦ rw there refl
  | inr new ↦
      let b : (unseen (key ∷ seen) keys && distinct keys)
          ≡ (unseen seen keys && distinct (key ∷ keys)) =
        ground (arith, unseen-more key seen keys) in
      rw new (
        e
        ∙ ap (λ t. if t then some f else none) b
        ∙ ap (λ t. if unseen seen keys && distinct (key ∷ keys) then some t else none) same)
]

read_rows-eq :
    (seen : List Text) (claims : Claims) (rows : Rows)
    → read_rows seen claims rows ≡ (
        if unseen seen (keys_of rows) && distinct (keys_of rows)
        then some (extended claims rows)
        else none)
unfolding read_rows
read_rows-eq seen claims [] = ap some (rw (append-nil claims.values, append-nil claims.nulls) refl)
read_rows-eq seen claims ((none, val) ∷ rows) = read_rows-eq seen claims rows
read_rows-eq seen claims ((some key, none) ∷ rows) =
    let grown = add_claim key none claims in
    row_read seen key (keys_of rows) (read_rows (key ∷ seen) grown rows) (extended grown rows)
      (extended claims ((some key, none) ∷ rows)) (read_rows-eq (key ∷ seen) grown rows)
      (ap (λ n. record { values = claims.values ++ values_of rows; nulls = n })
        (append_assoc claims.nulls (key ∷ []) (nulls_of rows)))
read_rows-eq seen claims ((some key, some val) ∷ rows) =
    let grown = add_claim key (some val) claims in
    row_read seen key (keys_of rows) (read_rows (key ∷ seen) grown rows) (extended grown rows)
      (extended claims ((some key, some val) ∷ rows)) (read_rows-eq (key ∷ seen) grown rows)
      (ap (λ v. record { values = v; nulls = claims.nulls ++ nulls_of rows })
        (append_assoc claims.values ((key, val) ∷ []) (values_of rows)))

all_rows :
    (rows : Rows)
    → read_rows [] no_claims rows
      ≡ (if distinct (keys_of rows) then some (extended no_claims rows) else none)
all_rows rows = read_rows-eq [] no_claims rows ∙ rw (unseen-nil (keys_of rows)) refl

module _ (json : Json) (text : Text) (claims : Claims) where
  parse_sound : parse_object_claims json text ≡ some claims → IsObject json text claims
  unfolding parse_object_claims
  parse_sound h = elim (Bool-cases (json.valid text)) [
    | inr bad ↦ (let never = rw (bad, parse_object_claims) at h in cc)
    | inl valid ↦ elim (Option-cases (json.type text)) [
      | inl failed ↦ (let never = rw (valid, failed, parse_object_claims) at h in cc)
      | inr (jtype, typed) ↦ elim (Bool-cases (text_eq jtype (codes "OBJECT"))) [
        | inr other ↦ (let never = rw (valid, typed, other, parse_object_claims) at h in cc)
        | inl object ↦ elim (Option-cases (json.fields text)) [
          | inl failed ↦
              (let never = rw (valid, typed, object, failed, parse_object_claims) at h in cc)
          | inr (rows, found) ↦ elim (Bool-cases (distinct (keys_of rows))) [
            | inr twice ↦
                let never = rw twice at (
                  sym (all_rows rows)
                  ∙ rw (valid, typed, object, found, parse_object_claims) at h) in
                cc
            | inl once ↦
                let read = rw once at (
                  sym (all_rows rows)
                  ∙ rw (valid, typed, object, found, parse_object_claims) at h) in
                let same =
                  eq_of_some {A = Claims} {a = extended no_claims rows} {b = claims} read in
                record {
                  rows = rows;
                  valid = valid;
                  object = typed ∙ ap some ((text_eq_iff jtype (codes "OBJECT")).0 object);
                  members = found;
                  once = once;
                  values = ap (λ c. c.values) (sym same);
                  nulls = ap (λ c. c.nulls) (sym same);
                }
          ]
        ]
      ]
    ]
  ]

  parse_complete : IsObject json text claims → parse_object_claims json text ≡ some claims
  unfolding parse_object_claims text_eq
  parse_complete o =
      rw (o.valid, o.object, o.members, all_rows o.rows, o.once, parse_object_claims)
        (ap some (
          ap (λ v. record { values = v; nulls = nulls_of o.rows }) (sym o.values)
          ∙ ap (λ n. record { values = claims.values; nulls = n }) (sym o.nulls)))

  -- ParseJsonObjectClaims gives some claims exactly for an object whose keys are distinct and whose
  -- members they are.
  pub parse_object_claims_iff :
      (parse_object_claims json text ≡ some claims) ↔ IsObject json text claims
  parse_object_claims_iff = (parse_sound, parse_complete)
