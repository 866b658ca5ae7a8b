-- ===== src/Auth/Schemes.antt =====
-- Verdicts after the registry changes: a key that was added, and a scheme that was dropped.
use quackapi.Base.{
  ℕ, true, false, ◌&&◌, List, [], ◌∷◌, ◌++◌, Option, none, some, ok, err, if◌then◌else◌, find, ◌≡◌,
  refl, sym, ap, ◌∙◌, arith, Bool-cases, Option-cases, inl, inr, err-ne-ok, find-none,
}
use quackapi.Text.{Text, codes, empty}
use quackapi.Strings.{StringUtil}
use quackapi.Keyed.Laws.{get-append}
use quackapi.Crypto.{
  Mbedtls, constant_time_equals, constant_time_equals_iff, constant_time_equals_comm,
}
use quackapi.Types.{AuthKind, api_key, jwt_hs256, Auth, ApiKeyEntry, Route}
use quackapi.Registry.{auth_not_api_key}
use quackapi.Registry.Auths.{
  AuthState, scheme, is_api_key, add_auth, drop_auth, get_auth, snapshot_api_keys, same_key,
  put_key, add_api_key,
}
use quackapi.Registry.Auths.Keys.{IsValid, scheme_name, kind_fits}
use quackapi.Registry.Auths.Laws.{
  new_key, get-drop_auth, drop_auth-IsValid, snapshot_api_keys-eq_nil,
}
use quackapi.Auth.Claims.{Json}
use quackapi.Auth.Verify.{
  not_authenticated, accepted, subject_of, verify_api_key, verify_auth_scheme, check_auth,
}

module _ (strings : StringUtil) (mbedtls : Mbedtls) (json : Json) where
  open strings use {ci_equals, ci_equals_equiv}
  open ci_equals_equiv use {same_refl, same_sym, same_trans}

  -- The subject of the first key of the scheme with the digest.
  abbrev holder : Text → Text → List ApiKeyEntry → Option Text
  holder name hash keys = subject_of strings mbedtls json hash (snapshot_api_keys strings name keys)

  holder-cons :
      (name hash : Text) (e : ApiKeyEntry) (keys : List ApiKeyEntry)
      → holder name hash (e ∷ keys) ≡ (
          if ci_equals e.auth_name name && constant_time_equals mbedtls hash e.key_hash
          then some e.subject
          else holder name hash keys)
  unfolding snapshot_api_keys
  holder-cons name hash e keys = elim (Bool-cases (ci_equals e.auth_name name)) [
    | inr other ↦ rw other refl
    | inl same ↦ rw same (elim (Bool-cases (constant_time_equals mbedtls hash e.key_hash)) [
      | inl found ↦ rw (found, subject_of) refl
      | inr other ↦ rw (other, subject_of) refl
    ])
  ]

  -- The keys of a scheme, after one is put there.
  holder-put_key :
      (entry : ApiKeyEntry) (keys : List ApiKeyEntry)
      → holder entry.auth_name entry.key_hash (put_key strings mbedtls entry keys)
        ≡ some entry.subject
  unfolding put_key
  holder-put_key entry [] =
      holder-cons entry.auth_name entry.key_hash entry []
      ∙ rw
          (
            same_refl entry.auth_name,
            (constant_time_equals_iff mbedtls entry.key_hash entry.key_hash).1 refl,
          )
          refl
  holder-put_key entry (existing ∷ rest) =
      let flipped = constant_time_equals_comm mbedtls entry.key_hash existing.key_hash in
      elim (Bool-cases (same_key strings mbedtls entry existing)) [
        | inl same ↦ rw same (
            holder-cons entry.auth_name entry.key_hash
              (record existing { subject = entry.subject; auth_name = entry.auth_name }) rest
            ∙ rw (same_refl entry.auth_name, flipped) (ground arith))
        | inr other ↦ rw other (
            holder-cons entry.auth_name entry.key_hash existing (put_key strings mbedtls entry rest)
            ∙ rw (flipped, other) (holder-put_key entry rest))
      ]

  is_api_key-eq : (kind : AuthKind) → is_api_key kind ≡ true → kind ≡ api_key
  is_api_key-eq api_key h = refl
  is_api_key-eq jwt_hs256 h = cc

  verify_auth_scheme-api_key :
      (name key : Text) (auth : Auth) (exp_now nbf_now : ℕ) (s : AuthState)
      → get_auth strings name s ≡ some auth
      → is_api_key auth.kind ≡ true
      → verify_auth_scheme strings mbedtls json name key exp_now nbf_now s
        ≡ verify_api_key strings mbedtls json auth.name key s
  unfolding verify_auth_scheme
  verify_auth_scheme-api_key name key auth exp_now nbf_now s found kind =
      rw (found, verify_auth_scheme) (rw (is_api_key-eq auth.kind kind) refl)

  verify_api_key-held :
      (name key subject : Text) (s : AuthState)
      → empty key ≡ false
      → holder name (mbedtls.sha256 key) s.api_keys ≡ some subject
      → verify_api_key strings mbedtls json name key s ≡ accepted ((codes "sub", subject) ∷ [])
  verify_api_key-held name key subject s k held = rw k (rw held refl)

  verify_api_key-unheld :
      (name key : Text) (s : AuthState)
      → holder name (mbedtls.sha256 key) s.api_keys ≡ none
      → (verify_api_key strings mbedtls json name key s).allowed ≡ false
  verify_api_key-unheld name key s unheld = elim (Bool-cases (empty key)) [
    | inl e ↦ rw e refl
    | inr e ↦ rw e (rw unheld refl)
  ]

  abbrev with_key : Auth → Text → Text → AuthState → AuthState
  with_key auth key subject s = record s {
    api_keys = put_key strings mbedtls (new_key strings mbedtls auth key subject) s.api_keys;
  }

  add_api_key-found :
      (name key subject : Text) (auth : Auth) (s : AuthState)
      → empty key ≡ false
      → empty subject ≡ false
      → find (scheme strings name) s.auths ≡ some auth
      → add_api_key strings mbedtls name key subject s ≡ (
          if is_api_key auth.kind
          then (ok subject, with_key auth key subject s)
          else (err (auth_not_api_key name), s))
  unfolding add_api_key
  add_api_key-found name [] subject auth s k j found = cc
  add_api_key-found name (c ∷ key) [] auth s k j found = cc
  add_api_key-found name (c ∷ key) (d ∷ subject) auth s k j found = rw (found, add_api_key) refl

  add_api_key-ok :
      (name key subject : Text) (s : AuthState)
      → (add_api_key strings mbedtls name key subject s).0 ≡ ok subject
      → (empty key ≡ false)
        × (empty subject ≡ false)
        × ((auth : Auth) × (find (scheme strings name) s.auths ≡ some auth))
  unfolding add_api_key
  add_api_key-ok name [] subject s h = cc
  add_api_key-ok name (c ∷ key) [] s h = cc
  add_api_key-ok name (c ∷ key) (d ∷ subject) s h =
      elim (Option-cases (find (scheme strings name) s.auths)) [
        | inl missing ↦ absurd (err-ne-ok (rw (missing, add_api_key) at h))
        | inr found ↦ (refl, refl, found)
      ]

  -- Where AddApiKey returns the subject, VerifyAuthScheme accepts that key for that scheme name
  -- in the state it leaves, and gives the subject as the only claim, at any time.
  pub verify-add_api_key :
      (name key subject : Text) (exp_now nbf_now : ℕ) (s : AuthState)
      → (add_api_key strings mbedtls name key subject s).0 ≡ ok subject
      → verify_auth_scheme strings mbedtls json name key exp_now nbf_now
          (add_api_key strings mbedtls name key subject s).1
        ≡ accepted ((codes "sub", subject) ∷ [])
  verify-add_api_key name key subject exp_now nbf_now s h =
      let (k, j, (auth, found)) = add_api_key-ok name key subject s h in
      let step = add_api_key-found name key subject auth s k j found in
      let entry = new_key strings mbedtls auth key subject in
      elim (Bool-cases (is_api_key auth.kind)) [
        | inr refuses ↦
            (let refused = sym (ap (λ r. r.0) step) ∙ h in
              absurd (err-ne-ok (rw refuses at refused)))
        | inl takes ↦
            ap (λ r. verify_auth_scheme strings mbedtls json name key exp_now nbf_now r.1) step
            ∙ rw takes (
                verify_auth_scheme-api_key name key auth exp_now nbf_now
                  (with_key auth key subject s) found takes
                ∙ verify_api_key-held auth.name key subject (with_key auth key subject s) k
                    (holder-put_key entry s.api_keys))
      ]

  add_auth-absent :
      (auth : Auth) (s : AuthState)
      → get_auth strings auth.name s ≡ none
      → (add_auth strings auth false s).1 ≡ record s { auths = s.auths ++ auth ∷ [] }
  unfolding add_auth
  add_auth-absent auth s gone = rw (gone, add_auth) refl

  -- In a valid state, after DropAuth of a name, CheckAuth answers 401 without a credential hint
  -- to every request on a route that requires that name up to case.
  pub check_auth-drop_auth :
      {Value : Type 0} (name : Text) (route : Route Value) (headers : List (Text × Text))
      (exp_now nbf_now : ℕ) (s : AuthState)
      → IsValid strings s
      → empty route.require_auth ≡ false
      → ci_equals name route.require_auth ≡ true
      → check_auth strings mbedtls json route headers exp_now nbf_now (drop_auth strings name s).1
        ≡ not_authenticated []
  unfolding check_auth
  check_auth-drop_auth name route headers exp_now nbf_now s v required same =
      let gone : get_auth strings route.require_auth (drop_auth strings name s).1 ≡ none =
        get-drop_auth strings name route.require_auth s v ∙ rw same refl in
      rw required (rw (gone, check_auth) refl)

  -- In a valid state, where an API_KEY scheme is dropped and a scheme of API keys is created
  -- under the same name up to case, the new scheme accepts no credential.
  pub verify-recreated :
      (name key : Text) (auth : Auth) (exp_now nbf_now : ℕ) (s : AuthState)
      → IsValid strings s
      → ci_equals name auth.name ≡ true
      → is_api_key auth.kind ≡ true
      → (verify_auth_scheme strings mbedtls json auth.name key exp_now nbf_now
          (add_auth strings auth false (drop_auth strings name s).1).1).allowed
        ≡ false
  verify-recreated name key auth exp_now nbf_now s v same kind =
      let after = (drop_auth strings name s).1 in
      let gone : get_auth strings auth.name after ≡ none =
        get-drop_auth strings name auth.name s v ∙ rw same refl in
      let created = record after { auths = after.auths ++ auth ∷ [] } in
      let absent = find-none (scheme strings auth.name) after.auths gone in
      let there : get_auth strings auth.name created ≡ some auth =
        get-append ci_equals scheme_name ci_equals_equiv auth.name auth after.auths absent
        ∙ rw (same_refl auth.name) refl in
      let no_keys : snapshot_api_keys strings auth.name after.api_keys ≡ [] =
        snapshot_api_keys-eq_nil strings auth.name after (drop_auth-IsValid strings name s v)
          (ap kind_fits gone) in
      ap (λ t. (verify_auth_scheme strings mbedtls json auth.name key exp_now nbf_now t).allowed)
        (add_auth-absent auth after gone)
      ∙ ap (λ r. r.allowed)
          (verify_auth_scheme-api_key auth.name key auth exp_now nbf_now created there kind)
      ∙ verify_api_key-unheld auth.name key created
          (ap (subject_of strings mbedtls json (mbedtls.sha256 key)) no_keys)
