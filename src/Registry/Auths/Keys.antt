-- ===== src/Registry/Auths/Keys.antt =====
-- The invariant of schemes and keys, and what a change of the schemes does to a key's owner.
use quackapi.Base.{
  Bool, true, false, not, ◌&&◌, List, [], ◌∷◌, ◌++◌, Option, none, some, if◌then◌else◌, any, all,
  replace, remove, ◌≡◌, sym, ◌∙◌, arith, Bool-cases, inl, inr, find-none, find_passes, all-imp,
  all-remove_if, all-map,
}
use quackapi.Text.{Text, text_eq}
use quackapi.Strings.{StringUtil}
use quackapi.Keyed.{named, Distinct, get}
use quackapi.Keyed.Laws.{get-same, get-append, get-replace, get-remove}
use quackapi.Types.{Auth, ApiKeyEntry}
use quackapi.Registry.Auths.{
  AuthState, is_api_key, scheme, key_of_scheme, rename_key, keys_after_replace,
}

abbrev pub scheme_name : Auth → Text
scheme_name a = a.name

abbrev pub kind_fits : Option Auth → Bool
kind_fits none = false
kind_fits (some a) = is_api_key a.kind

module _ (strings : StringUtil) where
  open strings use {ci_equals, ci_equals_equiv}

  -- The scheme that the key names is registered and takes API keys.
  abbrev pub owned : List Auth → ApiKeyEntry → Bool
  owned auths e = kind_fits (get ci_equals scheme_name e.auth_name auths)

  -- Scheme names are distinct up to case, and no key outlives its API_KEY scheme.
  pub record IsValid (s : AuthState) : Type 0 where
    pub schemes : Distinct ci_equals scheme_name s.auths
    pub keys : all (owned s.auths) s.api_keys ≡ true

  abbrev pub get_scheme : Text → List Auth → Option Auth
  get_scheme = get ci_equals scheme_name

  abbrev pub present : Text → List Auth → Bool
  present k auths = any (named ci_equals scheme_name k) auths

  pub find-present :
      (k : Text) (auths : List Auth) (a : Auth)
      → get_scheme k auths ≡ some a
      → present k auths ≡ true
  find-present k [] a h = cc
  find-present k (x ∷ auths) a h = ground (arith, find-present k auths a)

  -- A new scheme at the end takes no key over.
  pub owned-append :
      (auth : Auth) (auths : List Auth) (e : ApiKeyEntry)
      → get_scheme auth.name auths ≡ none
      → owned auths e ≡ true
      → owned (auths ++ auth ∷ []) e ≡ true
  owned-append auth auths e missing h =
      rw
        (get-append ci_equals scheme_name ci_equals_equiv e.auth_name auth auths
          (find-none _ auths missing))
        (elim (Bool-cases (ci_equals auth.name e.auth_name)) [
          | inl same ↦ absurd (
              unowned
                (get-same ci_equals scheme_name ci_equals_equiv auth.name e.auth_name auths same))
          | inr other ↦ rw other h
        ])
    where
      unowned : get_scheme auth.name auths ≡ get_scheme e.auth_name auths → ⊥
      unowned same =
          let gone : get_scheme e.auth_name auths ≡ none = sym same ∙ missing in cc (rw gone at h)

  module _ (old auth : Auth) (auths : List Auth)
      (found : get_scheme auth.name auths ≡ some old) where
    same_scheme : ci_equals old.name auth.name ≡ true
    same_scheme = find_passes (named ci_equals scheme_name auth.name) auths found

    owned-replace :
        (e : ApiKeyEntry)
        → owned (replace (scheme strings auth.name) auth auths) e
          ≡ (if ci_equals auth.name e.auth_name then is_api_key auth.kind else owned auths e)
    owned-replace e =
        rw
          (get-replace ci_equals scheme_name ci_equals_equiv e.auth_name auth auths
            (find-present auth.name auths old found))
          (elim (Bool-cases (ci_equals auth.name e.auth_name)) [ inl t ↦ rw t | inr f ↦ rw f ])

    -- An owned key of the scheme shows that the old scheme took keys.
    owner_kind :
        (e : ApiKeyEntry)
        → owned auths e ≡ true
        → ci_equals auth.name e.auth_name ≡ true
        → is_api_key old.kind ≡ true
    owner_kind e h same =
        let e_found : get_scheme e.auth_name auths ≡ some old =
          sym (get-same ci_equals scheme_name ci_equals_equiv auth.name e.auth_name auths same)
          ∙ found in
        rw e_found at h

    -- A key is of the old scheme exactly when it is of the new one.
    of_old :
        (e : ApiKeyEntry)
        → ci_equals auth.name e.auth_name ≡ true
        → key_of_scheme strings old.name e ≡ true
    of_old e same =
        ci_equals_equiv.same_sym old.name e.auth_name
          (ci_equals_equiv.same_trans old.name auth.name e.auth_name same_scheme same)

    of_new :
        (e : ApiKeyEntry)
        → key_of_scheme strings old.name e ≡ true
        → ci_equals auth.name e.auth_name ≡ true
    of_new e h =
        ci_equals_equiv.same_sym e.auth_name auth.name
          (ci_equals_equiv.same_trans e.auth_name old.name auth.name h same_scheme)

    abbrev loses_keys : Bool
    loses_keys = is_api_key old.kind && not (is_api_key auth.kind)

    abbrev owned' : ApiKeyEntry → Bool
    owned' = owned (replace (scheme strings auth.name) auth auths)

    owned-kept : loses_keys ≡ false → (e : ApiKeyEntry) → owned auths e ≡ true → owned' e ≡ true
    owned-kept keeps e h = rw (owned-replace e) (ground (arith, owner_kind e h))

    owned-others :
        (e : ApiKeyEntry)
        → owned auths e ≡ true
        → key_of_scheme strings old.name e ≡ false
        → owned' e ≡ true
    owned-others e h other = rw (owned-replace e) (ground (arith, of_old e))

    owned-renamed :
        loses_keys ≡ false
        → (e : ApiKeyEntry) → owned auths e ≡ true
        → owned' (rename_key strings old.name auth.name e) ≡ true
    owned-renamed keeps e h = elim (Bool-cases (key_of_scheme strings old.name e)) [
      | inl ours ↦
          rw
            (
              ours,
              owned-replace (record e { auth_name = auth.name }),
              ci_equals_equiv.same_refl auth.name,
            )
            (ground (arith, owner_kind e h (of_new e ours)))
      | inr other ↦ rw other (owned-others e h other)
    ]

    -- Replacing a scheme leaves only keys with an owner.
    pub keys_after_replace-owned :
        (keys : List ApiKeyEntry)
        → all (owned auths) keys ≡ true
        → all owned' (keys_after_replace strings old auth keys) ≡ true
    keys_after_replace-owned keys h = elim (Bool-cases loses_keys) [
      | inl loses ↦
          rw loses (
            all-remove_if (owned auths) owned' (key_of_scheme strings old.name) owned-others keys h)
      | inr keeps ↦ elim (Bool-cases (text_eq old.name auth.name)) [
        | inl same ↦ rw (keeps, same) (all-imp (owned auths) owned' (owned-kept keeps) keys h)
        | inr renamed ↦
            rw (keeps, renamed)
              (all-map (owned auths) owned' (rename_key strings old.name auth.name)
                (owned-renamed keeps) keys h)
      ]
    ]

  -- Dropping a scheme leaves the other schemes' keys owned.
  pub owned-remove :
      (name : Text) (dropped : Auth) (auths : List Auth)
      → get_scheme name auths ≡ some dropped
      → Distinct ci_equals scheme_name auths
      → (e : ApiKeyEntry) → owned auths e ≡ true
      → ci_equals e.auth_name dropped.name ≡ false
      → owned (remove (scheme strings name) auths) e ≡ true
  owned-remove name dropped auths found d e h other =
      rw (get-remove ci_equals scheme_name ci_equals_equiv name e.auth_name auths d)
        (elim (Bool-cases (ci_equals name e.auth_name)) [
          | inl same ↦ absurd (clash same)
          | inr free ↦ rw free h
        ])
    where
      clash : ci_equals name e.auth_name ≡ true → ⊥
      clash same =
          let passes = find_passes (named ci_equals scheme_name name) auths found in
          let joined = ci_equals_equiv.same_trans dropped.name name e.auth_name passes same in
          cc (ci_equals_equiv.same_sym dropped.name e.auth_name joined)
