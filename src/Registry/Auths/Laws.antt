-- ===== src/Registry/Auths/Laws.antt =====
-- Schemes and keys: the invariant of every operation, and what GetAuth and SnapshotApiKeys give.
use quackapi.Base.{
  Bool, true, false, List, [], ◌∷◌, ◌++◌, none, some, if◌then◌else◌, all, find, remove, ◌≡◌, refl,
  sym, ap, ◌∙◌, arith, Bool-cases, Option-cases, inl, inr, find-none, find_passes, all-imp,
  all-remove_if,
}
use quackapi.Text.{Text}
use quackapi.Strings.{StringUtil}
use quackapi.Crypto.{Mbedtls}
use quackapi.Keyed.{named}
use quackapi.Keyed.Laws.{
  get-same, get-remove, get-absent, append-Distinct, replace-Distinct, remove-Distinct,
}
use quackapi.Types.{Auth, ApiKeyEntry}
use quackapi.Registry.Auths.{
  AuthState, is_api_key, scheme, key_of_scheme, add_auth, drop_auth, get_auth, same_key, put_key,
  add_api_key, snapshot_api_keys,
}
use quackapi.Registry.Auths.Keys.{
  scheme_name, kind_fits, owned, IsValid, get_scheme, owned-append, keys_after_replace-owned,
  owned-remove,
}

module _ (strings : StringUtil) where
  open strings use {ci_equals, ci_equals_equiv}

  -- AddAuth, whether it throws or not, keeps scheme names distinct up to case and every key owned
  -- by a registered API_KEY scheme, also where OR REPLACE changes the kind of a scheme or the
  -- spelling of its name.
  pub add_auth-IsValid :
      (auth : Auth) (or_replace : Bool) (s : AuthState)
      → IsValid strings s
      → IsValid strings (add_auth strings auth or_replace s).1
  unfolding add_auth
  add_auth-IsValid auth or_replace s v =
      elim (Option-cases (find (scheme strings auth.name) s.auths)) [
        | inl missing ↦
            rw (missing, add_auth)
              (record {
                schemes =
                    append-Distinct ci_equals scheme_name ci_equals_equiv auth s.auths
                      (find-none _ s.auths missing) v.schemes;
                keys =
                    all-imp (owned strings s.auths) (owned strings (s.auths ++ auth ∷ []))
                      (λ e h. owned-append strings auth s.auths e missing h) s.api_keys v.keys;
              })
        | inr (old, found) ↦ elim (Bool-cases or_replace) [
          | inl replaces ↦
              rw (found, add_auth)
                (rw replaces (record {
                  schemes =
                      replace-Distinct ci_equals scheme_name ci_equals_equiv auth s.auths v.schemes;
                  keys = keys_after_replace-owned strings old auth s.auths found s.api_keys v.keys;
                }))
          | inr refuses ↦ rw (found, add_auth) (rw refuses v)
        ]
      ]

  -- DropAuth keeps scheme names distinct up to case and every key owned by a registered API_KEY
  -- scheme.
  pub drop_auth-IsValid :
      (name : Text) (s : AuthState)
      → IsValid strings s
      → IsValid strings (drop_auth strings name s).1
  unfolding drop_auth
  drop_auth-IsValid name s v = elim (Option-cases (find (scheme strings name) s.auths)) [
    | inl missing ↦ rw (missing, drop_auth) v
    | inr (dropped, found) ↦
        rw (found, drop_auth)
          (record {
            schemes =
                remove-Distinct ci_equals scheme_name ci_equals_equiv (scheme strings name) s.auths
                  v.schemes;
            keys =
                all-remove_if (owned strings s.auths)
                  (owned strings (remove (scheme strings name) s.auths))
                  (key_of_scheme strings dropped.name)
                  (owned-remove strings name dropped s.auths found v.schemes) s.api_keys v.keys;
          })
  ]

  -- GetAuth after DropAuth, where scheme names are distinct.
  pub get-drop_auth :
      (name k : Text) (s : AuthState)
      → IsValid strings s
      → get_auth strings k (drop_auth strings name s).1
        ≡ (if ci_equals name k then none else get_auth strings k s)
  unfolding drop_auth
  get-drop_auth name k s v = elim (Option-cases (find (scheme strings name) s.auths)) [
    | inl missing ↦
        rw (missing, drop_auth)
          (get-absent ci_equals scheme_name ci_equals_equiv name k s.auths
            (find-none _ s.auths missing))
    | inr (dropped, found) ↦
        rw (found, drop_auth)
          (get-remove ci_equals scheme_name ci_equals_equiv name k s.auths v.schemes)
  ]

  unowned :
      (name : Text) (auths : List Auth) (e : ApiKeyEntry)
      → kind_fits (get_scheme strings name auths) ≡ false
      → owned strings auths e ≡ true
      → key_of_scheme strings name e ≡ true
      → ⊥
  unowned name auths e h o same =
      let e_found = get-same ci_equals scheme_name ci_equals_equiv e.auth_name name auths same in
      cc (o, sym (ap kind_fits e_found) ∙ o, h)

  snapshot-owned :
      (name : Text) (auths : List Auth) (keys : List ApiKeyEntry)
      → kind_fits (get_scheme strings name auths) ≡ false
      → all (owned strings auths) keys ≡ true
      → snapshot_api_keys strings name keys ≡ []
  unfolding snapshot_api_keys
  snapshot-owned name auths [] h k = refl
  snapshot-owned name auths (e ∷ rest) h k = elim (Bool-cases (key_of_scheme strings name e)) [
    | inl same ↦ absurd (unowned name auths e h (ground arith) same)
    | inr other ↦ rw other (snapshot-owned name auths rest h (ground arith))
  ]

  -- In a valid state, where no API_KEY scheme is registered under a name, there are no keys for
  -- that name.
  pub snapshot_api_keys-eq_nil :
      (name : Text) (s : AuthState)
      → IsValid strings s
      → kind_fits (get_auth strings name s) ≡ false
      → snapshot_api_keys strings name s.api_keys ≡ []
  snapshot_api_keys-eq_nil name s v h = snapshot-owned name s.auths s.api_keys h v.keys

  module _ (mbedtls : Mbedtls) where
    put_key-owned :
        (auths : List Auth) (entry : ApiKeyEntry) (keys : List ApiKeyEntry)
        → owned strings auths entry ≡ true
        → all (owned strings auths) keys ≡ true
        → all (owned strings auths) (put_key strings mbedtls entry keys) ≡ true
    unfolding put_key
    put_key-owned auths entry [] o h = ground arith
    put_key-owned auths entry (existing ∷ rest) o h =
        elim (Bool-cases (same_key strings mbedtls entry existing)) [
          | inl same ↦ rw same (ground arith)
          | inr other ↦ rw other (ground (arith, put_key-owned auths entry rest o))
        ]

    -- The entry that AddApiKey makes, for a scheme that it found.
    abbrev pub new_key : Auth → Text → Text → ApiKeyEntry
    new_key auth raw_key subject = record {
      auth_name = auth.name;
      key_hash = mbedtls.sha256 raw_key;
      subject = subject;
    }

    pub new_key-owned :
        (auth_name raw_key subject : Text) (auth : Auth) (auths : List Auth)
        → get_scheme strings auth_name auths ≡ some auth
        → is_api_key auth.kind ≡ true
        → owned strings auths (new_key auth raw_key subject) ≡ true
    new_key-owned auth_name raw_key subject auth auths found takes =
        let same = find_passes (named ci_equals scheme_name auth_name) auths found in
        rw (get-same ci_equals scheme_name ci_equals_equiv auth.name auth_name auths same, found)
          takes

    -- AddApiKey, whether it throws or not, keeps scheme names distinct up to case and every key
    -- owned by a registered API_KEY scheme.
    pub add_api_key-IsValid :
        (auth_name raw_key subject : Text) (s : AuthState)
        → IsValid strings s
        → IsValid strings (add_api_key strings mbedtls auth_name raw_key subject s).1
    unfolding add_api_key
    add_api_key-IsValid auth_name [] subject s v = v
    add_api_key-IsValid auth_name (c ∷ raw) [] s v = v
    add_api_key-IsValid auth_name (c ∷ raw) (d ∷ sub) s v =
        elim (Option-cases (find (scheme strings auth_name) s.auths)) [
          | inl missing ↦ rw (missing, add_api_key) v
          | inr (auth, found) ↦ elim (Bool-cases (is_api_key auth.kind)) [
            | inl takes ↦
                rw (found, add_api_key)
                  (rw takes (record {
                    schemes = v.schemes;
                    keys =
                        put_key-owned s.auths (new_key auth (c ∷ raw) (d ∷ sub)) s.api_keys
                          (new_key-owned auth_name (c ∷ raw) (d ∷ sub) auth s.auths found takes)
                          v.keys;
                  }))
            | inr refuses ↦ rw (found, add_api_key) (rw refuses v)
          ]
        ]
