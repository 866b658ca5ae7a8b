-- ===== src/Registry/Auths.antt =====
-- Authentication schemes and API keys: AddAuth, DropAuth, GetAuth, AddApiKey and SnapshotApiKeys, one
-- mutex over both vectors. A key is stored by its digest.
pub mod Keys
pub mod Laws
use quackapi.Base.{
  Bool, true, false, not, ◌&&◌, List, [], ◌∷◌, ◌++◌, Option, none, some, Result, ok, err,
  if◌then◌else◌, any, find, replace, remove, remove_if, map, ◌≡◌, ◌↔◌,
}
use quackapi.Text.{Text, text_eq, empty}
use quackapi.Strings.{StringUtil}
use quackapi.Crypto.{Mbedtls, constant_time_equals}
use quackapi.Types.{AuthKind, api_key, jwt_hs256, Auth, ApiKeyEntry}
use quackapi.Registry.{
  Error, auth_exists, auth_missing, auth_not_api_key, raw_key_empty, subject_empty, Outcome,
}

pub record AuthState : Type 0 where
  pub auths : List Auth
  pub api_keys : List ApiKeyEntry

abbrev pub is_api_key : AuthKind → Bool
is_api_key api_key = true
is_api_key jwt_hs256 = false

module _ (strings : StringUtil) where
  abbrev pub scheme : Text → Auth → Bool
  scheme name it = strings.ci_equals it.name name

  abbrev pub key_of_scheme : Text → ApiKeyEntry → Bool
  key_of_scheme name e = strings.ci_equals e.auth_name name

  -- A key of the scheme `old` takes the new spelling of its name.
  abbrev pub rename_key : Text → Text → ApiKeyEntry → ApiKeyEntry
  rename_key old name entry =
      if key_of_scheme old entry then record entry { auth_name = name } else entry

  -- The keys when the scheme `old` is replaced by `auth`.
  abbrev pub keys_after_replace : Auth → Auth → List ApiKeyEntry → List ApiKeyEntry
  keys_after_replace old auth keys =
      if is_api_key old.kind && not (is_api_key auth.kind)
      then remove_if (key_of_scheme old.name) keys
      else if not (text_eq old.name auth.name)
      then map (rename_key old.name auth.name) keys
      else keys

  unfoldable pub add_auth : Auth → Bool → AuthState → Outcome AuthState (Unit {0})
  add_auth auth or_replace s = elim (find (scheme auth.name) s.auths) [
    | none ↦ (ok tt, record s { auths = s.auths ++ auth ∷ [] })
    | some old ↦
        if or_replace
        then (
          ok tt,
          record s {
            auths = replace (scheme auth.name) auth s.auths;
            api_keys = keys_after_replace old auth s.api_keys;
          },
        )
        else (err (auth_exists auth.name), s)
  ]

  unfoldable pub drop_auth : Text → AuthState → Bool × AuthState
  drop_auth name s = elim (find (scheme name) s.auths) [
    | none ↦ (false, s)
    | some dropped ↦ (
      true,
      record s {
        auths = remove (scheme name) s.auths;
        api_keys = remove_if (key_of_scheme dropped.name) s.api_keys;
      },
    )
  ]

  abbrev pub get_auth : Text → AuthState → Option Auth
  get_auth name s = find (scheme name) s.auths

  -- SnapshotApiKeys: the loop that copies the keys of a scheme.
  unfoldable pub snapshot_api_keys : Text → List ApiKeyEntry → List ApiKeyEntry
  snapshot_api_keys name [] = []
  snapshot_api_keys name (entry ∷ rest) =
      let later = snapshot_api_keys name rest in
      if key_of_scheme name entry then entry ∷ later else later

  module _ (mbedtls : Mbedtls) where
    abbrev pub same_key : ApiKeyEntry → ApiKeyEntry → Bool
    same_key entry existing =
        strings.ci_equals existing.auth_name entry.auth_name
        && constant_time_equals mbedtls existing.key_hash entry.key_hash

    -- The same raw key added again changes the subject of the entry that is there.
    unfoldable pub put_key : ApiKeyEntry → List ApiKeyEntry → List ApiKeyEntry
    put_key entry [] = entry ∷ []
    put_key entry (existing ∷ rest) =
        if same_key entry existing
        then record existing { subject = entry.subject; auth_name = entry.auth_name } ∷ rest
        else existing ∷ put_key entry rest

    unfoldable pub add_api_key : Text → Text → Text → AuthState → Outcome AuthState Text
    add_api_key auth_name raw_key subject s =
        if empty raw_key
        then (err raw_key_empty, s)
        else if empty subject
        then (err subject_empty, s)
        else elim (find (scheme auth_name) s.auths) [
          | none ↦ (err (auth_missing auth_name), s)
          | some auth ↦
              if is_api_key auth.kind
              then (
                ok subject,
                record s {
                  api_keys =
                      put_key
                        (record {
                          auth_name = auth.name;
                          key_hash = mbedtls.sha256 raw_key;
                          subject = subject;
                        })
                        s.api_keys;
                },
              )
              else (err (auth_not_api_key auth_name), s)
        ]
