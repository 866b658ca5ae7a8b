-- ===== src/RateLimit/Quota.antt =====
-- How many calls of one client on one route are let through while its window lasts.
use quackapi.Base.{
  ℕ, ◌+◌, ◌≤◌, ◌<◌, true, false, List, [], ◌∷◌, ◌++◌, none, some, ◌≡◌, arith, length, leb,
  if◌then◌else◌, ◌&&◌, Bool-cases, Option-cases, inl, inr, ◌∙◌,
}
use quackapi.Text.{Text, text_eq}
use quackapi.Text.Laws.{text_eq_iff, text_eq_refl}
use quackapi.RateLimit.{
  RateLimitEntry, Entries, Verdict, max_entries, lookup, make_room, charge, counted, renew,
  fresh_entry, rate_key, allow_rate_limit,
}
use quackapi.RateLimit.Table.{
  lookup-store, lookup-append, lookup-purge, lookup-purge-none, allow_known, allow_full,
  allow_fresh,
}

-- One call of AllowRateLimit, with the time that it reads.
pub record Call : Type 0 where
  pub now : ℕ
  pub route : Text
  pub client : Text
  pub limit : ℕ
  pub per_sec : ℕ

abbrev pub key_of : Call → Text
key_of c = rate_key c.route c.client

abbrev pub answer : Call → Entries → Verdict
answer c m = allow_rate_limit c.now c.route c.client c.limit c.per_sec m

-- How many of the calls under `key` are allowed, in the order in which they take the mutex.
unfoldable pub allowed_calls : Text → List Call → Entries → ℕ
allowed_calls key [] m = 0
allowed_calls key (c ∷ cs) m =
    let v : Verdict = answer c m in
    (if text_eq (key_of c) key && v.allowed then 1 else 0) + allowed_calls key cs v.entries

-- Every call under `key` has this limit, and every call comes before `expires`.
abbrev pub Within : Text → ℕ → ℕ → List Call → Type 0
Within key limit expires [] = Unit
Within key limit expires (c ∷ cs) =
    (c.now < expires)
    × (text_eq (key_of c) key ≡ true → c.limit ≡ limit)
    × Within key limit expires cs

charge-lookup :
    (now : ℕ) (k : Text) (limit : ℕ) (e w : RateLimitEntry) (j : Text) (m : Entries)
    → lookup k m ≡ some w
    → lookup j (charge now k limit e m).entries
      ≡ (if text_eq k j then some (if leb limit e.count then e else counted e) else lookup j m)
unfolding charge
charge-lookup now k limit e w j m h = elim (Bool-cases (leb limit e.count)) [
  | inl t ↦ rw t (lookup-store j k e w m h)
  | inr t ↦ rw t (lookup-store j k (counted e) w m h)
]

charge-allowed :
    (now : ℕ) (k : Text) (limit : ℕ) (e : RateLimitEntry) (m : Entries)
    → (charge now k limit e m).allowed ≡ (if leb limit e.count then false else true)
unfolding charge
charge-allowed now k limit e m = elim (Bool-cases (leb limit e.count)) [
  | inl t ↦ rw t
  | inr t ↦ rw t
]

renew_live : (now per_sec : ℕ) (e : RateLimitEntry) → now < e.expires → renew now per_sec e ≡ e
unfolding renew
renew_live now per_sec e h = ground arith

make_room-lookup :
    (now : ℕ) (k : Text) (e : RateLimitEntry) (m : Entries)
    → lookup k m ≡ some e
    → now < e.expires
    → lookup k (make_room now m) ≡ some e
make_room-lookup now k e m h live = ground (arith, lookup-purge now k e m)

make_room-lookup-none :
    (now : ℕ) (k : Text) (m : Entries) → lookup k m ≡ none → lookup k (make_room now m) ≡ none
make_room-lookup-none now k m h = ground (arith, lookup-purge-none now k m)

-- A call under another key leaves a live counter as it is.
other_call :
    (key : Text) (e : RateLimitEntry) (c : Call) (m : Entries)
    → lookup key m ≡ some e
    → c.now < e.expires
    → text_eq (key_of c) key ≡ false
    → lookup key (answer c m).entries ≡ some e
other_call key e c m h live different = elim (Option-cases (lookup (key_of c) m)) [
  | inr (f, found) ↦ rw (allow_known c.now c.route c.client c.limit c.per_sec m f found) (
      charge-lookup c.now (key_of c) c.limit (renew c.now c.per_sec f) f key m found
      ∙ rw different h)
  | inl missing ↦ elim (Bool-cases (leb max_entries (length (make_room c.now m)))) [
    | inl full ↦
        rw (allow_full c.now c.route c.client c.limit c.per_sec m missing full)
          (make_room-lookup c.now key e m h live)
    | inr space ↦
        let fresh = fresh_entry c.now c.per_sec in
        let room = make_room c.now m in
        let none_left = make_room-lookup-none c.now (key_of c) m missing in
        rw (allow_fresh c.now c.route c.client c.limit c.per_sec m missing space) (
          charge-lookup c.now (key_of c) c.limit (renew c.now c.per_sec fresh) fresh key
            (room ++ (key_of c, fresh) ∷ [])
            (lookup-append (key_of c) (key_of c) fresh room none_left ∙ rw text_eq_refl)
          ∙ rw different (
              lookup-append key (key_of c) fresh room none_left
              ∙ rw different (make_room-lookup c.now key e m h live)))
  ]
]

-- A call under a live counter's own key.
own_call :
    (key : Text) (e : RateLimitEntry) (c : Call) (m : Entries)
    → lookup key m ≡ some e
    → c.now < e.expires
    → text_eq (key_of c) key ≡ true
    → answer c m ≡ charge c.now (key_of c) c.limit e m
own_call key e c m h live same =
    let found : lookup (key_of c) m ≡ some e = rw ((text_eq_iff (key_of c) key).0 same) h in
    allow_known c.now c.route c.client c.limit c.per_sec m e found
    ∙ rw (renew_live c.now c.per_sec e live)

-- The counter after such a call, and whether the call is let through.
own_call-lookup :
    (key : Text) (e : RateLimitEntry) (c : Call) (m : Entries)
    → lookup key m ≡ some e
    → c.now < e.expires
    → text_eq (key_of c) key ≡ true
    → lookup key (answer c m).entries ≡ some (if leb c.limit e.count then e else counted e)
own_call-lookup key e c m h live same =
    let found : lookup (key_of c) m ≡ some e = rw ((text_eq_iff (key_of c) key).0 same) h in
    rw (own_call key e c m h live same)
      (charge-lookup c.now (key_of c) c.limit e e key m found ∙ rw same)

own_call-allowed :
    (key : Text) (e : RateLimitEntry) (c : Call) (m : Entries)
    → lookup key m ≡ some e
    → c.now < e.expires
    → text_eq (key_of c) key ≡ true
    → (answer c m).allowed ≡ (if leb c.limit e.count then false else true)
own_call-allowed key e c m h live same =
    rw (own_call key e c m h live same) (charge-allowed c.now (key_of c) c.limit e m)

-- For a counter that is in the table with no more calls counted than a limit, and calls that all
-- come before it expires, where each call under its key has that limit: the calls counted and the
-- calls under its key that are then allowed are together at most the limit, whatever calls of other
-- keys come between them.
pub allowed_calls_bound :
    (key : Text) (limit : ℕ) (e : RateLimitEntry) (cs : List Call) (m : Entries)
    → lookup key m ≡ some e
    → e.count ≤ limit
    → Within key limit e.expires cs
    → e.count + allowed_calls key cs m ≤ limit
unfolding allowed_calls
allowed_calls_bound key limit e [] m h room _ = omega arith
allowed_calls_bound key limit e (c ∷ cs) m h room (live, same_limit, w) =
    let m' = (answer c m).entries in
    elim (Bool-cases (text_eq (key_of c) key)) [
      | inr different ↦ rw different (
          omega (
            arith,
            allowed_calls_bound key limit e cs m' (other_call key e c m h live different) room w,
          ))
      | inl same ↦
          let after = own_call-lookup key e c m h live same in
          let verdict = own_call-allowed key e c m h live same in
          elim (Bool-cases (leb c.limit e.count)) [
            | inl full ↦
                rw (same, verdict, full)
                  (omega (arith, allowed_calls_bound key limit e cs m' (rw full at after) room w))
            | inr free ↦
                rw (same, verdict, free)
                  (omega (
                    arith,
                    allowed_calls_bound key limit (counted e) cs m' (rw free at after)
                        (ground (arith, same_limit same)) w,
                  ))
          ]
    ]
