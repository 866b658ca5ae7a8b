-- ===== src/RateLimit/Table.antt =====
-- The table of counters as a map from keys, and its bound.
use quackapi.Base.{
  ℕ, max, ◌≤◌, ◌<◌, true, false, [], ◌∷◌, ◌++◌, none, some, ◌≡◌, refl, arith, length, leb,
  if◌then◌else◌, Bool-cases, Option-cases, inl, inr, length-append,
}
use quackapi.Text.{Text, text_eq}
use quackapi.Text.Laws.{text_eq_iff}
use quackapi.Strings.{StringUtil}
use quackapi.RateLimit.{
  count_call, RateLimitEntry, Entries, max_entries, lookup, store, purge, make_room, charge,
  counted, renew, fresh_entry, rate_key, allow_rate_limit, clear_route_rate_limit,
}
use quackapi.RateLimit.Keys.{starts_with-rate_key_iff}

pub lookup-store :
    (j k : Text) (v w : RateLimitEntry) (m : Entries)
    → lookup k m ≡ some w
    → lookup j (store k v m) ≡ (if text_eq k j then some v else lookup j m)
unfolding lookup store
lookup-store j k v w [] h = cc
lookup-store j k v w ((i, e) ∷ m) h =
    ground (arith, text_eq_iff i k, text_eq_iff i j, text_eq_iff k j, lookup-store j k v w m)

pub lookup-append :
    (j k : Text) (v : RateLimitEntry) (m : Entries)
    → lookup k m ≡ none
    → lookup j (m ++ (k, v) ∷ []) ≡ (if text_eq k j then some v else lookup j m)
unfolding lookup
lookup-append j k v [] h = refl
lookup-append j k v ((i, e) ∷ m) h =
    ground (arith, text_eq_iff i k, text_eq_iff i j, text_eq_iff k j, lookup-append j k v m)

-- A live counter survives the purge.
pub lookup-purge :
    (now : ℕ) (k : Text) (e : RateLimitEntry) (m : Entries)
    → lookup k m ≡ some e
    → now < e.expires
    → lookup k (purge now m) ≡ some e
unfolding lookup purge
lookup-purge now k e [] h live = cc
lookup-purge now k e ((i, f) ∷ m) h live = elim (Bool-cases (text_eq i k)) [
  | inl t ↦ ground (arith, lookup-purge now k e m)
  | inr t ↦ ground (arith, lookup-purge now k e m)
]

pub lookup-purge-none :
    (now : ℕ) (k : Text) (m : Entries) → lookup k m ≡ none → lookup k (purge now m) ≡ none
unfolding lookup purge
lookup-purge-none now k [] h = refl
lookup-purge-none now k ((i, f) ∷ m) h = ground (arith, lookup-purge-none now k m)

length-store : (k : Text) (v : RateLimitEntry) (m : Entries) → length (store k v m) ≡ length m
unfolding store
length-store k v [] = refl
length-store k v ((i, e) ∷ m) = ground (arith, length-store k v m)

length-purge : (now : ℕ) (m : Entries) → length (purge now m) ≤ length m
unfolding purge
length-purge now [] = omega arith
length-purge now ((i, e) ∷ m) = ground (arith, length-purge now m)

length-charge :
    (now : ℕ) (key : Text) (limit : ℕ) (e : RateLimitEntry) (m : Entries)
    → length (charge now key limit e m).entries ≡ length m
unfolding charge
length-charge now key limit e m = elim (Bool-cases (leb limit e.count)) [
  | inl t ↦ rw t (length-store key e m)
  | inr t ↦ rw t (length-store key (counted e) m)
]

length-make_room : (now : ℕ) (m : Entries) → length (make_room now m) ≤ length m
length-make_room now m = ground (arith, length-purge now m)

ltb_of_leb : (a b : ℕ) → leb a b ≡ false → b < a
ltb_of_leb a b h = ground arith

-- The three ways of a call.
module _ (now : ℕ) (route client : Text) (limit per_sec : ℕ) (m : Entries) where
  abbrev pub admitted : Entries
  admitted = make_room now m ++ (rate_key route client, fresh_entry now per_sec) ∷ []

  pub allow_known :
      (e : RateLimitEntry)
      → lookup (rate_key route client) m ≡ some e
      → allow_rate_limit now route client limit per_sec m
        ≡ count_call now (rate_key route client) limit per_sec e m
  unfolding allow_rate_limit
  allow_known e found = rw (found, allow_rate_limit)

  pub allow_full :
      lookup (rate_key route client) m ≡ none
      → leb max_entries (length (make_room now m)) ≡ true
      → allow_rate_limit now route client limit per_sec m
        ≡ record { allowed = false; retry_after_sec = max 1 per_sec; entries = make_room now m }
  unfolding allow_rate_limit
  allow_full missing full = rw (missing, allow_rate_limit) (rw full)

  pub allow_fresh :
      lookup (rate_key route client) m ≡ none
      → leb max_entries (length (make_room now m)) ≡ false
      → allow_rate_limit now route client limit per_sec m
        ≡ count_call now (rate_key route client) limit per_sec (fresh_entry now per_sec) admitted
  unfolding allow_rate_limit
  allow_fresh missing space = rw (missing, allow_rate_limit) (rw space)

-- AllowRateLimit leaves at most 100000 entries in a table that has at most that many.
pub allow_rate_limit-length :
    (now : ℕ) (route client : Text) (limit per_sec : ℕ) (m : Entries)
    → length m ≤ max_entries
    → length (allow_rate_limit now route client limit per_sec m).entries ≤ max_entries
allow_rate_limit-length now route client limit per_sec m h =
    let key = rate_key route client in
    elim (Option-cases (lookup key m)) [
      | inr (e, found) ↦
          rw (allow_known now route client limit per_sec m e found)
            (omega (arith, length-charge now key limit (renew now per_sec e) m))
      | inl missing ↦ elim (Bool-cases (leb max_entries (length (make_room now m)))) [
        | inl full ↦
            rw (allow_full now route client limit per_sec m missing full)
              (omega (arith, length-make_room now m))
        | inr space ↦ rw (allow_fresh now route client limit per_sec m missing space) (
            omega (
              arith,
              length-charge now key limit (renew now per_sec (fresh_entry now per_sec))
                  (admitted now route client limit per_sec m),
              length-append (make_room now m) ((key, fresh_entry now per_sec) ∷ []),
              ltb_of_leb max_entries (length (make_room now m)) space,
            ))
      ]
    ]

module _ (strings : StringUtil) where
  -- After ClearRouteRateLimit of a route, a counter of that route is not found, and a counter of
  -- any other route is found as before.
  pub lookup-clear_route_rate_limit :
      (route other client : Text) (m : Entries)
      → lookup (rate_key other client) (clear_route_rate_limit strings route m)
        ≡ (if text_eq other route then none else lookup (rate_key other client) m)
  unfolding lookup clear_route_rate_limit
  lookup-clear_route_rate_limit route other client [] = ground arith
  lookup-clear_route_rate_limit route other client ((k, e) ∷ m) =
      elim (Bool-cases (text_eq k (rate_key other client))) [
        | inl same ↦ ground (
          arith,
          text_eq_iff k (rate_key other client),
          text_eq_iff other route,
          starts_with-rate_key_iff strings route other client,
          lookup-clear_route_rate_limit route other client m,
        )
        | inr different ↦ ground (arith, lookup-clear_route_rate_limit route other client m)
      ]
