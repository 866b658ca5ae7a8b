-- ===== src/RateLimit.antt =====
-- The rate limiter of src/quackapi_server.cpp: QuackapiState::AllowRateLimit and ClearRouteRateLimit
-- over the table of counters. Time is a count of steady-clock nanoseconds, read once for each call.
pub mod Keys
pub mod Table
pub mod Quota
use quackapi.Base.{
  ℕ, ◌+◌, ◌-◌, ◌*◌, ◌/◌, max, Bool, true, false, List, [], ◌∷◌, ◌++◌, Option, none, some, leb,
  length, if◌then◌else◌, find, remove_if, any,
}
use quackapi.Text.{Text, codes, text_eq, to_string}
use quackapi.Strings.{StringUtil}

pub record RateLimitEntry : Type 0 where
  pub count : ℕ
  pub expires : ℕ

-- `rate_limit_entries`
abbrev pub Entries : Type 0
Entries = List (Text × RateLimitEntry)

-- std::chrono::seconds(n) in clock ticks
abbrev pub seconds : ℕ → ℕ
seconds n = n * 1000000000

abbrev pub max_entries : ℕ
max_entries = 100000

-- The key of a client's counter on a route, and the part of it that names the route.
unfoldable pub route_prefix : Text → Text
route_prefix route = to_string (length route) ++ (b':' ∷ (route ++ b'|' ∷ []))

unfoldable pub rate_key : Text → Text → Text
unfolding route_prefix
rate_key route client = to_string (length route) ++ (b':' ∷ (route ++ b'|' ∷ client))

-- `find(key)` of the map
unfoldable pub lookup : Text → Entries → Option RateLimitEntry
lookup k [] = none
lookup k ((j, e) ∷ m) = if text_eq j k then some e else lookup k m

-- A write through the iterator of an entry that is there.
unfoldable pub store : Text → RateLimitEntry → Entries → Entries
store k v [] = []
store k v ((j, e) ∷ m) = if text_eq j k then (j, v) ∷ m else (j, e) ∷ store k v m

-- The loop that erases what has expired.
unfoldable pub purge : ℕ → Entries → Entries
purge now [] = []
purge now ((j, e) ∷ m) = let rest = purge now m in if leb e.expires now then rest else (j, e) ∷ rest

pub record Verdict : Type 0 where
  pub allowed : Bool
  pub retry_after_sec : ℕ
  pub entries : Entries

abbrev pub fresh_entry : ℕ → ℕ → RateLimitEntry
fresh_entry now per_sec = record { count = 0; expires = now + seconds per_sec }

-- A counter whose window is over starts again.
unfoldable pub renew : ℕ → ℕ → RateLimitEntry → RateLimitEntry
renew now per_sec found = if leb found.expires now then fresh_entry now per_sec else found

abbrev pub retry_after : ℕ → RateLimitEntry → ℕ
retry_after now entry = max 1 ((entry.expires - now) / seconds 1 + 1)

abbrev pub counted : RateLimitEntry → RateLimitEntry
counted entry = record entry { count = entry.count + 1 }

-- From `retry_after_sec =` on.
unfoldable pub charge : ℕ → Text → ℕ → RateLimitEntry → Entries → Verdict
charge now key limit entry m =
    if leb limit entry.count
    then record {
      allowed = false;
      retry_after_sec = retry_after now entry;
      entries = store key entry m;
    }
    else record {
      allowed = true;
      retry_after_sec = retry_after now entry;
      entries = store key (counted entry) m;
    }

-- From `auto &entry = found->second` on.
abbrev pub count_call : ℕ → Text → ℕ → ℕ → RateLimitEntry → Entries → Verdict
count_call now key limit per_sec found m = charge now key limit (renew now per_sec found) m

-- What is left of the table where a new counter is wanted.
abbrev pub make_room : ℕ → Entries → Entries
make_room now m = if leb max_entries (length m) then purge now m else m

unfoldable pub allow_rate_limit : ℕ → Text → Text → ℕ → ℕ → Entries → Verdict
allow_rate_limit now route client limit per_sec m =
    let key : Text = rate_key route client in
    elim (lookup key m) [
      | some found ↦ count_call now key limit per_sec found m
      | none ↦
          let room : Entries = make_room now m in
          let fresh : RateLimitEntry = fresh_entry now per_sec in
          if leb max_entries (length room)
          then record { allowed = false; retry_after_sec = max 1 per_sec; entries = room }
          else count_call now key limit per_sec fresh (room ++ (key, fresh) ∷ [])
    ]

module _ (strings : StringUtil) where
  unfoldable pub clear_route_rate_limit : Text → Entries → Entries
  clear_route_rate_limit route m = remove_if (λ e. strings.starts_with e.0 (route_prefix route)) m
