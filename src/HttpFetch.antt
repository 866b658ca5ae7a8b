-- ===== src/HttpFetch.antt =====
-- The connection pool of the outgoing HTTP client, src/quackapi_http_fetch.cpp: PoolHost, TotalIdleClients, and the two
-- sections under the lock of WithPlainClient and WithUtilClient. A client is a number, the clock an argument. The
-- order of `hosts` is that in which the map is walked.
pub mod Sums
pub mod Hosts
pub mod Laws
pub mod Exclusive
use quackapi.Base.{
  ℕ, suc, ◌+◌, ◌-◌, ltb, leb, Bool, true, false, not, ◌&&◌, ◌||◌, List, [], ◌∷◌, ◌++◌, Option, none,
  some, any, find, map, remove, remove_if, length, ◌==◌, if◌then◌else◌,
}
use quackapi.Text.{Text, text_eq}
use quackapi.Keyed.{named}

-- Clients of the vendored httplib, and those of DuckDB's HTTPUtil.
pub data Kind : Type 0 where
  plain util : Kind

pub record HostPool : Type 0 where
  pub plain_idle : List ℕ
  pub util_idle : List ℕ
  pub dialed : ℕ
  pub reused : ℕ
  pub last_used : ℕ

abbrev pub Hosts : Type 0
Hosts = List (Text × HostPool)

abbrev pub max_idle_per_host : ℕ
max_idle_per_host = 64

abbrev pub max_idle_total : ℕ
max_idle_total = 256

abbrev pub max_pool_hosts : ℕ
max_pool_hosts = 256

-- Five minutes, in milliseconds.
abbrev pub idle_pool_ttl : ℕ
idle_pool_ttl = 300000

abbrev pub at : Text → Text × HostPool → Bool
at = named text_eq (λ (entry : Text × HostPool). entry.0)

abbrev pub idle : Kind → HostPool → List ℕ
idle plain host = host.plain_idle
idle util host = host.util_idle

abbrev pub with_idle : Kind → List ℕ → HostPool → HostPool
with_idle plain clients host = record host { plain_idle = clients }
with_idle util clients host = record host { util_idle = clients }

abbrev pub expired : ℕ → Text × HostPool → Bool
expired now (key, host) = ltb idle_pool_ttl (now - host.last_used)

abbrev pub older : Text × HostPool → Text × HostPool → Text × HostPool
older oldest entry = if ltb entry.1.last_used oldest.1.last_used then entry else oldest

-- The entry that was used least recently, the first of several.
unfoldable pub oldest_from : Text × HostPool → Hosts → Text × HostPool
oldest_from oldest [] = oldest
oldest_from oldest (entry ∷ hosts) = oldest_from (older oldest entry) hosts

unfoldable pub erase_oldest : Hosts → Hosts
unfolding oldest_from text_eq
erase_oldest [] = []
erase_oldest (entry ∷ hosts) = remove (at (oldest_from entry hosts).0) (entry ∷ hosts)

-- An assignment through a reference to the host of a key.
unfoldable pub alter : Text → (HostPool → HostPool) → Hosts → Hosts
unfolding text_eq
alter key change [] = []
alter key change (entry ∷ hosts) =
    if at key entry then (entry.0, change entry.1) ∷ hosts else entry ∷ alter key change hosts

abbrev pub new_host : ℕ → HostPool
new_host now = record { plain_idle = []; util_idle = []; dialed = 0; reused = 0; last_used = now }

-- `pool.hosts[key]`
abbrev pub found_or_new : Text → ℕ → Hosts → Hosts
found_or_new key now hosts = if any (at key) hosts then hosts else hosts ++ (key, new_host now) ∷ []

abbrev pub make_room : Text → Hosts → Hosts
make_room key hosts =
    if not (any (at key) hosts) && leb max_pool_hosts (length hosts)
    then erase_oldest hosts
    else hosts

unfoldable pub pool_host : Text → ℕ → Hosts → Hosts
unfolding erase_oldest alter
pool_host key now hosts =
    alter key (λ host. record host { last_used = now })
      (found_or_new key now (make_room key (remove_if (expired now) hosts)))

abbrev pub idle_clients : HostPool → ℕ
idle_clients host = length host.plain_idle + length host.util_idle

-- A sum over the hosts.
abbrev pub total : (HostPool → ℕ) → Hosts → ℕ
total weight [] = 0
total weight ((key, host) ∷ hosts) = weight host + total weight hosts

unfoldable pub total_idle_clients : Hosts → ℕ
total_idle_clients = total idle_clients

abbrev pub host_at : Text → Hosts → Option HostPool
host_at key [] = none
host_at key (entry ∷ hosts) = if at key entry then some entry.1 else host_at key hosts

-- `back()` and `pop_back()`
unfoldable pub pop : List ℕ → Option (ℕ × List ℕ)
pop [] = none
pop (client ∷ clients) = elim (pop clients) [
  | none ↦ some (client, [])
  | some (last, rest) ↦ some (last, client ∷ rest)
]

abbrev pub reuse : Kind → List ℕ → HostPool → HostPool
reuse kind clients host = record (with_idle kind clients host) { reused = suc host.reused }

abbrev pub dial : HostPool → HostPool
dial host = record host { dialed = suc host.dialed }

-- The first section: a client of the pool, or none where one is to be dialed.
unfoldable pub acquire : Kind → Text → ℕ → Hosts → Option ℕ × Hosts
unfolding pool_host pop
acquire kind key now before =
    let hosts = pool_host key now before in
    elim (host_at key hosts) [
      | none ↦ (none, hosts)
      | some host ↦ elim (pop (idle kind host)) [
        | none ↦ (none, alter key dial hosts)
        | some (client, clients) ↦ (some client, alter key (reuse kind clients) hosts)
      ]
    ]

-- The second section, after a call that left the client healthy.
unfoldable pub release : Kind → Text → ℕ → ℕ → Hosts → Hosts
unfolding pool_host total_idle_clients
release kind key now client before =
    let hosts = pool_host key now before in
    elim (host_at key hosts) [
      | none ↦ hosts
      | some host ↦
          if ltb (length (idle kind host)) max_idle_per_host
            && ltb (total_idle_clients hosts) max_idle_total
          then alter key (with_idle kind (idle kind host ++ client ∷ [])) hosts
          else hosts
    ]

-- QuackapiHttpPoolStats
pub record PoolStats : Type 0 where
  pub host : Text
  pub idle : ℕ
  pub dialed : ℕ
  pub reused : ℕ

unfoldable pub pool_stats : Hosts → List PoolStats
pool_stats = map (λ (entry : Text × HostPool). record {
  host = entry.0;
  idle = idle_clients entry.1;
  dialed = entry.1.dialed;
  reused = entry.1.reused;
})

-- ResetPool: the clients are stopped or dropped.
unfoldable pub reset_pool : Hosts → Hosts
reset_pool hosts = []
