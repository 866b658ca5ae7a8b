-- ===== src/HttpFetch/Hosts.antt =====
-- The bounds of the connection pool: PoolHost, and a change at one host.
use quackapi.Base.{
  ℕ, suc, ◌+◌, ◌≤◌, ◌<◌, ltb, leb, Bool, true, ◌&&◌, [], ◌∷◌, some, any, all, remove, remove_if,
  all-remove, all-remove_if, all-append, length, length-append, ◌≡◌, refl, sym, ◌∙◌, subst, arith,
  Bool-cases, eq_of_some, inl, inr,
}
use quackapi.Text.{Text}
use quackapi.Text.Laws.{text_eq_refl}
use quackapi.HttpFetch.{
  HostPool, Hosts, max_idle_per_host, max_idle_total, max_pool_hosts, at, expired, older,
  oldest_from, erase_oldest, alter, new_host, found_or_new, make_room, pool_host, idle_clients,
  total_idle_clients, host_at,
}
use quackapi.HttpFetch.Sums.{total-alter, total-pool_host}

abbrev pub fits : Text × HostPool → Bool
fits (key, host) =
    leb (length host.plain_idle) max_idle_per_host && leb (length host.util_idle) max_idle_per_host

-- At most 256 hosts, 64 idle clients of each kind for each of them, and 256 in all.
pub record IsValid (hosts : Hosts) : Type 0 where
  pub few_hosts : length hosts ≤ max_pool_hosts
  pub few_idle : total_idle_clients hosts ≤ max_idle_total
  pub few_each : all fits hosts ≡ true

any-older :
    (p : Text × HostPool → Bool) (entry next : Text × HostPool) (hosts : Hosts)
    → any p (older entry next ∷ hosts) ≡ true
    → any p (entry ∷ next ∷ hosts) ≡ true
any-older p entry next hosts h = elim (Bool-cases (ltb next.1.last_used entry.1.last_used)) [
  | inl newer ↦ let h' = rw newer at h in ground arith
  | inr other ↦ let h' = rw other at h in ground arith
]

any-oldest_from :
    (entry : Text × HostPool) (hosts : Hosts)
    → any (at (oldest_from entry hosts).0) (entry ∷ hosts) ≡ true
unfolding oldest_from
any-oldest_from entry [] = ground (arith, text_eq_refl entry.0)
any-oldest_from entry (next ∷ hosts) =
    any-older (at (oldest_from (older entry next) hosts).0) entry next hosts
      (any-oldest_from (older entry next) hosts)

length-remove_there :
    (p : Text × HostPool → Bool) (hosts : Hosts)
    → any p hosts ≡ true
    → suc (length (remove p hosts)) ≡ length hosts
length-remove_there p [] h = cc
length-remove_there p (entry ∷ hosts) h = ground (arith, length-remove_there p hosts)

length-remove_if :
    (p : Text × HostPool → Bool) (hosts : Hosts) → length (remove_if p hosts) ≤ length hosts
length-remove_if p [] = omega arith
length-remove_if p (entry ∷ hosts) = ground (arith, length-remove_if p hosts)

length-alter :
    (key : Text) (change : HostPool → HostPool) (hosts : Hosts)
    → length (alter key change hosts) ≡ length hosts
unfolding alter
length-alter key change [] = refl
length-alter key change (entry ∷ hosts) = ground (arith, length-alter key change hosts)

length-erase_oldest :
    (hosts : Hosts) → 0 < length hosts → suc (length (erase_oldest hosts)) ≡ length hosts
unfolding erase_oldest
length-erase_oldest [] h = absurd (omega arith)
length-erase_oldest (entry ∷ hosts) h =
    length-remove_there (at (oldest_from entry hosts).0) (entry ∷ hosts)
      (any-oldest_from entry hosts)

length-found_or_new :
    (key : Text) (now : ℕ) (hosts : Hosts) → length (found_or_new key now hosts) ≤ length hosts + 1
length-found_or_new key now hosts = elim (Bool-cases (any (at key) hosts)) [
  | inl there ↦ rw there (omega arith)
  | inr missing ↦ rw missing (omega (arith, length-append hosts ((key, new_host now) ∷ [])))
]

-- Where the key is not there, there is room for it.
length-make_room :
    (key : Text) (now : ℕ) (hosts : Hosts)
    → length hosts ≤ max_pool_hosts
    → length (found_or_new key now (make_room key hosts)) ≤ max_pool_hosts
length-make_room key now hosts h = elim (Bool-cases (any (at key) hosts)) [
  | inl there ↦ rw (there, there) h
  | inr missing ↦ elim (Bool-cases (leb max_pool_hosts (length hosts))) [
    | inl full ↦
        rw (missing, full)
          (omega (
            arith,
            length-found_or_new key now (erase_oldest hosts),
            length-erase_oldest hosts (ground arith),
          ))
    | inr room ↦ rw (missing, room) (ground (arith, length-found_or_new key now hosts))
  ]
]

all-alter :
    (key : Text) (change : HostPool → HostPool) (hosts : Hosts)
    → ((k : Text) (host : HostPool)
        → host_at key hosts ≡ some host
        → fits (k, host) ≡ true
        → fits (k, change host) ≡ true)
    → all fits hosts ≡ true
    → all fits (alter key change hosts) ≡ true
unfolding alter
all-alter key change [] keeps h = refl
all-alter key change ((k, x) ∷ hosts) keeps h = elim (Bool-cases (at key (k, x))) [
  | inl here ↦ rw here (ground (arith, keeps k x (rw here refl)))
  | inr there ↦
      rw there
        (ground (arith, all-alter key change hosts (λ j host e f. keeps j host (rw there e) f)))
]

all-make_room :
    (key : Text) (hosts : Hosts) → all fits hosts ≡ true → all fits (make_room key hosts) ≡ true
unfolding erase_oldest
all-make_room key [] h = refl
all-make_room key (entry ∷ hosts) h =
    ground (arith, all-remove fits (at (oldest_from entry hosts).0) (entry ∷ hosts) h)

all-found_or_new :
    (key : Text) (now : ℕ) (hosts : Hosts)
    → all fits hosts ≡ true
    → all fits (found_or_new key now hosts) ≡ true
all-found_or_new key now hosts h = elim (Bool-cases (any (at key) hosts)) [
  | inl there ↦ rw there h
  | inr missing ↦ rw missing (all-append fits hosts ((key, new_host now) ∷ []) ∙ ground arith)
]

pub pool_host-IsValid :
    (key : Text) (now : ℕ) (hosts : Hosts) → IsValid hosts → IsValid (pool_host key now hosts)
unfolding pool_host total_idle_clients
pool_host-IsValid key now hosts v =
    let kept = remove_if (expired now) hosts in
    let touch = λ (host : HostPool). record host { last_used = now } in
    let few = length-remove_if (expired now) hosts in
    record {
      few_hosts =
          rw (length-alter key touch (found_or_new key now (make_room key kept)))
            (length-make_room key now kept (omega (arith, v.few_hosts)));
      few_idle =
          omega (arith, total-pool_host idle_clients key now hosts refl (λ host. refl), v.few_idle);
      few_each =
          all-alter key touch (found_or_new key now (make_room key kept)) (λ k host e f. f)
            (all-found_or_new key now (make_room key kept) (
              all-make_room key kept
                (all-remove_if fits fits (expired now) (λ x f _. f) hosts v.few_each)));
    }

-- A change at a host that keeps it within its bounds, and does not take the pool past its own.
pub alter-IsValid :
    (key : Text) (change : HostPool → HostPool) (hosts : Hosts) (host : HostPool)
    → host_at key hosts ≡ some host
    → ((k : Text) → fits (k, host) ≡ true → fits (k, change host) ≡ true)
    → total_idle_clients hosts + idle_clients (change host) ≤ max_idle_total + idle_clients host
    → IsValid hosts
    → IsValid (alter key change hosts)
unfolding total_idle_clients
alter-IsValid key change hosts host found keeps room v = record {
  few_hosts = rw (length-alter key change hosts) v.few_hosts;
  few_idle = omega (arith, total-alter idle_clients key change hosts host found);
  few_each =
      all-alter key change hosts
        (λ k other e f.
          let same : host ≡ other =
            eq_of_some {A = HostPool} {a = host} {b = other} (sym found ∙ e) in
          subst (λ x. fits (k, change x) ≡ true) same
            (keeps k (subst (λ x. fits (k, x) ≡ true) (sym same) f)))
        v.few_each;
}
