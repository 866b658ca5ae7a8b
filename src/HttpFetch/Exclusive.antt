-- ===== src/HttpFetch/Exclusive.antt =====
-- The calls of several threads as one sequence of sections under the pool's lock, and who has which client.
use quackapi.Base.{
  ℕ, suc, ◌+◌, ◌≤◌, ltb, Bool, true, ◌&&◌, List, [], ◌∷◌, ◌++◌, Option, none, some, any, count,
  count-append, remove, length, ◌==◌, ==_iff, if◌then◌else◌, ◌≡◌, refl, ap, ◌∙◌, arith, Bool-cases,
  Option-cases, inl, inr,
}
use quackapi.Text.{Text}
use quackapi.HttpFetch.{
  Kind, plain, util, HostPool, Hosts, max_idle_per_host, max_idle_total, idle, pool_host, total,
  total_idle_clients, host_at, pop, reuse, dial, acquire, release, reset_pool,
}
use quackapi.HttpFetch.Sums.{total-alter, total-pool_host}
use quackapi.HttpFetch.Hosts.{IsValid}
use quackapi.HttpFetch.Laws.{pop-some, putting, acquire-IsValid, release-IsValid}

-- The pool, the clients that calls have, and the number of the next one that is dialed.
pub record Traffic : Type 0 where
  pub hosts : Hosts
  pub out : List ℕ
  pub next : ℕ

-- A call takes a client, and later gives it back, healthy or not; and ResetPool.
pub data Step : Type 0 where
  start : Kind → Text → ℕ → Step
  finish : Kind → Text → ℕ → ℕ → Bool → Step
  reset : Step

abbrev pub start_call : Option ℕ × Hosts → Traffic → Traffic
start_call (none, hosts) s = record { hosts = hosts; out = s.next ∷ s.out; next = suc s.next }
start_call (some client, hosts) s = record s { hosts = hosts; out = client ∷ s.out }

-- Only a client that a call has is given back.
unfoldable pub step : Step → Traffic → Traffic
unfolding acquire release reset_pool
step (start kind key now) s = start_call (acquire kind key now s.hosts) s
step (finish kind key now client healthy) s =
    if any (λ c. c == client) s.out
    then record s {
      hosts = if healthy then release kind key now client s.hosts else s.hosts;
      out = remove (λ c. c == client) s.out;
    }
    else s
step reset s = record s { hosts = reset_pool s.hosts }

-- After the steps, the first of them the last in the list.
unfoldable pub after_steps : List Step → Traffic
unfolding step
after_steps [] = record { hosts = []; out = []; next = 0 }
after_steps (now ∷ earlier) = step now (after_steps earlier)

start_call-IsValid :
    (got : Option ℕ × Hosts) (s : Traffic) → IsValid got.1 → IsValid (start_call got s).hosts
start_call-IsValid (none, hosts) s v = v
start_call-IsValid (some client, hosts) s v = v

step-IsValid : (now : Step) (s : Traffic) → IsValid s.hosts → IsValid (step now s).hosts
unfolding step reset_pool total_idle_clients
step-IsValid (start kind key now) s v =
    start_call-IsValid (acquire kind key now s.hosts) s (acquire-IsValid kind key now s.hosts v)
step-IsValid (finish kind key now client healthy) s v =
    elim (Bool-cases (any (λ c. c == client) s.out)) [
      | inr other ↦ rw (other, step) v
      | inl has ↦ elim (Bool-cases healthy) [
        | inl good ↦ rw (has, good, step) (release-IsValid kind key now client s.hosts v)
        | inr broken ↦ rw (has, broken, step) v
      ]
    ]
step-IsValid reset s v = record { few_hosts = omega arith; few_idle = omega arith; few_each = refl }

-- After any calls, interleaved at the sections under the lock, and resets, the pool has at most 256 hosts, at most 64 idle
-- clients of each kind for each of them, and at most 256 idle clients in all.
pub after_steps-IsValid : (steps : List Step) → IsValid (after_steps steps).hosts
unfolding after_steps total_idle_clients
after_steps-IsValid [] = record { few_hosts = omega arith; few_idle = omega arith; few_each = refl }
after_steps-IsValid (now ∷ earlier) =
    step-IsValid now (after_steps earlier) (after_steps-IsValid earlier)

-- How often a client is in a list, and idle at a host.
abbrev times : ℕ → List ℕ → ℕ
times client = count (λ c. c == client)

abbrev pub occurs : ℕ → HostPool → ℕ
occurs client host = times client host.plain_idle + times client host.util_idle

abbrev given : ℕ → Option ℕ → ℕ
given client none = 0
given client (some c) = if c == client then 1 else 0

reuse-occurs :
    (client c : ℕ) (kind : Kind) (host : HostPool) (rest : List ℕ)
    → idle kind host ≡ rest ++ c ∷ []
    → occurs client (reuse kind rest host) + given client (some c) ≡ occurs client host
reuse-occurs client c plain host rest e =
    let split = ap (times client) e ∙ count-append (λ x. x == client) rest (c ∷ []) in ground arith
reuse-occurs client c util host rest e =
    let split = ap (times client) e ∙ count-append (λ x. x == client) rest (c ∷ []) in ground arith

putting-occurs :
    (client c : ℕ) (kind : Kind) (host : HostPool)
    → occurs client (putting kind c host host) ≡ occurs client host + given client (some c)
putting-occurs client c plain host =
    ground (arith, count-append (λ x. x == client) host.plain_idle (c ∷ []))
putting-occurs client c util host =
    ground (arith, count-append (λ x. x == client) host.util_idle (c ∷ []))

-- A client that is handed out is taken from the pool.
acquire-occurs :
    (client : ℕ) (kind : Kind) (key : Text) (now : ℕ) (before : Hosts)
    → total (occurs client) (acquire kind key now before).1
        + given client (acquire kind key now before).0
      ≤ total (occurs client) before
unfolding acquire
acquire-occurs client kind key now before =
    let hosts = pool_host key now before in
    let fewer = total-pool_host (occurs client) key now before refl (λ host. refl) in
    elim (Option-cases (host_at key hosts)) [
      | inl missing ↦ rw (missing, acquire) (omega (arith, fewer))
      | inr (host, found) ↦ elim (Option-cases (pop (idle kind host))) [
        | inl nothing ↦
            rw (found, nothing, acquire)
              (omega (arith, fewer, total-alter (occurs client) key dial hosts host found))
        | inr ((c, rest), popped) ↦
            rw (found, popped, acquire)
              (omega (
                arith,
                fewer,
                total-alter (occurs client) key (reuse kind rest) hosts host found,
                reuse-occurs client c kind host rest (pop-some (idle kind host) c rest popped),
              ))
      ]
    ]

release-occurs :
    (client c : ℕ) (kind : Kind) (key : Text) (now : ℕ) (before : Hosts)
    → total (occurs client) (release kind key now c before)
      ≤ total (occurs client) before + given client (some c)
unfolding release
release-occurs client c kind key now before =
    let hosts = pool_host key now before in
    let fewer = total-pool_host (occurs client) key now before refl (λ host. refl) in
    elim (Option-cases (host_at key hosts)) [
      | inl missing ↦ rw (missing, release) (omega (arith, fewer))
      | inr (host, found) ↦
          elim (Bool-cases (
            ltb (length (idle kind host)) max_idle_per_host
            && ltb (total_idle_clients hosts) max_idle_total)) [
              | inr full ↦ rw (found, full, release) (omega (arith, fewer))
              | inl room ↦
                  rw (found, room, release)
                    (omega (
                      arith,
                      fewer,
                      total-alter (occurs client) key (putting kind c host) hosts host found,
                      putting-occurs client c kind host,
                    ))
            ]
    ]

count-remove :
    (client c : ℕ) (out : List ℕ)
    → any (λ x. x == c) out ≡ true
    → times client (remove (λ x. x == c) out) + given client (some c) ≡ times client out
count-remove client c [] h = cc
count-remove client c (x ∷ out) h = elim (Bool-cases (x == c)) [
  | inl same ↦ rw same (rw ((==_iff x c).0 same) (omega arith))
  | inr other ↦ rw other (ground (arith, count-remove client c out))
]

-- Everywhere, a client that was dialed is at most once, and no other one is.
abbrev uses : ℕ → Traffic → ℕ
uses client s = total (occurs client) s.hosts + times client s.out

abbrev Once : Traffic → Type 0
Once s = (client : ℕ) → uses client s ≤ (if ltb client s.next then 1 else 0)

start_call-Once :
    (got : Option ℕ × Hosts) (s : Traffic)
    → ((client : ℕ)
        → total (occurs client) got.1 + given client got.0 ≤ total (occurs client) s.hosts)
    → Once s
    → Once (start_call got s)
start_call-Once (none, hosts) s fewer once client = ground (arith, fewer client, once client)
start_call-Once (some c, hosts) s fewer once client = ground (arith, fewer client, once client)

step-Once : (now : Step) (s : Traffic) → Once s → Once (step now s)
unfolding step reset_pool
step-Once (start kind key now) s once client =
    start_call-Once (acquire kind key now s.hosts) s (λ c. acquire-occurs c kind key now s.hosts)
      once client
step-Once (finish kind key now c healthy) s once client =
    elim (Bool-cases (any (λ x. x == c) s.out)) [
      | inr other ↦ rw (other, step) (once client)
      | inl has ↦
          let taken = count-remove client c s.out has in
          elim (Bool-cases healthy) [
            | inl good ↦
                rw (has, good, step)
                  (omega (arith, once client, taken, release-occurs client c kind key now s.hosts))
            | inr broken ↦ rw (has, broken, step) (omega (arith, once client, taken))
          ]
    ]
step-Once reset s once client = ground (arith, once client)

after_steps-Once : (steps : List Step) → Once (after_steps steps)
unfolding after_steps
after_steps-Once [] client = ground arith
after_steps-Once (now ∷ earlier) client =
    step-Once now (after_steps earlier) (after_steps-Once earlier) client

-- After any calls, interleaved at the sections under the lock, and resets, every client that was dialed is at most once among
-- the clients that calls have and those that are idle in the pool: no two calls have the same client, and none that a call
-- has is in the pool.
pub exclusive :
    (steps : List Step) (client : ℕ)
    → total (occurs client) (after_steps steps).hosts
        + count (λ c. c == client) (after_steps steps).out
      ≤ 1
exclusive steps client = ground (arith, after_steps-Once steps client)
