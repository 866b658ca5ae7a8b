-- ===== src/HttpFetch/Laws.antt =====
-- The bounds of the connection pool: a client that is taken, and one that is given back.
use quackapi.Base.{
  ℕ, ◌+◌, ltb, true, ◌&&◌, List, [], ◌∷◌, ◌++◌, none, some, length, length-append, ◌≡◌, refl, ap,
  ◌∙◌, arith, Bool-cases, Option-cases, eq_of_some, inl, inr,
}
use quackapi.Text.{Text}
use quackapi.HttpFetch.{
  Kind, plain, util, HostPool, Hosts, max_idle_per_host, max_idle_total, idle, with_idle, pool_host,
  idle_clients, total_idle_clients, host_at, pop, reuse, dial, acquire, release,
}
use quackapi.HttpFetch.Hosts.{fits, IsValid, pool_host-IsValid, alter-IsValid}

pop-none : (clients : List ℕ) → pop clients ≡ none → clients ≡ []
unfolding pop
pop-none [] h = refl
pop-none (x ∷ clients) h = elim (Option-cases (pop clients)) [
  | inl nothing ↦ absurd (some_ne_none (rw (nothing, pop) at h))
  | inr (popped, found) ↦ absurd (some_ne_none (rw (found, pop) at h))
]
  where
    some_ne_none : {a : ℕ × List ℕ} → some a ≡ none → ⊥
    some_ne_none e = cc

-- `back()` is the last client.
pub pop-some :
    (clients : List ℕ) (client : ℕ) (rest : List ℕ)
    → pop clients ≡ some (client, rest)
    → clients ≡ rest ++ client ∷ []
unfolding pop
pop-some [] client rest h = cc
pop-some (x ∷ clients) client rest h = elim (Option-cases (pop clients)) [
  | inl nothing ↦
      let same : (x, []) ≡ (client, rest) =
        eq_of_some {A = ℕ × List ℕ} {a = (x, [])} {b = (client, rest)} (rw (nothing, pop) at h) in
      ap (λ t. x ∷ t) (pop-none clients nothing) ∙ ap (λ (p : ℕ × List ℕ). p.1 ++ p.0 ∷ []) same
  | inr ((last, others), found) ↦
      let same : (last, x ∷ others) ≡ (client, rest) =
        eq_of_some {A = ℕ × List ℕ} {a = (last, x ∷ others)} {b = (client, rest)}
          (rw (found, pop) at h) in
      ap (λ t. x ∷ t) (pop-some clients last others found)
      ∙ ap (λ (p : ℕ × List ℕ). p.1 ++ p.0 ∷ []) same
]

reuse-fits :
    (kind : Kind) (host : HostPool) (client : ℕ) (clients : List ℕ) (k : Text)
    → idle kind host ≡ clients ++ client ∷ []
    → fits (k, host) ≡ true
    → fits (k, reuse kind clients host) ≡ true
reuse-fits plain host client clients k e h =
    let long = ap length e ∙ length-append clients (client ∷ []) in ground arith
reuse-fits util host client clients k e h =
    let long = ap length e ∙ length-append clients (client ∷ []) in ground arith

reuse-idle_clients :
    (kind : Kind) (host : HostPool) (client : ℕ) (clients : List ℕ)
    → idle kind host ≡ clients ++ client ∷ []
    → idle_clients (reuse kind clients host) + 1 ≡ idle_clients host
reuse-idle_clients plain host client clients e =
    let long = ap length e ∙ length-append clients (client ∷ []) in omega arith
reuse-idle_clients util host client clients e =
    let long = ap length e ∙ length-append clients (client ∷ []) in omega arith

pub acquire-IsValid :
    (kind : Kind) (key : Text) (now : ℕ) (hosts : Hosts)
    → IsValid hosts
    → IsValid (acquire kind key now hosts).1
unfolding acquire
acquire-IsValid kind key now before v =
    let hosts = pool_host key now before in
    let kept = pool_host-IsValid key now before v in
    elim (Option-cases (host_at key hosts)) [
      | inl missing ↦ rw (missing, acquire) kept
      | inr (host, found) ↦ elim (Option-cases (pop (idle kind host))) [
        | inl nothing ↦
            rw (found, nothing, acquire)
              (alter-IsValid key dial hosts host found (λ k f. f) (omega (arith, kept.few_idle))
                kept)
        | inr ((client, clients), popped) ↦
            let last = pop-some (idle kind host) client clients popped in
            rw (found, popped, acquire)
              (alter-IsValid key (reuse kind clients) hosts host found
                (λ k f. reuse-fits kind host client clients k last f)
                (omega (arith, kept.few_idle, reuse-idle_clients kind host client clients last))
                kept)
      ]
    ]

abbrev pub putting : Kind → ℕ → HostPool → HostPool → HostPool
putting kind client host = with_idle kind (idle kind host ++ client ∷ [])

putting-fits :
    (kind : Kind) (client : ℕ) (host : HostPool) (k : Text)
    → ltb (length (idle kind host)) max_idle_per_host ≡ true
    → fits (k, host) ≡ true
    → fits (k, putting kind client host host) ≡ true
putting-fits plain client host k room h =
    ground (arith, length-append host.plain_idle (client ∷ []))
putting-fits util client host k room h = ground (arith, length-append host.util_idle (client ∷ []))

putting-idle_clients :
    (kind : Kind) (client : ℕ) (host : HostPool)
    → idle_clients (putting kind client host host) ≡ idle_clients host + 1
putting-idle_clients plain client host = omega (arith, length-append host.plain_idle (client ∷ []))
putting-idle_clients util client host = omega (arith, length-append host.util_idle (client ∷ []))

pub release-IsValid :
    (kind : Kind) (key : Text) (now client : ℕ) (hosts : Hosts)
    → IsValid hosts
    → IsValid (release kind key now client hosts)
unfolding release
release-IsValid kind key now client before v =
    let hosts = pool_host key now before in
    let kept = pool_host-IsValid key now before v in
    elim (Option-cases (host_at key hosts)) [
      | inl missing ↦ rw (missing, release) kept
      | inr (host, found) ↦
          elim (Bool-cases (
            ltb (length (idle kind host)) max_idle_per_host
            && ltb (total_idle_clients hosts) max_idle_total)) [
              | inr full ↦ rw (found, full, release) kept
              | inl room ↦
                  rw (found, room, release)
                    (alter-IsValid key (putting kind client host) hosts host found
                      (λ k f. putting-fits kind client host k (ground arith) f)
                      (ground (arith, putting-idle_clients kind client host)) kept)
            ]
    ]
