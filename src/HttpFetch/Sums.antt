-- ===== src/HttpFetch/Sums.antt =====
-- Sums over the hosts of the pool, and how the operations change them.
use quackapi.Base.{
  ℕ, ◌+◌, ◌≤◌, Bool, [], ◌∷◌, ◌++◌, some, any, eq_of_some, remove, remove_if, ◌≡◌, refl, arith,
  Bool-cases, inl, inr,
}
use quackapi.Text.{Text}
use quackapi.HttpFetch.{
  HostPool, Hosts, at, expired, oldest_from, erase_oldest, alter, new_host, found_or_new, make_room,
  pool_host, total, host_at,
}

module _ (w : HostPool → ℕ) where
  total-append : (xs ys : Hosts) → total w (xs ++ ys) ≡ total w xs + total w ys
  total-append [] ys = omega arith
  total-append ((k, h) ∷ xs) ys = omega (arith, total-append xs ys)

  total-remove :
      (p : Text × HostPool → Bool) (hosts : Hosts) → total w (remove p hosts) ≤ total w hosts
  total-remove p [] = omega arith
  total-remove p ((k, h) ∷ hosts) = ground (arith, total-remove p hosts)

  total-remove_if :
      (p : Text × HostPool → Bool) (hosts : Hosts) → total w (remove_if p hosts) ≤ total w hosts
  total-remove_if p [] = omega arith
  total-remove_if p ((k, h) ∷ hosts) = ground (arith, total-remove_if p hosts)

  total-erase_oldest : (hosts : Hosts) → total w (erase_oldest hosts) ≤ total w hosts
  unfolding erase_oldest
  total-erase_oldest [] = omega arith
  total-erase_oldest (entry ∷ hosts) = total-remove (at (oldest_from entry hosts).0) (entry ∷ hosts)

  total-make_room : (key : Text) (hosts : Hosts) → total w (make_room key hosts) ≤ total w hosts
  total-make_room key hosts = ground (arith, total-erase_oldest hosts)

  -- A change at the host of a key changes the sum as it changes the host.
  pub total-alter :
      (key : Text) (change : HostPool → HostPool) (hosts : Hosts) (host : HostPool)
      → host_at key hosts ≡ some host
      → total w (alter key change hosts) + w host ≡ total w hosts + w (change host)
  unfolding alter
  total-alter key change [] host h = cc
  total-alter key change ((k, x) ∷ hosts) host h = elim (Bool-cases (at key (k, x))) [
    | inl here ↦
        let same : x ≡ host = eq_of_some {A = HostPool} {a = x} {b = host} (rw here at h) in
        rw here (rw (← same) (omega arith))
    | inr there ↦ rw there (omega (arith, total-alter key change hosts host (rw there at h)))
  ]

  total-alter_same :
      (key : Text) (change : HostPool → HostPool)
      → ((host : HostPool) → w (change host) ≡ w host)
      → (hosts : Hosts) → total w (alter key change hosts) ≡ total w hosts
  unfolding alter
  total-alter_same key change same [] = refl
  total-alter_same key change same ((k, x) ∷ hosts) =
      ground (arith, same x, total-alter_same key change same hosts)

  -- PoolHost adds nothing to a sum that does not count the time.
  pub total-pool_host :
      (key : Text) (now : ℕ) (hosts : Hosts)
      → w (new_host now) ≡ 0
      → ((host : HostPool) → w (record host { last_used = now }) ≡ w host)
      → total w (pool_host key now hosts) ≤ total w hosts
  unfolding pool_host
  total-pool_host key now hosts new same =
      let kept = remove_if (expired now) hosts in
      let room = make_room key kept in
      let touched : total w
            (alter key (λ host. record host { last_used = now }) (found_or_new key now room))
          ≡ total w (found_or_new key now room) =
        total-alter_same key (λ host. record host { last_used = now }) same
          (found_or_new key now room) in
      let added : total w (found_or_new key now room) ≡ total w room =
        elim (Bool-cases (any (at key) room)) [
          | inl there ↦ rw there refl
          | inr missing ↦
              rw missing (omega (arith, total-append room ((key, new_host now) ∷ []), new))
        ] in
      omega (arith, touched, added, total-make_room key kept, total-remove_if (expired now) hosts)
