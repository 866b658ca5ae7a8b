-- ===== src/Middleware/Laws.antt =====
-- The registry of middleware after CREATE [OR REPLACE] and DROP.
use quackapi.Base.{
  ℕ, ◌+◌, ◌≤◌, ◌<◌, leb, Bool, true, false, List, [], ◌∷◌, ◌++◌, none, some, find, find-none,
  replace, remove, length, length-append, ok, err, err-ne-ok, ok-injective, Result-cases, ◌≡◌, refl,
  sym, ap, ◌∙◌, arith, Bool-cases, Option-cases, eq_of_some, inl, inr,
}
use quackapi.Text.{Text, text_eq}
use quackapi.Text.Laws.{text_eq-IsEquiv}
use quackapi.Keyed.{Distinct}
use quackapi.Keyed.Laws.{append-Distinct, replace-Distinct, remove-Distinct}
use quackapi.Middleware.{
  Middleware, MiddlewarePhase, MiddlewareRegistry, max_definitions, called, created, next_order,
  add, drop, snapshot,
}
use quackapi.Middleware.Order.{Rising, Schedule, snapshot-in_order}

-- Names are distinct, there are at most 64 definitions, and their orders rise from 1 up to the next one.
pub record IsValid (r : MiddlewareRegistry) : Type 0 where
  pub distinct : Distinct text_eq (λ (m : Middleware). m.name) r.middlewares
  pub bounded : length r.middlewares ≤ max_definitions
  pub rising : Rising 1 r.next_registration_order r.middlewares

Rising-append :
    (low next : ℕ) (ms : List Middleware) (m : Middleware)
    → Rising low next ms
    → m.registration_order ≡ next
    → Rising low (next + 1) (ms ++ m ∷ [])
Rising-append low next [] m h e = (omega arith, omega arith)
Rising-append low next (x ∷ ms) m (h, hs) e =
    (h, Rising-append (x.registration_order + 1) next ms m hs e)

Rising-weaken :
    (low lower next : ℕ) (ms : List Middleware)
    → lower ≤ low
    → Rising low next ms
    → Rising lower next ms
Rising-weaken low lower next [] b h = omega arith
Rising-weaken low lower next (m ∷ ms) b (h, hs) = (omega arith, hs)

Rising-remove :
    (low next : ℕ) (name : Text) (ms : List Middleware)
    → Rising low next ms
    → Rising low next (remove (called name) ms)
Rising-remove low next name [] h = h
Rising-remove low next name (m ∷ ms) (h, hs) = elim (Bool-cases (called name m)) [
  | inl t ↦ rw t (Rising-weaken (m.registration_order + 1) low next ms (omega arith) hs)
  | inr f ↦ rw f (h, Rising-remove (m.registration_order + 1) next name ms hs)
]

-- The replacement has the order of the definition that it replaces.
Rising-replace :
    (low next : ℕ) (name : Text) (m it : Middleware) (ms : List Middleware)
    → find (called name) ms ≡ some it
    → m.registration_order ≡ it.registration_order
    → Rising low next ms
    → Rising low next (replace (called name) m ms)
Rising-replace low next name m it [] f e h = cc
Rising-replace low next name m it (x ∷ ms) f e (h, hs) = elim (Bool-cases (called name x)) [
  | inl t ↦
      let order : m.registration_order ≡ x.registration_order =
        e
        ∙ ap (λ (i : Middleware). i.registration_order)
            (sym (eq_of_some {A = Middleware} {a = x} {b = it} (rw t at f))) in
      rw t (rw (sym order) at h, rw (sym order) at hs)
  | inr n ↦ rw n (h, Rising-replace (x.registration_order + 1) next name m it ms (rw n at f) e hs)
]

length-replace :
    (p : Middleware → Bool) (m : Middleware) (ms : List Middleware)
    → length (replace p m ms) ≡ length ms
length-replace p m [] = refl
length-replace p m (x ∷ ms) = ground (arith, length-replace p m ms)

length-remove : (p : Middleware → Bool) (ms : List Middleware) → length (remove p ms) ≤ length ms
length-remove p [] = omega arith
length-remove p (x ∷ ms) = ground (arith, length-remove p ms)

add_replaced :
    (m it : Middleware) (r r' : MiddlewareRegistry) (or_replace : Bool)
    → find (called m.name) r.middlewares ≡ some it
    → add m or_replace r ≡ ok r'
    → r' ≡ record r {
      middlewares =
          replace
            (called m.name)
            (record m { registration_order = it.registration_order })
            r.middlewares;
    }
unfolding add
add_replaced m it r r' true f h = sym (ok-injective (rw (f, add) at h))
add_replaced m it r r' false f h = absurd (err-ne-ok (rw (f, add) at h))

add_new :
    (m : Middleware) (r r' : MiddlewareRegistry) (or_replace : Bool)
    → find (called m.name) r.middlewares ≡ none
    → add m or_replace r ≡ ok r'
    → (length r.middlewares < max_definitions)
      × (r' ≡ record {
        middlewares =
            r.middlewares ++ record m { registration_order = r.next_registration_order } ∷ [];
        next_registration_order = next_order r.next_registration_order;
      })
unfolding add
add_new m r r' or_replace f h = elim (Bool-cases (leb max_definitions (length r.middlewares))) [
  | inl full ↦ absurd (err-ne-ok (rw (f, full, add) at h))
  | inr room ↦ (ground arith, sym (ok-injective (rw (f, room, add) at h)))
]

-- The order of the next definition does not wrap around.
abbrev pub Fresh : MiddlewareRegistry → Type 0
Fresh r = r.next_registration_order < 18446744073709551615

added-IsValid :
    (m : Middleware) (or_replace : Bool) (r r' : MiddlewareRegistry)
    → Fresh r
    → IsValid r
    → add m or_replace r ≡ ok r'
    → IsValid r' × (r'.next_registration_order ≤ r.next_registration_order + 1)
added-IsValid m or_replace r r' fresh v h =
    elim (Option-cases (find (called m.name) r.middlewares)) [
      | inl n ↦
          let (room, e) = add_new m r r' or_replace n h in
          let m' = record m { registration_order = r.next_registration_order } in
          let next : next_order r.next_registration_order ≡ r.next_registration_order + 1 =
            omega arith in
          rw e (
            record {
              distinct =
                  append-Distinct text_eq (λ (x : Middleware). x.name) text_eq-IsEquiv m'
                    r.middlewares (find-none (called m.name) r.middlewares n) v.distinct;
              bounded = omega (arith, length-append r.middlewares (m' ∷ []));
              rising =
                  rw next
                    (Rising-append 1 r.next_registration_order r.middlewares m' v.rising refl);
            },
            omega arith,
          )
      | inr found ↦
          let (it, f) = found in
          let m' = record m { registration_order = it.registration_order } in
          rw (add_replaced m it r r' or_replace f h) (
            record {
              distinct =
                  replace-Distinct text_eq (λ (x : Middleware). x.name) text_eq-IsEquiv m'
                    r.middlewares v.distinct;
              bounded = rw (length-replace (called m.name) m' r.middlewares) v.bounded;
              rising =
                  Rising-replace 1 r.next_registration_order m.name m' it r.middlewares f refl
                    v.rising;
            },
            omega arith,
          )
    ]

drop-IsValid : (name : Text) (r : MiddlewareRegistry) → IsValid r → IsValid (drop name r).1
unfolding drop
drop-IsValid name r v = record {
  distinct =
      remove-Distinct text_eq (λ (x : Middleware). x.name) text_eq-IsEquiv (called name)
        r.middlewares v.distinct;
  bounded = omega (arith, length-remove (called name) r.middlewares, v.bounded);
  rising = Rising-remove 1 r.next_registration_order name r.middlewares v.rising;
}

-- The calls on the registry; one that throws leaves it as it is.
pub data Call : Type 0 where
  add_call : Bool → Middleware → Call
  drop_call : Text → Call

unfoldable pub call : Call → MiddlewareRegistry → MiddlewareRegistry
call (add_call or_replace m) r = elim (add m or_replace r) [ err _ ↦ r | ok added ↦ added ]
call (drop_call name) r = (drop name r).1

-- After the calls, the first of them the last in the list.
unfoldable pub after_calls : List Call → MiddlewareRegistry
unfolding call
after_calls [] = created
after_calls (c ∷ earlier) = call c (after_calls earlier)

drop_keeps_order :
    (name : Text) (r : MiddlewareRegistry)
    → (drop name r).1.next_registration_order ≤ r.next_registration_order + 1
unfolding drop
drop_keeps_order name r = omega arith

call-IsValid :
    (c : Call) (r : MiddlewareRegistry)
    → Fresh r
    → IsValid r
    → IsValid (call c r) × ((call c r).next_registration_order ≤ r.next_registration_order + 1)
unfolding call
call-IsValid (add_call or_replace m) r fresh v = elim (Result-cases (add m or_replace r)) [
  | inl (added, e) ↦ rw (e, call) (added-IsValid m or_replace r added fresh v e)
  | inr (thrown, e) ↦ rw (e, call) (v, omega arith)
]
call-IsValid (drop_call name) r fresh v = (drop-IsValid name r v, drop_keeps_order name r)

after_calls_keeps :
    (calls : List Call)
    → length calls < 18446744073709551615
    → IsValid (after_calls calls) × ((after_calls calls).next_registration_order ≤ length calls + 1)
unfolding after_calls
after_calls_keeps [] h =
    (record { distinct = tt; bounded = omega arith; rising = omega arith }, omega arith)
after_calls_keeps (c ∷ earlier) h =
    let (v, order) = after_calls_keeps earlier (omega arith) in
    let (v', order') = call-IsValid c (after_calls earlier) (omega arith) v in (v', omega arith)

-- After any calls of Add and Drop, fewer than 2^64 - 1, the names in the registry are distinct, it holds at most
-- 64 definitions, and their registration orders rise.
pub after_calls-IsValid :
    (calls : List Call) → length calls < 18446744073709551615 → IsValid (after_calls calls)
after_calls-IsValid calls h = (after_calls_keeps calls h).0

-- After any calls of Add and Drop, fewer than 2^64 - 1, a snapshot holds exactly the definitions of its phase
-- without a group or with the group asked for, each as often as the registry does. Before the route the global ones
-- come first, after it they come last, and within each scope they are in the order of registration.
pub snapshot-Schedule :
    (calls : List Call)
    → length calls < 18446744073709551615
    → (phase : MiddlewarePhase) (group_name : Text)
    → Schedule phase group_name
        (after_calls calls).middlewares
        (snapshot phase group_name (after_calls calls))
snapshot-Schedule calls h phase group_name =
    snapshot-in_order phase group_name 1 (after_calls calls) (after_calls-IsValid calls h).rising
