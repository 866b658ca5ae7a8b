-- ===== src/Registry/Named/Laws.antt =====
-- Groups and queues as maps from names.
use quackapi.Base.{
  Bool, true, false, List, some, none, Result, ok, err, ◌≡◌, ◌⊎◌, inl, inr, refl, if◌then◌else◌,
  any, Result-cases,
}
use quackapi.Text.{Text, text_eq}
use quackapi.Text.Laws.{text_eq-IsEquiv}
use quackapi.Keyed.{named, Distinct, upsert, get}
use quackapi.Keyed.Laws.{
  upsert-Distinct, drop-Distinct, get-upsert, get-drop, upsert-eq-err, upsert-err,
}
use quackapi.Types.{Group, Queue}
use quackapi.Registry.{Error, group_exists, queue_exists}
use quackapi.Registry.Named.{
  commit, group_name, add_group, drop_group, get_group, queue_name, add_queue, drop_queue,
  get_queue,
}

module _ {A : Type 0} (key : A → Text) where
  -- The vector after a CREATE: the old one where the method threw, which it does exactly for a taken
  -- name without OR REPLACE, or else one in which the name resolves to the new entry.
  abbrev pub Created : Error → A → Bool → List A → Result Error (Unit {0}) × List A → Type 0
  Created e v or_replace old (result, new) =
      Distinct text_eq key new
      × (((result ≡ err e)
            × (new ≡ old)
            × (any (named text_eq key (key v)) old ≡ true)
            × (or_replace ≡ false))
          ⊎ ((result ≡ ok tt)
              × ((k : Text)
                  → get text_eq key k new
                    ≡ (if text_eq (key v) k then some v else get text_eq key k old))))

  commit-Created :
      (e : Error) (v : A) (or_replace : Bool) (old : List A)
      → Distinct text_eq key old
      → Created e v or_replace old (commit (upsert text_eq key e or_replace v old) old)
  commit-Created e v or_replace old d =
      elim (Result-cases (upsert text_eq key e or_replace v old)) [
        | inl (new, h) ↦ rw h (
          upsert-Distinct text_eq key text_eq-IsEquiv e or_replace v old h d,
          inr (refl, λ k. get-upsert text_eq key text_eq-IsEquiv e or_replace v k old h),
        )
        | inr (f, h) ↦
            let same = upsert-err text_eq key text_eq-IsEquiv e or_replace v old h in
            let (taken, refuses) =
              (upsert-eq-err text_eq key text_eq-IsEquiv e or_replace v old).0 (rw same at h) in
            rw (h, same) (d, inl (refl, refl, taken, refuses))
      ]

-- CREATE [OR REPLACE] GROUP, on every path.
pub add_group-Created :
    (group : Group) (or_replace : Bool) (groups : List Group)
    → Distinct text_eq group_name groups
    → Created group_name
        (group_exists group.name)
        group
        or_replace
        groups
        (add_group group or_replace groups)
unfolding add_group
add_group-Created group or_replace groups d =
    commit-Created group_name (group_exists group.name) group or_replace groups d

-- Where queue names are distinct, AddQueue keeps them distinct, and either throws, just where the
-- name is taken and OR REPLACE is not given, and changes nothing, or makes the name resolve to the
-- new queue and every other name as before.
pub add_queue-Created :
    (queue : Queue) (or_replace : Bool) (queues : List Queue)
    → Distinct text_eq queue_name queues
    → Created queue_name
        (queue_exists queue.name)
        queue
        or_replace
        queues
        (add_queue queue or_replace queues)
unfolding add_queue
add_queue-Created queue or_replace queues d =
    commit-Created queue_name (queue_exists queue.name) queue or_replace queues d

-- DROP GROUP takes just its name out, and names stay distinct.
pub get_group-drop_group :
    (name k : Text) (groups : List Group)
    → Distinct text_eq group_name groups
    → (get_group k (drop_group name groups).1
        ≡ (if text_eq name k then none else get_group k groups))
      × Distinct text_eq group_name (drop_group name groups).1
unfolding drop_group get_group
get_group-drop_group name k groups d = (
  get-drop text_eq group_name text_eq-IsEquiv name k groups d,
  drop-Distinct text_eq group_name text_eq-IsEquiv name groups d,
)

-- DROP QUEUE takes just its name out, and names stay distinct.
pub get_queue-drop_queue :
    (name k : Text) (queues : List Queue)
    → Distinct text_eq queue_name queues
    → (get_queue k (drop_queue name queues).1
        ≡ (if text_eq name k then none else get_queue k queues))
      × Distinct text_eq queue_name (drop_queue name queues).1
unfolding drop_queue get_queue
get_queue-drop_queue name k queues d = (
  get-drop text_eq queue_name text_eq-IsEquiv name k queues d,
  drop-Distinct text_eq queue_name text_eq-IsEquiv name queues d,
)
