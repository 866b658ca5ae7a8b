-- ===== src/Registry/Named.antt =====
-- Groups and queues: AddGroup, DropGroup, GetGroup, AddQueue, DropQueue, GetQueue and their snapshots.
pub mod Laws
use quackapi.Base.{
  Bool, List, Option, Result, ok, err, ◌≡◌, ◌⊎◌, inl, inr, refl, true, false, none, some,
  if◌then◌else◌, any, ◌↔◌, arith, Result-cases,
}
use quackapi.Text.{Text, text_eq}
use quackapi.Text.Laws.{text_eq-IsEquiv}
use quackapi.Keyed.{named, Distinct, upsert, get, drop}
use quackapi.Keyed.Laws.{upsert-Distinct, drop-Distinct, get-upsert, get-drop}
use quackapi.Types.{Group, Queue}
use quackapi.Registry.{Error, group_exists, queue_exists, Outcome}

-- A method that assigns the vector only when it does not throw.
abbrev pub commit {ℓ} : {A : Type ℓ} → Result Error A → A → Result Error (Unit {0}) × A
commit (ok new) old = (ok tt, new)
commit (err e) old = (err e, old)

abbrev pub group_name : Group → Text
group_name g = g.name

unfoldable pub add_group : Group → Bool → List Group → Outcome (List Group) (Unit {0})
add_group group or_replace groups =
    commit (upsert text_eq group_name (group_exists group.name) or_replace group groups) groups

unfoldable pub drop_group : Text → List Group → Bool × List Group
drop_group name groups = drop text_eq group_name name groups

unfoldable pub get_group : Text → List Group → Option Group
get_group name groups = get text_eq group_name name groups

abbrev pub queue_name : Queue → Text
queue_name q = q.name

unfoldable pub add_queue : Queue → Bool → List Queue → Outcome (List Queue) (Unit {0})
add_queue queue or_replace queues =
    commit (upsert text_eq queue_name (queue_exists queue.name) or_replace queue queues) queues

unfoldable pub drop_queue : Text → List Queue → Bool × List Queue
drop_queue name queues = drop text_eq queue_name name queues

unfoldable pub get_queue : Text → List Queue → Option Queue
get_queue name queues = get text_eq queue_name name queues
