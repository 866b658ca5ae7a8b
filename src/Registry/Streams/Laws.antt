-- ===== src/Registry/Streams/Laws.antt =====
-- The stream registry: its invariant under AddStream and DropStream, and lookup by name.
use quackapi.Base.{
  Bool, false, List, [], ◌∷◌, none, some, any, ◌≡◌, ◌⊎◌, inl, inr, refl, ◌∙◌, arith, Bool-cases,
  Option-cases, any-append,
}
use quackapi.Text.{Text, text_eq}
use quackapi.Text.Laws.{text_eq-IsEquiv}
use quackapi.Keyed.{Distinct}
use quackapi.Keyed.Laws.{
  any-remove, any-replace, append-Distinct, replace-Distinct, remove-Distinct,
}
use quackapi.Keyed.TwoKeys.{clashes, replace-paths, append-paths}
use quackapi.Types.{Stream}
use quackapi.Registry.Streams.{StreamState, has_name, collides, add_stream, drop_stream}
use quackapi.Registry.Routes.Scan.{path_eq, path_eq-IsEquiv}

abbrev pub stream_name : Stream → Text
stream_name s = s.name

abbrev pub stream_path : Stream → Text × Text
stream_path s = (s.method, s.pattern)

-- Names, and pairs of method and pattern, are distinct, and what is published is the registry.
pub record IsValid (s : StreamState) : Type 0 where
  pub names : Distinct text_eq stream_name s.streams
  pub named : any (has_name []) s.streams ≡ false
  pub paths : Distinct path_eq stream_path s.streams
  pub live : (s.streams_live ≡ none) ⊎ (s.streams_live ≡ some s.streams)

abbrev clash : Stream → Stream → Bool
clash = clashes text_eq stream_name path_eq stream_path

-- With no stream of the name to ignore, or none that is nameless, `collides` finds a clash or nothing.
collides-none :
    (v : Stream) (xs : List Stream) → collides v v.name xs ≡ none → any (clash v) xs ≡ false
collides-none v [] h = refl
collides-none v (x ∷ xs) h = ground (arith, collides-none v xs)

collides-none-new :
    (v : Stream) (xs : List Stream)
    → collides v [] xs ≡ none
    → any (has_name []) xs ≡ false
    → any (clash v) xs ≡ false
collides-none-new v [] h n = refl
collides-none-new v (x ∷ xs) h n = ground (arith, collides-none-new v xs)

-- AddStream of a stream that has a name, whether it throws or not, keeps stream names distinct and
-- not empty, no two streams with the same method and pattern, and nothing published but the
-- registry itself.
pub add_stream-IsValid :
    (stream : Stream) (or_replace : Bool) (s : StreamState)
    → text_eq stream.name [] ≡ false
    → IsValid s
    → IsValid (add_stream stream or_replace s).1
unfolding add_stream
add_stream-IsValid stream or_replace s has v =
    elim (Bool-cases (any (has_name stream.name) s.streams)) [
      | inl present ↦ rw present (elim (Bool-cases or_replace) [
        | inr refuses ↦ rw refuses v
        | inl replaces ↦ rw replaces (elim (Option-cases (collides stream stream.name s.streams)) [
          | inr (hit, found) ↦ rw found v
          | inl clear ↦ rw clear (record {
            names = replace-Distinct text_eq stream_name text_eq-IsEquiv stream s.streams v.names;
            named =
                any-replace text_eq stream_name text_eq-IsEquiv [] stream (has_name stream.name)
                  s.streams v.named has;
            paths =
                replace-paths text_eq stream_name path_eq stream_path text_eq-IsEquiv
                  path_eq-IsEquiv stream s.streams (collides-none stream s.streams clear) v.names
                  v.paths;
            live = inr refl;
          })
        ])
      ])
      | inr absent ↦ rw absent (elim (Option-cases (collides stream [] s.streams)) [
        | inr (hit, found) ↦ rw found v
        | inl clear ↦ rw clear (record {
          names =
              append-Distinct text_eq stream_name text_eq-IsEquiv stream s.streams absent v.names;
          named = any-append (has_name []) s.streams (stream ∷ []) ∙ rw (v.named, has);
          paths =
              append-paths text_eq stream_name path_eq stream_path text_eq-IsEquiv path_eq-IsEquiv
                stream s.streams (collides-none-new stream s.streams clear v.named) absent v.paths;
          live = inr refl;
        })
      ])
    ]

-- DropStream keeps the registry valid.
pub drop_stream-IsValid :
    (name : Text) (s : StreamState) → IsValid s → IsValid (drop_stream name s).1
unfolding drop_stream
drop_stream-IsValid name s v = elim (Bool-cases (any (has_name name) s.streams)) [
  | inl present ↦ rw present (record {
    names = remove-Distinct text_eq stream_name text_eq-IsEquiv (has_name name) s.streams v.names;
    named =
        any-remove text_eq stream_name text_eq-IsEquiv (has_name []) (has_name name) s.streams
          v.named;
    paths = remove-Distinct path_eq stream_path path_eq-IsEquiv (has_name name) s.streams v.paths;
    live = inr refl;
  })
  | inr absent ↦ rw absent v
]
