-- ===== src/Registry/Streams.antt =====
-- Streams: AddStream, DropStream, LiveStreams and SnapshotStreams.
pub mod Laws
use quackapi.Base.{
  Bool, true, false, not, ◌&&◌, List, [], ◌∷◌, ◌++◌, Option, none, some, Result, ok, err,
  if◌then◌else◌, any, find, replace, remove,
}
use quackapi.Text.{Text, text_eq}
use quackapi.Types.{Stream}
use quackapi.Registry.{Error, stream_exists, stream_path_used, Outcome}

pub record StreamState : Type 0 where
  pub streams : List Stream
  pub streams_live : Option (List Stream)

abbrev pub has_name : Text → Stream → Bool
has_name name it = text_eq it.name name

-- The first other stream with the candidate's method and pattern.
abbrev pub collides : Stream → Text → List Stream → Option Stream
collides candidate ignore_name streams =
    find
      (λ other.
        not (text_eq other.name ignore_name)
        && text_eq other.method candidate.method
        && text_eq other.pattern candidate.pattern)
      streams

-- PublishStreams after a change.
abbrev pub published : List Stream → StreamState
published streams = record { streams = streams; streams_live = some streams }

-- The answer where `hit` is the colliding stream.
abbrev pub unless_hit :
    Stream → Option Stream → List Stream → StreamState → Outcome StreamState (Unit {0})
unless_hit stream none changed s = (ok tt, published changed)
unless_hit stream (some hit) changed s =
    (err (stream_path_used stream.method stream.pattern hit.name), s)

unfoldable pub add_stream : Stream → Bool → StreamState → Outcome StreamState (Unit {0})
add_stream stream or_replace s =
    if any (has_name stream.name) s.streams
    then (if or_replace
        then unless_hit stream (collides stream stream.name s.streams)
            (replace (has_name stream.name) stream s.streams) s
        else (err (stream_exists stream.name), s))
    else unless_hit stream (collides stream [] s.streams) (s.streams ++ stream ∷ []) s

unfoldable pub drop_stream : Text → StreamState → Bool × StreamState
drop_stream name s =
    if any (has_name name) s.streams
    then (true, published (remove (has_name name) s.streams))
    else (false, s)

abbrev pub live_streams : StreamState → List Stream × StreamState
live_streams s = elim s.streams_live [
  | some live ↦ (live, s)
  | none ↦ (s.streams, published s.streams)
]
