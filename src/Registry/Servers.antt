-- ===== src/Registry/Servers.antt =====
-- The running servers: StartServer, StopServer, StopAllServers, HasServerOnPort, GetServerHost and
-- ListServers. A server that is stopped leaves the table, no longer accepts connections, and waits for
-- a detached thread that destroys it. The map's order is that of the list.
pub mod Laws
use quackapi.Base.{
  ℕ, Bool, true, false, not, ◌||◌, List, [], ◌∷◌, ◌++◌, map, Option, none, some, ok, err, ◌==◌,
  if◌then◌else◌, any, find, remove,
}
use quackapi.Text.{Text, codes, text_eq, empty, to_string}
use quackapi.Registry.{Error, already_serving, server_not_constructed, Outcome}

-- What the table reads of a QuackapiHttpServer.
pub record Server : Type 0 where
  pub host : Text
  pub port : ℕ
  pub http_client_active : Text
  pub http_client_reason : Text

pub record ServerState : Type 0 where
  pub servers : List (Text × Server)
  pub stopping : List Server

unfoldable pub server_key : Text → ℕ → Text
server_key host port = host ++ b':' ∷ to_string port

abbrev pub has_key : Text → Text × Server → Bool
has_key key entry = text_eq entry.0 key

abbrev pub on_port : ℕ → Text × Server → Bool
on_port port entry = entry.1.port == port

-- `constructed` says whether the constructor, which binds the socket, returns.
unfoldable pub start_server : Server → Bool → ServerState → Outcome ServerState (Unit {0})
start_server server constructed s =
    let key = server_key server.host server.port in
    if any (has_key key) s.servers
    then (err (already_serving key), s)
    else if constructed
    then (ok tt, record s { servers = s.servers ++ (key, server) ∷ [] })
    else (err server_not_constructed, s)

-- Of two hosts with the port, the one that was started first is stopped here; the source takes the
-- first one of an `unordered_map`, in the order of that map.
unfoldable pub stop_server : ℕ → ServerState → Bool × ServerState
stop_server port s = elim (find (on_port port) s.servers) [
  | none ↦ (false, s)
  | some (_, server) ↦ (
    true,
    record s { servers = remove (on_port port) s.servers; stopping = s.stopping ++ server ∷ [] },
  )
]

abbrev pub server_of : Text × Server → Server
server_of entry = entry.1

unfoldable pub stop_all_servers : ServerState → ServerState
stop_all_servers s = record s { servers = []; stopping = s.stopping ++ map server_of s.servers }

abbrev pub has_server_on_port : ℕ → ServerState → Bool
has_server_on_port port s = any (on_port port) s.servers

abbrev pub get_server_host : ℕ → ServerState → Option Text
get_server_host port s = elim (find (on_port port) s.servers) [
  | none ↦ none
  | some (_, server) ↦ some server.host
]

abbrev pub listed : Text × Server → Text × ℕ × Text × Text
listed (_, server) = (
  server.host,
  server.port,
  if empty server.http_client_active then codes "httplib" else server.http_client_active,
  server.http_client_reason,
)

abbrev pub list_servers : ServerState → List (Text × ℕ × Text × Text)
list_servers s = map listed s.servers

-- What happens to the table: the methods, and a detached thread that destroys its server,
-- in any order.
pub data Step : ServerState → ServerState → Type 0 where
  start :
      (server : Server) (constructed : Bool) (s : ServerState)
      → Step s (start_server server constructed s).1
  stop : (port : ℕ) (s : ServerState) → Step s (stop_server port s).1
  stop_all : (s : ServerState) → Step s (stop_all_servers s)
  destroy :
      (server : Server) (before after : List Server) (servers : List (Text × Server))
      → Step
          (record { servers = servers; stopping = before ++ server ∷ after })
          (record { servers = servers; stopping = before ++ after })

-- Any number of steps.
pub data Reaches (first : ServerState) : ServerState → Type 0 where
  here : Reaches first first
  then_step : {s t : ServerState} → Reaches first s → Step s t → Reaches first t
