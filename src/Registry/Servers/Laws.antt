-- ===== src/Registry/Servers/Laws.antt =====
-- The table of servers in every state that it can reach.
use quackapi.Base.{
  ℕ, Bool, true, false, ◌&&◌, List, [], ◌∷◌, ◌++◌, ok, err, ◌==◌, ==_iff, any, all, find,
  any-append, all-append, all-remove, ◌≡◌, refl, sym, ap, ◌∙◌, subst, arith, Bool-cases,
  Option-cases, inl, inr, ◌⊎◌,
}
use quackapi.Text.{Text, text_eq, to_string}
use quackapi.Text.Laws.{
  text_eq_iff, text_eq_refl, text_eq-IsEquiv, AllDigits, to_string-AllDigits, to_string_injective,
}
use quackapi.Keyed.{Distinct}
use quackapi.Keyed.Laws.{append-Distinct, remove-Distinct}
use quackapi.Registry.{already_serving}
use quackapi.Registry.Servers.{
  Server, ServerState, server_key, has_key, on_port, start_server, stop_server, stop_all_servers,
  has_server_on_port, Step, start, stop, stop_all, destroy, Reaches, here, then_step,
}

no_colon : (h d : Text) → AllDigits (h ++ b':' ∷ d) → ⊥
no_colon [] d (low, high, rest) = absurd (omega arith)
no_colon (c ∷ h) d (low, high, rest) = no_colon h d rest

split_last :
    (h k d e : Text) → AllDigits d → AllDigits e → h ++ b':' ∷ d ≡ k ++ b':' ∷ e → (h ≡ k) × (d ≡ e)
split_last [] [] d e p q same = (refl, cc)
split_last [] (c ∷ k) d e p q same = absurd (no_colon k e (subst AllDigits (ground arith) p))
split_last (c ∷ h) [] d e p q same = absurd (no_colon h d (subst AllDigits (ground arith) q))
split_last (c ∷ h) (b ∷ k) d e p q same = let (l, r) = split_last h k d e p q cc in (cc, r)

server_key_injective : (h k : Text) (m n : ℕ) → server_key h m ≡ server_key k n → (h ≡ k) × (m ≡ n)
unfolding server_key
server_key_injective h k m n same =
    let (hosts, ports) =
      split_last h k (to_string m) (to_string n) (to_string-AllDigits m) (to_string-AllDigits n)
        same in
    (hosts, to_string_injective m n ports)

abbrev pub key_of : Text × Server → Text
key_of entry = entry.0

-- A server stands under the key of its host and port.
abbrev pub fits : Text × Server → Bool
fits entry = text_eq entry.0 (server_key entry.1.host entry.1.port)

pub record IsValid (s : ServerState) : Type 0 where
  pub keys : Distinct text_eq key_of s.servers
  pub hosts : all fits s.servers ≡ true

start_server-IsValid :
    (server : Server) (constructed : Bool) (s : ServerState)
    → IsValid s
    → IsValid (start_server server constructed s).1
unfolding start_server
start_server-IsValid server constructed s v =
    let key = server_key server.host server.port in
    elim (Bool-cases (any (has_key key) s.servers)) [
      | inl taken ↦ rw taken v
      | inr free ↦ rw free (elim (Bool-cases constructed) [
        | inr fails ↦ rw fails v
        | inl starts ↦ rw starts (record {
          keys = append-Distinct text_eq key_of text_eq-IsEquiv (key, server) s.servers free v.keys;
          hosts =
              all-append fits s.servers ((key, server) ∷ []) ∙ rw (v.hosts, text_eq_refl key) refl;
        })
      ])
    ]

stop_server-IsValid : (port : ℕ) (s : ServerState) → IsValid s → IsValid (stop_server port s).1
unfolding stop_server
stop_server-IsValid port s v = elim (Option-cases (find (on_port port) s.servers)) [
  | inl missing ↦ rw (missing, stop_server) v
  | inr (entry, found) ↦
      rw (found, stop_server)
        (record {
          keys = remove-Distinct text_eq key_of text_eq-IsEquiv (on_port port) s.servers v.keys;
          hosts = all-remove fits (on_port port) s.servers v.hosts;
        })
]

stop_all-IsValid : (s : ServerState) → IsValid (stop_all_servers s)
unfolding stop_all_servers
stop_all-IsValid s = record { keys = tt; hosts = refl }

Step-IsValid : {s t : ServerState} → Step s t → IsValid s → IsValid t
Step-IsValid (start server constructed s) v = start_server-IsValid server constructed s v
Step-IsValid (stop port s) v = stop_server-IsValid port s v
Step-IsValid (stop_all s) v = stop_all-IsValid s
Step-IsValid (destroy server before after servers) v = record { keys = v.keys; hosts = v.hosts }

abbrev pub no_servers : ServerState
no_servers = record { servers = []; stopping = [] }

-- In every state that is reached from the empty table by starting, stopping and destroying servers, in any
-- order, every server stands under the key of its host and port, and no two have the same one.
pub Reaches-IsValid : (s : ServerState) → Reaches no_servers s → IsValid s
Reaches-IsValid s here = record { keys = tt; hosts = refl }
Reaches-IsValid s (then_step {s = before} earlier step) =
    Step-IsValid step (Reaches-IsValid before earlier)

-- The entry is a server on the same host and port.
abbrev pub same_address : Server → Text × Server → Bool
same_address server entry = text_eq entry.1.host server.host && entry.1.port == server.port

fits-address :
    (server : Server) (entry : Text × Server)
    → fits entry ≡ true
    → has_key (server_key server.host server.port) entry ≡ same_address server entry
fits-address server (key, other) h =
    let own : key ≡ server_key other.host other.port =
      (text_eq_iff key (server_key other.host other.port)).0 h in
    let wanted = server_key server.host server.port in
    elim (Bool-cases (text_eq key wanted)) [
      | inl same ↦
          let (hosts, ports) =
            server_key_injective other.host server.host other.port server.port
              (sym own ∙ (text_eq_iff key wanted).0 same) in
          rw same (ground (arith, hosts, ports, (text_eq_iff other.host server.host).1 hosts))
      | inr differs ↦ elim (Bool-cases (same_address server (key, other))) [
        | inr apart ↦ rw (differs, apart) refl
        | inl alike ↦
            let hosts = (text_eq_iff other.host server.host).0 (ground arith) in
            let ports = (==_iff other.port server.port).0 (ground arith) in
            let equal : key ≡ wanted =
              own ∙ ap (λ k. server_key k other.port) hosts ∙ ap (server_key server.host) ports in
            ground (arith, (text_eq_iff key wanted).1 equal)
      ]
    ]

any-address :
    (server : Server) (servers : List (Text × Server))
    → all fits servers ≡ true
    → any (has_key (server_key server.host server.port)) servers ≡ any (same_address server) servers
any-address server [] h = refl
any-address server (entry ∷ rest) h =
    ground (arith, fits-address server entry, any-address server rest)

on_port-added :
    (server : Server) (key : Text) (servers : List (Text × Server))
    → any (on_port server.port) (servers ++ (key, server) ∷ []) ≡ true
on_port-added server key servers =
    any-append (on_port server.port) servers ((key, server) ∷ []) ∙ ground arith

-- In a valid state, StartServer of a server whose constructor returns either throws that its address is
-- taken and changes nothing, where a server with its host and port is in the table, or starts it, where
-- none is, and it is then found on its port.
pub start_server-address :
    (server : Server) (s : ServerState)
    → IsValid s
    → ((any (same_address server) s.servers ≡ true)
        × (start_server server true s
            ≡ (err (already_serving (server_key server.host server.port)), s)))
      ⊎ ((any (same_address server) s.servers ≡ false)
          × ((start_server server true s).0 ≡ ok tt)
          × (has_server_on_port server.port (start_server server true s).1 ≡ true))
unfolding start_server
start_server-address server s v =
    let key = server_key server.host server.port in
    let same = any-address server s.servers v.hosts in
    elim (Bool-cases (any (has_key key) s.servers)) [
      | inl taken ↦ inl (sym same ∙ taken, rw taken refl)
      | inr free ↦ inr (sym same ∙ free, rw free refl, rw free (on_port-added server key s.servers))
    ]
