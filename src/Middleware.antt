-- ===== src/Middleware.antt =====
-- SQL middleware, src/quackapi_middleware.cpp and src/include/quackapi_middleware.hpp: a definition, the
-- registry that holds them, and the context that a hook reads and writes.
pub mod Parse
pub mod Headers
pub mod Columns
pub mod Rows
pub mod Results
pub mod Execute
pub mod Order
pub mod Laws
pub mod Outcome
pub mod Chunks
pub mod Denials
pub mod Closed
pub mod Checks
use quackapi.Base.{
  ℕ, suc, ◌+◌, ◌%◌, leb, Bool, true, false, not, ◌&&◌, ◌||◌, List, [], ◌∷◌, ◌++◌, Option, none,
  some, all, any, find, replace, remove, filter, length, Result, ok, err, ℤ, if◌then◌else◌,
}
use quackapi.Text.{Text, codes, text_eq, empty}
use quackapi.Keyed.{named}

pub data MiddlewarePhase : Type 0 where
  before after : MiddlewarePhase

pub record Middleware : Type 0 where
  pub name : Text
  pub phase : MiddlewarePhase
  pub group_name : Text
  pub handler_sql : Text
  pub registration_order : ℕ

pub record Context : Type 0 where
  pub method : Text
  pub path : Text
  pub route_name : Text
  pub group_name : Text
  pub request_id : Text
  pub request_body : Text
  pub headers_json : Text
  pub query_json : Text
  pub client_ip : Text
  pub auth_subject : Text
  pub status : ℤ
  pub response_body : Text
  pub response_headers : List (Text × Text)
  pub timeout_ms : ℤ
  pub elapsed_ms : ℤ
  pub middleware_failed : Bool

abbrev pub max_sql_bytes : ℕ
max_sql_bytes = 16384

abbrev pub max_definitions : ℕ
max_definitions = 64

abbrev pub max_result_rows : ℕ
max_result_rows = 64

abbrev pub max_header_bytes : ℕ
max_header_bytes = 8192

abbrev pub max_body_bytes : ℕ
max_body_bytes = 1048576

unfoldable pub phase_name : MiddlewarePhase → Text
phase_name after = codes "AFTER"
phase_name before = codes "BEFORE"

abbrev pub alpha : ℕ → Bool
alpha c = (leb b'a' c && leb c b'z') || (leb b'A' c && leb c b'Z')

abbrev pub digit : ℕ → Bool
digit c = leb b'0' c && leb c b'9'

abbrev name_char : ℕ → Bool
name_char c = alpha c || digit c || text_eq (c ∷ []) (codes "_") || text_eq (c ∷ []) (codes "-")

unfoldable pub is_middleware_name : Text → Bool
is_middleware_name name = not (empty name) && leb (length name) 128 && all name_char name

-- QuackapiMiddlewareRegistry
pub record MiddlewareRegistry : Type 0 where
  pub middlewares : List Middleware
  pub next_registration_order : ℕ

pub data RegistryError : Type 0 where
  already_exists : Text → RegistryError
  registry_full : RegistryError

abbrev pub called : Text → Middleware → Bool
called = named text_eq (λ m. m.name)

abbrev pub created : MiddlewareRegistry
created = record { middlewares = []; next_registration_order = 1 }

-- The order is a uint64_t.
abbrev pub next_order : ℕ → ℕ
next_order n = (n + 1) % 18446744073709551616

unfoldable pub add :
    Middleware → Bool → MiddlewareRegistry → Result RegistryError MiddlewareRegistry
add middleware or_replace r =
    let n = r.next_registration_order in
    elim (find (called middleware.name) r.middlewares) [
      | some it ↦
          let replacement = record middleware { registration_order = it.registration_order } in
          if or_replace
          then ok (record r {
            middlewares = replace (called middleware.name) replacement r.middlewares;
          })
          else err (already_exists middleware.name)
      | none ↦
          if leb max_definitions (length r.middlewares)
          then err registry_full
          else ok (record {
            middlewares = r.middlewares ++ record middleware { registration_order = n } ∷ [];
            next_registration_order = next_order n;
          })
    ]

unfoldable pub drop : Text → MiddlewareRegistry → Bool × MiddlewareRegistry
drop name r =
    (any (called name) r.middlewares, record r { middlewares = remove (called name) r.middlewares })

abbrev pub same_phase : MiddlewarePhase → MiddlewarePhase → Bool
same_phase before before = true
same_phase after after = true
same_phase _ _ = false

-- The two scopes of `append_scope`.
abbrev pub global_scope : MiddlewarePhase → Middleware → Bool
global_scope phase m = same_phase m.phase phase && empty m.group_name

abbrev pub group_scope : MiddlewarePhase → Text → Middleware → Bool
group_scope phase group_name m = same_phase m.phase phase && text_eq m.group_name group_name

abbrev pub of_group : MiddlewarePhase → Text → List Middleware → List Middleware
of_group phase group_name ms =
    if empty group_name then [] else filter (group_scope phase group_name) ms

unfoldable pub snapshot : MiddlewarePhase → Text → MiddlewareRegistry → List Middleware
snapshot before group_name r =
    filter (global_scope before) r.middlewares ++ of_group before group_name r.middlewares
snapshot after group_name r =
    of_group after group_name r.middlewares ++ filter (global_scope after) r.middlewares
