-- ===== src/Registry.antt =====
-- QuackapiState of src/quackapi_registry.cpp: what CREATE, DROP and ALTER register. Each group of
-- members that one mutex guards is a record, and a method is one step on it: it runs under the mutex.
-- A method that throws returns the error with the state that it has then.
pub mod Routes
pub mod Named
pub mod Streams
pub mod Auths
pub mod Policies
pub mod Graphql
pub mod Servers
use quackapi.Base.{Result}
use quackapi.Text.{Text}

-- One constructor for each message of InvalidInputException, with the names that it shows.
pub data Error : Type 0 where
  route_exists : Text → Error
  route_path_used : Text → Text → Text → Error
  stream_exists : Text → Error
  stream_path_used : Text → Text → Text → Error
  group_exists : Text → Error
  auth_exists : Text → Error
  auth_missing : Text → Error
  auth_not_api_key : Text → Error
  raw_key_empty : Error
  subject_empty : Error
  queue_exists : Text → Error
  row_access_policy_exists : Text → Error
  row_access_policy_missing : Text → Error
  row_access_policy_arity : Text → Error
  table_has_policy : Text → Text → Error
  masking_policy_exists : Text → Error
  masking_policy_missing : Text → Error
  column_has_policy : Text → Text → Text → Error
  policy_name_taken : Text → Error
  table_name_empty : Error
  graphql_table_exists : Text → Error
  graphql_name_empty : Error
  graphql_path_relative : Error
  graphql_tables_empty : Error
  graphql_method : Text → Error
  graphql_path_reserved : Text → Error
  graphql_schema_reserved : Text → Error
  graphql_path_used : Text → Text → Error
  graphql_schema_collides : Text → Text → Error
  graphql_route_exists : Text → Error
  already_serving : Text → Error
  server_not_constructed : Error

-- What a method of the state `S` leaves behind.
abbrev pub Outcome : Type 0 → Type 0 → Type 0
Outcome S A = Result Error A × S
