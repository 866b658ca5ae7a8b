-- ===== src/Types.antt =====
-- The data of src/include/quackapi_state.hpp. DuckDB's `Value`, which a parameter's bounds and default
-- hold, is a type parameter. The numbers of a route are those that its DDL admits, none negative.
use quackapi.Base.{ℕ, Bool, List}
use quackapi.Text.{Text}

pub data AuthKind : Type 0 where
  api_key jwt_hs256 : AuthKind

pub record Auth : Type 0 where
  pub name : Text
  pub kind : AuthKind
  pub header : Text
  pub secret : Text

pub record ApiKeyEntry : Type 0 where
  pub auth_name : Text
  pub key_hash : Text
  pub subject : Text

pub data ParamSource : Type 0 where
  query header cookie : ParamSource

-- A bound that is not declared has `false` and a value that is not read.
pub record ParamSpec (Value : Type 0) : Type 0 where
  pub name : Text
  pub type_name : Text
  pub source : ParamSource
  pub external_name : Text
  pub has_default : Bool
  pub default_is_null : Bool
  pub default_raw : Text
  pub default_variant : Value
  pub has_ge : Bool
  pub ge : Value
  pub has_gt : Bool
  pub gt : Value
  pub has_le : Bool
  pub le : Value
  pub has_lt : Bool
  pub lt : Value
  pub has_min_length : Bool
  pub min_length : ℕ
  pub has_max_length : Bool
  pub max_length : ℕ

pub record Queue : Type 0 where
  pub name : Text
  pub max_attempts : ℕ
  pub visibility_timeout_sec : ℕ
  pub backoff_base_sec : ℕ

pub record Group : Type 0 where
  pub name : Text
  pub prefix : Text
  pub require_auth : Text
  pub tags : Text
  pub policy : Text

pub record GraphqlRoute : Type 0 where
  pub name : Text
  pub method : Text
  pub path : Text
  pub tables : List Text
  pub require_auth : Text
  pub limit : ℕ

pub record Route (Value : Type 0) : Type 0 where
  pub name : Text
  pub method : Text
  pub pattern : Text
  pub handler_sql : Text
  pub status : ℕ
  pub require_auth : Text
  pub params : List (ParamSpec Value)
  pub body_schema : Text
  pub body_type : Text
  pub group_name : Text
  pub tags : Text
  pub max_request_bytes : ℕ
  pub rate_limit_n : ℕ
  pub rate_limit_per_sec : ℕ
  pub rate_limit_by : Text
  pub response_format : Text
  pub response_envelope : Text
  pub empty_status : ℕ
  pub empty_body : Text
  pub timeout_sec : ℕ
  pub schedule : Text

pub record RowAccessPolicy : Type 0 where
  pub name : Text
  pub arg_columns : List Text
  pub arg_types : List Text
  pub expression : Text

pub record MaskingPolicy : Type 0 where
  pub name : Text
  pub value_type : Text
  pub expression : Text

pub record RowAccessBinding : Type 0 where
  pub table_name : Text
  pub policy_name : Text
  pub columns : List Text

pub record MaskingBinding : Type 0 where
  pub table_name : Text
  pub column_name : Text
  pub policy_name : Text

pub data StreamTransport : Type 0 where
  sse ws : StreamTransport

pub record Stream : Type 0 where
  pub name : Text
  pub method : Text
  pub pattern : Text
  pub handler_sql : Text
  pub interval_ms : ℕ
  pub transport : StreamTransport
