-- ===== src/Middleware/Results.antt =====
-- The result of a hook, in ExecuteQuackapiMiddleware: from Execute to the end of the chunks.
use quackapi.Base.{
  ℕ, Bool, List, [], ◌∷◌, Option, none, some, Result, ok, err, ◌>>=◌, if◌then◌else◌,
}
use quackapi.Text.{Text}
use quackapi.Strings.{StringUtil}
use quackapi.Middleware.Columns.{Columns, LogicalTypeId, get_result_columns}
use quackapi.Middleware.Rows.{Values, Stop, failed, timed_out, Scan, no_rows, scan_rows}

-- What Fetch gives, one call after the other.
pub data Fetches (V : Type 0) : Type 0 where
  no_chunk fetch_throws : Fetches V
  chunk : List (ℕ → V) → Fetches V → Fetches V

-- A result that Execute returned; `expired` and `late` are `deadline.Expired()` before and after the rows.
pub record QueryResult (V : Type 0) : Type 0 where
  pub has_error : Bool
  pub expired : Bool
  pub names : List Text
  pub types : List LogicalTypeId
  pub fetches : Fetches V
  pub late : Bool

module _ {V : Type 0} (strings : StringUtil) (values : Values V) where
  -- The contract is checked at the first row.
  unfoldable pub contract : QueryResult V → Option Columns → Result Stop Columns
  contract result (some columns) = ok columns
  contract result none = elim (get_result_columns strings result.names result.types) [
    | none ↦ err failed
    | some columns ↦ ok columns
  ]

  unfoldable pub read_chunks : QueryResult V → Option Columns → Fetches V → Scan → Result Stop Scan
  unfolding contract
  read_chunks result checked no_chunk scan = ok scan
  read_chunks result checked fetch_throws scan = err failed
  read_chunks result checked (chunk [] later) scan = ok scan
  read_chunks result checked (chunk (row ∷ rows) later) scan =
      contract result checked >>= λ columns.
      scan_rows strings values columns (row ∷ rows) scan >>= read_chunks result (some columns) later

  -- From Execute to the end of the rows.
  unfoldable pub read_result : Option (QueryResult V) → Result Stop Scan
  unfolding read_chunks
  read_result none = err failed
  read_result (some result) =
      if result.expired
      then err timed_out
      else if result.has_error
      then err failed
      else (read_chunks result none result.fetches no_rows >>= λ scan.
          if result.late then err timed_out else ok scan)
