-- ===== src/Middleware/Chunks.antt =====
-- The chunks of a hook's result, read as one list of rows.
use quackapi.Base.{
  ℕ, true, false, List, [], ◌∷◌, ◌++◌, Option, none, some, any, all, length, ok, ◌>>=◌, >>=-eq-ok,
  ok-injective, err-ne-ok, Result-cases, Option-cases, ◌≡◌, refl, sym, ap, ◌∙◌, subst, ◌≤◌, arith,
  Bool-cases, inl, inr, ◌⊎◌,
}
use quackapi.Strings.{StringUtil}
use quackapi.Middleware.{max_result_rows}
use quackapi.Middleware.Columns.{Columns, get_result_columns}
use quackapi.Middleware.Rows.{Values, Scan, no_rows, Row, scan_row, scan_rows}
use quackapi.Middleware.Results.{
  Fetches, no_chunk, fetch_throws, chunk, QueryResult, contract, read_chunks, read_result,
}
use quackapi.Middleware.Outcome.{Sound, denies, no_rows-Sound, scan_rows-Sound}
use quackapi.Middleware.Denials.{says, scan_rows-says}

module _ {V : Type 0} where
  -- The rows up to the end of the result.
  abbrev pub rows_of : Fetches V → List (ℕ → V)
  rows_of no_chunk = []
  rows_of fetch_throws = []
  rows_of (chunk [] later) = []
  rows_of (chunk (row ∷ rows) later) = (row ∷ rows) ++ rows_of later

module _ {V : Type 0} (strings : StringUtil) (values : Values V) where
  scan_rows-append :
      (columns : Columns) (xs ys : List (Row strings values)) (scan : Scan)
      → scan_rows strings values columns (xs ++ ys) scan
        ≡ (scan_rows strings values columns xs scan >>= scan_rows strings values columns ys)
  unfolding scan_rows
  scan_rows-append columns [] ys scan = refl
  scan_rows-append columns (x ∷ xs) ys scan =
      elim (Result-cases (scan_row strings values columns x scan)) [
        | inr (thrown, e) ↦ rw e refl
        | inl (next, e) ↦ rw e (scan_rows-append columns xs ys next)
      ]

  -- Past the first row, the chunks are read as the rows that they hold.
  chunks_as_rows :
      (result : QueryResult V) (columns : Columns) (fetches : Fetches V) (scan scan' : Scan)
      → read_chunks strings values result (some columns) fetches scan ≡ ok scan'
      → scan_rows strings values columns (rows_of fetches) scan ≡ ok scan'
  unfolding read_chunks contract scan_rows
  chunks_as_rows result columns no_chunk scan scan' h = h
  chunks_as_rows result columns fetch_throws scan scan' h = absurd (err-ne-ok h)
  chunks_as_rows result columns (chunk [] later) scan scan' h = h
  chunks_as_rows result columns (chunk (row ∷ rows) later) scan scan' h =
      let (next, these, those) =
        >>=-eq-ok (scan_rows strings values columns (row ∷ rows) scan) _ h in
      scan_rows-append columns (row ∷ rows) (rows_of later) scan
      ∙ ap (λ r. r >>= scan_rows strings values columns (rows_of later)) these
      ∙ chunks_as_rows result columns later next scan' those

  -- What the rows of a result say together: `columns` are those that the contract finds.
  pub record Blocks (result : QueryResult V) (columns : Columns) (scan : Scan) : Type 0 where
    pub contract_holds : get_result_columns strings result.names result.types ≡ some columns
    pub few_rows : length (rows_of result.fetches) ≤ max_result_rows
    pub by_denials : scan.blocked ≡ any (denies strings values columns) (rows_of result.fetches)
    pub one_answer : all (says strings values columns scan) (rows_of result.fetches) ≡ true

  -- The result has no row, and the hook does nothing, or its rows have a say.
  abbrev pub Says : QueryResult V → Scan → Type 0
  Says result scan =
      ((rows_of result.fetches ≡ []) × (scan ≡ no_rows))
      ⊎ ((columns : Columns) × Blocks result columns scan)

  says_of_rows :
      (result : QueryResult V) (columns : Columns) (scan : Scan)
      → get_result_columns strings result.names result.types ≡ some columns
      → scan_rows strings values columns (rows_of result.fetches) no_rows ≡ ok scan
      → Sound strings scan × Blocks result columns scan
  says_of_rows result columns scan c h =
      let sound = scan_rows-Sound strings values columns _ no_rows scan h (no_rows-Sound strings) in
      let (b, s, k, n) = scan_rows-says strings values columns _ no_rows scan h in
      (
        sound,
        record {
          contract_holds = c;
          few_rows = omega (arith, n, sound.few_rows);
          by_denials = b;
          one_answer = s;
        },
      )

  read_chunks-Says :
      (result : QueryResult V) (fetches : Fetches V) (scan : Scan)
      → result.fetches ≡ fetches
      → read_chunks strings values result none fetches no_rows ≡ ok scan
      → Sound strings scan × Says result scan
  unfolding read_chunks contract
  read_chunks-Says result no_chunk scan e h =
      rw (← ok-injective h) (no_rows-Sound strings, inl (ap rows_of e, refl))
  read_chunks-Says result fetch_throws scan e h = absurd (err-ne-ok h)
  read_chunks-Says result (chunk [] later) scan e h =
      rw (← ok-injective h) (no_rows-Sound strings, inl (ap rows_of e, refl))
  read_chunks-Says result (chunk (row ∷ rows) later) scan e h =
      elim (Option-cases (get_result_columns strings result.names result.types)) [
        | inl missing ↦ absurd (err-ne-ok (rw (missing, contract, read_chunks) at h))
        | inr (columns, c) ↦
            let checked : read_chunks strings values result (some columns)
                  (chunk (row ∷ rows) later) no_rows
                ≡ ok scan =
              rw (c, contract, read_chunks) at h in
            let as_rows =
              chunks_as_rows result columns (chunk (row ∷ rows) later) no_rows scan checked in
            let (sound, blocks) = says_of_rows result columns scan c (
              subst (λ f. scan_rows strings values columns (rows_of f) no_rows ≡ ok scan) (sym e)
                as_rows) in
            (sound, inr (columns, blocks))
      ]

  -- Where Execute and the loop over the chunks do not stop with a failure, Execute returned a result without an error
  -- and before the deadline. Without a row the hook does nothing. With rows, its columns meet the contract, its rows are
  -- at most 64, it blocks the request exactly when a row has `allow = false`, all such rows have the status and the
  -- body of the block, these are a status from 100 to 599 and a body of at most 1 MiB, and its headers are safe and at most
  -- one for each row.
  pub read_result_blocks :
      (executed : Option (QueryResult V)) (scan : Scan)
      → read_result strings values executed ≡ ok scan
      → (result : QueryResult V) × (executed ≡ some result)
        × (result.has_error ≡ false)
        × (result.expired ≡ false)
        × (result.late ≡ false)
        × Sound strings scan
        × Says result scan
  unfolding read_result
  read_result_blocks none scan h = absurd (err-ne-ok h)
  read_result_blocks (some result) scan h = elim (Bool-cases result.expired) [
    | inl expired ↦ absurd (err-ne-ok (rw expired at h))
    | inr in_time ↦ elim (Bool-cases result.has_error) [
      | inl error ↦ absurd (err-ne-ok (rw (in_time, error) at h))
      | inr ran ↦
          let (read, chunks, rest) =
            >>=-eq-ok (read_chunks strings values result none result.fetches no_rows) _
              (rw (in_time, ran) at h) in
          elim (Bool-cases result.late) [
            | inl late ↦ absurd (err-ne-ok (rw late at rest))
            | inr ended ↦
                let same : read ≡ scan = ok-injective (rw ended at rest) in
                let (sound, says_so) = read_chunks-Says result result.fetches read refl chunks in
                (result, refl, ran, in_time, ended, rw (← same) sound, rw (← same) says_so)
          ]
    ]
  ]
