-- ===== src/Middleware/Denials.antt =====
-- Which rows of a hook's result stop a request.
use quackapi.Base.{
  ◌+◌, Bool, true, false, not, ◌&&◌, ◌||◌, List, [], ◌∷◌, any, all, length, integer_eq,
  integer_eq_iff, ok, >>=-eq-ok, ok-injective, ◌≡◌, refl, sym, ◌∙◌, arith, Bool-cases, inl, inr,
  ◌⊎◌,
}
use quackapi.Text.{text_eq}
use quackapi.Text.Laws.{text_eq_iff}
use quackapi.Strings.{StringUtil}
use quackapi.Middleware.Columns.{Columns}
use quackapi.Middleware.Rows.{Values, Scan, Row, scan_row, scan_rows}
use quackapi.Middleware.Outcome.{
  block_inverts, denies, status_of, body_of, counted, scan_row_inverts,
}

module _ {V : Type 0} (strings : StringUtil) (values : Values V) (columns : Columns) where
  abbrev denied : Row strings values → Bool
  denied = denies strings values columns

  -- A row that denies the request with the status and the body of the scan, or one that does not deny it.
  abbrev pub says : Scan → Row strings values → Bool
  says scan row =
      not (denied row)
      || (integer_eq scan.blocked_status (status_of strings values columns row)
          && text_eq scan.blocked_body (body_of strings values columns row))

  -- A blocked scan keeps its status and its body.
  abbrev pub Keeps : Scan → Scan → Type 0
  Keeps scan scan' =
      (scan.blocked ≡ false)
      ⊎ ((scan'.blocked_status ≡ scan.blocked_status) × (scan'.blocked_body ≡ scan.blocked_body))

  scan_row-says :
      (row : Row strings values) (scan scan' : Scan)
      → scan_row strings values columns row scan ≡ ok scan'
      → (scan'.blocked ≡ (scan.blocked || denied row))
        × (says scan' row ≡ true)
        × Keeps scan scan'
        × (scan'.row_count ≡ scan.row_count + 1)
  scan_row-says row scan scan' h =
      let (found, (read, few, end)) = scan_row_inverts strings values columns row scan scan' h in
      elim end [
        | inl (allowed, e) ↦ rw e (ground arith, ground arith, inr (refl, refl), refl)
        | inr (stops, b) ↦
            let status = status_of strings values columns row in
            let body = body_of strings values columns row in
            let (valid, short, agrees, e) =
              block_inverts strings status body (counted strings values columns scan found) scan'
                b in
            rw e (
              ground arith,
              ground (arith, (integer_eq_iff status status).1 refl, (text_eq_iff body body).1 refl),
              elim agrees [
                | inl first ↦ inl first
                | inr (same_status, same_body) ↦
                    inr (
                      sym ((integer_eq_iff _ _).0 same_status),
                      sym ((text_eq_iff _ _).0 same_body),
                    )
              ],
              refl,
            )
      ]

  says_later :
      (row : Row strings values) (next scan' : Scan)
      → (denied row ≡ true → next.blocked ≡ true)
      → says next row ≡ true
      → Keeps next scan'
      → says scan' row ≡ true
  says_later row next scan' blocks s (inl free) = ground (arith, blocks)
  says_later row next scan' blocks s (inr (same_status, same_body)) = rw (same_status, same_body) s

  Keeps-trans :
      (scan next scan' : Scan)
      → (scan.blocked ≡ true → next.blocked ≡ true)
      → Keeps scan next
      → Keeps next scan'
      → Keeps scan scan'
  Keeps-trans scan next scan' blocks (inl free) k = inl free
  Keeps-trans scan next scan' blocks (inr (s, b)) (inl free) = elim (Bool-cases scan.blocked) [
    | inr f ↦ inl f
    | inl t ↦ absurd (ground (arith, blocks t))
  ]
  Keeps-trans scan next scan' blocks (inr (s, b)) (inr (s', b')) = inr (s' ∙ s, b' ∙ b)

  -- The rows of a scan that is not stopped.
  pub scan_rows-says :
      (rows : List (Row strings values)) (scan scan' : Scan)
      → scan_rows strings values columns rows scan ≡ ok scan'
      → (scan'.blocked ≡ (scan.blocked || any denied rows))
        × (all (says scan') rows ≡ true)
        × Keeps scan scan'
        × (scan'.row_count ≡ scan.row_count + length rows)
  unfolding scan_rows
  scan_rows-says [] scan scan' h =
      let e : scan ≡ scan' = ok-injective h in
      rw (← e) (ground arith, refl, inr (refl, refl), omega arith)
  scan_rows-says (row ∷ rows) scan scan' h =
      let (next, step, rest) = >>=-eq-ok (scan_row strings values columns row scan) _ h in
      let (b, s, k, n) = scan_row-says row scan next step in
      let (bs, ss, ks, ns) = scan_rows-says rows next scan' rest in
      let row_says : says scan' row ≡ true = says_later row next scan' (λ d. ground arith) s ks in
      (
        ground arith,
        ground arith,
        Keeps-trans scan next scan' (λ t. ground arith) k ks,
        omega (arith, ns, n),
      )
