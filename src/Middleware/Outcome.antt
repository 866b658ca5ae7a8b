-- ===== src/Middleware/Outcome.antt =====
-- What a request is left with after its hooks.
use quackapi.Base.{
  ℕ, ◌+◌, ◌≤◌, ltb, Bool, true, false, not, ◌&&◌, ◌||◌, List, [], ◌∷◌, ◌++◌, all, all-append,
  length, length-append, ℤ, integer_eq, ok, >>=-eq-ok, err-ne-ok, ok-injective, ◌≡◌, refl, sym, ◌∙◌,
  subst, arith, Bool-cases, Option-cases, Option, inl, inr, ◌⊎◌,
}
use quackapi.Text.{Text, text_eq}
use quackapi.Strings.{StringUtil}
use quackapi.Middleware.{max_result_rows, max_body_bytes}
use quackapi.Middleware.Headers.{is_safe_response_header}
use quackapi.Middleware.Columns.{Columns}
use quackapi.Middleware.Rows.{
  Values, Scan, no_rows, Row, cell, is_valid_http_status, read_header, headers_of, block, scan_row,
  scan_rows, status_or, body_or,
}

-- What holds of the loop's variables: a block has a status and a body that HTTP admits, and the headers are safe and
-- no more than the rows.
pub record Sound (strings : StringUtil) (scan : Scan) : Type 0 where
  pub status_valid : is_valid_http_status scan.blocked_status ≡ true
  pub body_short : length scan.blocked_body ≤ max_body_bytes
  pub headers_safe : all (λ h. is_safe_response_header strings h.0 h.1) scan.headers ≡ true
  pub few_headers : length scan.headers ≤ scan.row_count
  pub few_rows : scan.row_count ≤ max_result_rows

module _ (strings : StringUtil) where
  pub no_rows-Sound : Sound strings no_rows
  unfolding is_valid_http_status
  no_rows-Sound = record {
    status_valid = refl;
    body_short = omega arith;
    headers_safe = refl;
    few_headers = omega arith;
    few_rows = omega arith;
  }

  read_header-safe :
      (name_null value_null : Bool) (name value : Text) (found : List (Text × Text))
      → read_header strings name_null value_null name value ≡ ok found
      → (all (λ h. is_safe_response_header strings h.0 h.1) found ≡ true) × (length found ≤ 1)
  unfolding read_header
  read_header-safe true true name value found h = rw (← ok-injective h) (refl, omega arith)
  read_header-safe false false name value found h =
      elim (Bool-cases (is_safe_response_header strings name value)) [
        | inl safe ↦ rw (← ok-injective (rw safe at h)) (rw safe refl, omega arith)
        | inr unsafe ↦ absurd (err-ne-ok (rw unsafe at h))
      ]
  read_header-safe true false name value found h = absurd (err-ne-ok h)
  read_header-safe false true name value found h = absurd (err-ne-ok h)

  -- A row that blocks where one did before says the same again.
  abbrev pub Agrees : ℤ → Text → Scan → Type 0
  Agrees status body scan =
      (scan.blocked ≡ false)
      ⊎ ((integer_eq scan.blocked_status status ≡ true) × (text_eq scan.blocked_body body ≡ true))

  pub block_inverts :
      (status : ℤ) (body : Text) (scan scan' : Scan)
      → block status body scan ≡ ok scan'
      → (is_valid_http_status status ≡ true)
        × (length body ≤ max_body_bytes)
        × Agrees status body scan
        × (scan' ≡ record scan { blocked = true; blocked_status = status; blocked_body = body })
  unfolding block
  block_inverts status body scan scan' h = elim (Bool-cases (is_valid_http_status status)) [
    | inr invalid ↦ absurd (err-ne-ok (rw invalid at h))
    | inl valid ↦ elim (Bool-cases (ltb max_body_bytes (length body))) [
      | inl long ↦ absurd (err-ne-ok (rw (valid, long) at h))
      | inr short ↦
          elim (Bool-cases (
            scan.blocked
            && (not (integer_eq scan.blocked_status status)
                || not (text_eq scan.blocked_body body)))) [
                  | inl differs ↦ absurd (err-ne-ok (rw (valid, short, differs) at h))
                  | inr agrees ↦ (
                    valid,
                    ground arith,
                    ground arith,
                    sym (ok-injective (rw (valid, short, agrees) at h)),
                  )
                ]
    ]
  ]

module _ {V : Type 0} (strings : StringUtil) (values : Values V) (columns : Columns) where
  open values use {is_null, get_bool, get_int32, to_text}

  abbrev pub value_of : Option ℕ → Row strings values → V
  value_of = cell strings values

  -- A row with `allow = false`, its status and its body.
  abbrev pub denies : Row strings values → Bool
  denies row = not (get_bool (value_of columns.allow_col row))

  abbrev pub status_of : Row strings values → ℤ
  status_of row = status_or strings values (value_of columns.status_col row)

  abbrev pub body_of : Row strings values → Text
  body_of row = body_or strings values (value_of columns.body_col row)

  abbrev pub counted : Scan → List (Text × Text) → Scan
  counted scan found = record scan {
    row_count = scan.row_count + 1;
    headers = scan.headers ++ found;
  }

  -- What the row does to a scan that it does not stop.
  abbrev pub Scanned : Row strings values → Scan → Scan → List (Text × Text) → Type 0
  Scanned row scan scan' found =
      (headers_of strings values columns row ≡ ok found)
      × (scan.row_count + 1 ≤ max_result_rows)
      × (((denies row ≡ false) × (scan' ≡ counted scan found))
          ⊎ ((denies row ≡ true)
              × (block (status_of row) (body_of row) (counted scan found) ≡ ok scan')))

  pub scan_row_inverts :
      (row : Row strings values) (scan scan' : Scan)
      → scan_row strings values columns row scan ≡ ok scan'
      → (found : List (Text × Text)) × Scanned row scan scan' found
  unfolding scan_row
  scan_row_inverts row scan scan' h =
      let allow = value_of columns.allow_col row in
      let status = value_of columns.status_col row in
      let body = value_of columns.body_col row in
      elim (Bool-cases (ltb max_result_rows (scan.row_count + 1))) [
        | inl many ↦ absurd (err-ne-ok (rw many at h))
        | inr few ↦ elim (Bool-cases (is_null allow)) [
          | inl null ↦ absurd (err-ne-ok (rw (few, null) at h))
          | inr bool ↦
              elim (Bool-cases (get_bool allow && (not (is_null status) || not (is_null body)))) [
                | inl edits ↦ absurd (err-ne-ok (rw (few, bool, edits) at h))
                | inr plain ↦
                    let (found, read, rest) =
                      >>=-eq-ok (headers_of strings values columns row) _
                        (rw (few, bool, plain) at h) in
                    elim (Bool-cases (get_bool allow)) [
                      | inl allowed ↦ (
                        found,
                        (
                          read,
                          ground arith,
                          inl (ground arith, sym (ok-injective (rw allowed at rest))),
                        ),
                      )
                      | inr denied ↦
                          (found, (read, ground arith, inr (ground arith, rw denied at rest)))
                    ]
              ]
        ]
      ]

  headers_of-safe :
      (row : Row strings values) (found : List (Text × Text))
      → headers_of strings values columns row ≡ ok found
      → (all (λ h. is_safe_response_header strings h.0 h.1) found ≡ true) × (length found ≤ 1)
  unfolding headers_of
  headers_of-safe row found h = elim (Option-cases columns.header_name_col) [
    | inl missing ↦ rw (← ok-injective (rw (missing, headers_of) at h)) (refl, omega arith)
    | inr (col, there) ↦ read_header-safe strings _ _ _ _ found (rw (there, headers_of) at h)
  ]

  counted-Sound :
      (scan : Scan) (found : List (Text × Text))
      → scan.row_count + 1 ≤ max_result_rows
      → (all (λ h. is_safe_response_header strings h.0 h.1) found ≡ true) × (length found ≤ 1)
      → Sound strings scan
      → Sound strings (counted scan found)
  counted-Sound scan found few (safe, single) v = record {
    status_valid = v.status_valid;
    body_short = v.body_short;
    headers_safe = all-append _ scan.headers found ∙ ground (arith, v.headers_safe);
    few_headers = omega (arith, length-append scan.headers found, v.few_headers);
    few_rows = few;
  }

  scan_row-Sound :
      (row : Row strings values) (scan scan' : Scan)
      → scan_row strings values columns row scan ≡ ok scan'
      → Sound strings scan
      → Sound strings scan'
  scan_row-Sound row scan scan' h v =
      let (found, (read, few, end)) = scan_row_inverts row scan scan' h in
      let counts = counted-Sound scan found few (headers_of-safe row found read) v in
      elim end [
        | inl (allowed, e) ↦ rw e counts
        | inr (denied, b) ↦
            let (valid, short, agrees, e) =
              block_inverts strings (status_of row) (body_of row) (counted scan found) scan' b in
            rw e (record {
              status_valid = valid;
              body_short = short;
              headers_safe = counts.headers_safe;
              few_headers = counts.few_headers;
              few_rows = counts.few_rows;
            })
      ]

  pub scan_rows-Sound :
      (rows : List (Row strings values)) (scan scan' : Scan)
      → scan_rows strings values columns rows scan ≡ ok scan'
      → Sound strings scan
      → Sound strings scan'
  unfolding scan_rows
  scan_rows-Sound [] scan scan' h v = subst (Sound strings) (ok-injective h) v
  scan_rows-Sound (row ∷ rows) scan scan' h v =
      let (next, step, rest) = >>=-eq-ok (scan_row strings values columns row scan) _ h in
      scan_rows-Sound rows next scan' rest (scan_row-Sound row scan next step v)
