-- ===== src/Registry/Policies/Bindings.antt =====
-- Binding and unbinding of row access policies.
use quackapi.Base.{
  Bool, true, ◌||◌, [], ◌∷◌, ◌++◌, none, ◌==◌, any, find, replace, length, ◌≡◌, ◌∙◌, Bool-cases,
  Option-cases, inl, inr, all-append, all-replace, all-remove, find-none,
}
use quackapi.Text.{Text, text_eq}
use quackapi.Strings.{StringUtil}
use quackapi.Keyed.Laws.{append-Distinct, replace-Distinct, remove-Distinct, find-any}
use quackapi.Types.{RowAccessBinding}
use quackapi.Registry.Policies.{
  PolicyState, row_named, lower_eq, on_table, row_bound_to, bind_row_access_policy,
  unbind_row_access_policy,
}
use quackapi.Registry.Policies.Laws.{row_target, table_of, lower_eq-IsEquiv, IsValid}

module _ (strings : StringUtil) where
  rebound :
      (b : RowAccessBinding) (s : PolicyState)
      → row_target s.row_access_policies b ≡ true
      → IsValid strings s
      → IsValid strings (record s {
        row_access_bindings = replace (on_table strings b.table_name) b s.row_access_bindings;
      })
  rebound b s t v = record {
    rows = v.rows;
    masks = v.masks;
    disjoint = v.disjoint;
    row_targets =
        all-replace (row_target s.row_access_policies) (on_table strings b.table_name) b
          s.row_access_bindings t v.row_targets;
    mask_targets = v.mask_targets;
    row_tables =
        replace-Distinct (lower_eq strings) table_of (lower_eq-IsEquiv strings) b
          s.row_access_bindings v.row_tables;
    mask_columns = v.mask_columns;
  }

  newly_bound :
      (b : RowAccessBinding) (s : PolicyState)
      → row_target s.row_access_policies b ≡ true
      → find (on_table strings b.table_name) s.row_access_bindings ≡ none
      → IsValid strings s
      → IsValid strings (record s { row_access_bindings = s.row_access_bindings ++ b ∷ [] })
  newly_bound b s t free v = record {
    rows = v.rows;
    masks = v.masks;
    disjoint = v.disjoint;
    row_targets =
        all-append (row_target s.row_access_policies) s.row_access_bindings (b ∷ [])
        ∙ rw (v.row_targets, t);
    mask_targets = v.mask_targets;
    row_tables =
        append-Distinct (lower_eq strings) table_of (lower_eq-IsEquiv strings) b
          s.row_access_bindings (find-none _ s.row_access_bindings free) v.row_tables;
    mask_columns = v.mask_columns;
  }

  -- BindRowAccessPolicy, whether it throws or not, keeps the policies valid: the policy that is
  -- bound is registered, and a table has one binding at most.
  pub bind_row_access_policy-IsValid :
      (b : RowAccessBinding) (or_replace : Bool) (s : PolicyState)
      → IsValid strings s
      → IsValid strings (bind_row_access_policy strings b or_replace s).1
  unfolding bind_row_access_policy
  bind_row_access_policy-IsValid b or_replace s v =
      elim (Option-cases (find (row_named b.policy_name) s.row_access_policies)) [
        | inl missing ↦ rw (missing, bind_row_access_policy) v
        | inr (pol, known) ↦
            let target = find-any (row_named b.policy_name) s.row_access_policies pol known in
            elim (Bool-cases (length b.columns == length pol.arg_columns)) [
              | inr arity ↦ rw (known, bind_row_access_policy) (rw arity v)
              | inl fits ↦
                  elim (Option-cases (find (on_table strings b.table_name) s.row_access_bindings)) [
                    | inl free ↦
                        rw (known, bind_row_access_policy)
                          (rw fits (rw (free) (newly_bound b s target free v)))
                    | inr (old, found) ↦
                        elim (Bool-cases (text_eq old.policy_name b.policy_name || or_replace)) [
                          | inl takes ↦
                              rw (known, bind_row_access_policy)
                                (rw fits (rw found (rw takes (rebound b s target v))))
                          | inr refuses ↦
                              rw (known, bind_row_access_policy) (rw fits (rw found (rw refuses v)))
                        ]
                  ]
            ]
      ]

  -- ALTER TABLE … DROP ROW ACCESS POLICY.
  pub unbind_row_access_policy-IsValid :
      (table_name policy_name : Text) (s : PolicyState)
      → IsValid strings s
      → IsValid strings (unbind_row_access_policy strings table_name policy_name s).1
  unfolding unbind_row_access_policy
  unbind_row_access_policy-IsValid table_name policy_name s v =
      let p = row_bound_to strings table_name policy_name in
      elim (Bool-cases (any p s.row_access_bindings)) [
        | inr absent ↦ rw absent v
        | inl present ↦ rw present (record {
          rows = v.rows;
          masks = v.masks;
          disjoint = v.disjoint;
          row_targets =
              all-remove (row_target s.row_access_policies) p s.row_access_bindings v.row_targets;
          mask_targets = v.mask_targets;
          row_tables =
              remove-Distinct (lower_eq strings) table_of (lower_eq-IsEquiv strings) p
                s.row_access_bindings v.row_tables;
          mask_columns = v.mask_columns;
        })
      ]
