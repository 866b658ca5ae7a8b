-- ===== src/Registry/Policies/MaskBindings.antt =====
-- Binding and unbinding of masking policies.
use quackapi.Base.{
  Bool, true, not, ◌&&◌, List, [], ◌∷◌, ◌++◌, any, all, find, replace, remove, ◌≡◌, ◌∙◌, Bool-cases,
  Option-cases, inl, inr, all-append, all-replace, all-remove, find-none,
}
use quackapi.Text.{Text, text_eq}
use quackapi.Strings.{StringUtil}
use quackapi.Keyed.{Distinct}
use quackapi.Keyed.Laws.{append-Distinct, replace-Distinct, remove-Distinct}
use quackapi.Types.{MaskingBinding}
use quackapi.Registry.Policies.{
  PolicyState, mask_named, on_column, bind_masking_policy, unbind_masking_policy,
}
use quackapi.Registry.Policies.Laws.{mask_target, column_of, column_eq, column_eq-IsEquiv, IsValid}

module _ (strings : StringUtil) where
  -- The bindings of the state, put by others that keep the invariant's two clauses on them.
  with_bindings :
      (s : PolicyState) (bs : List MaskingBinding)
      → all (mask_target s.masking_policies) bs ≡ true
      → Distinct (column_eq strings) column_of bs
      → IsValid strings s
      → IsValid strings (record s { masking_bindings = bs })
  with_bindings s bs t d v = record {
    rows = v.rows;
    masks = v.masks;
    disjoint = v.disjoint;
    row_targets = v.row_targets;
    mask_targets = t;
    row_tables = v.row_tables;
    mask_columns = d;
  }

  -- BindMaskingPolicy, whether it throws or not, keeps the policies valid: the policy that is
  -- bound is registered, and a column has one binding at most.
  pub bind_masking_policy-IsValid :
      (b : MaskingBinding) (or_replace : Bool) (s : PolicyState)
      → IsValid strings s
      → IsValid strings (bind_masking_policy strings b or_replace s).1
  unfolding bind_masking_policy
  bind_masking_policy-IsValid b or_replace s v =
      let p = on_column strings b.table_name b.column_name in
      let eq = column_eq-IsEquiv strings in
      elim (Bool-cases (any (mask_named b.policy_name) s.masking_policies)) [
        | inr missing ↦ rw missing v
        | inl known ↦ rw known (elim (Option-cases (find p s.masking_bindings)) [
          | inl free ↦ rw free (
              with_bindings s (s.masking_bindings ++ b ∷ [])
                (all-append (mask_target s.masking_policies) s.masking_bindings (b ∷ [])
                  ∙ rw (v.mask_targets, known))
                (append-Distinct (column_eq strings) column_of eq b s.masking_bindings
                  (find-none p s.masking_bindings free) v.mask_columns)
                v)
          | inr (old, found) ↦
              rw found
                (elim (Bool-cases (not or_replace && not (text_eq old.policy_name b.policy_name))) [
                  | inl refuses ↦ rw refuses v
                  | inr takes ↦ rw takes (
                      with_bindings s (replace p b s.masking_bindings)
                        (all-replace (mask_target s.masking_policies) p b s.masking_bindings known
                          v.mask_targets)
                        (replace-Distinct (column_eq strings) column_of eq b s.masking_bindings
                          v.mask_columns)
                        v)
                ])
        ])
      ]

  -- ALTER TABLE … UNSET MASKING POLICY.
  pub unbind_masking_policy-IsValid :
      (table_name column_name : Text) (s : PolicyState)
      → IsValid strings s
      → IsValid strings (unbind_masking_policy strings table_name column_name s).1
  unfolding unbind_masking_policy
  unbind_masking_policy-IsValid table_name column_name s v =
      let p = on_column strings table_name column_name in
      elim (Bool-cases (any p s.masking_bindings)) [
        | inr absent ↦ rw absent v
        | inl present ↦ rw present (
            with_bindings s (remove p s.masking_bindings)
              (all-remove (mask_target s.masking_policies) p s.masking_bindings v.mask_targets)
              (remove-Distinct (column_eq strings) column_of (column_eq-IsEquiv strings) p
                s.masking_bindings v.mask_columns)
              v)
      ]
