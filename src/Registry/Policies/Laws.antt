-- ===== src/Registry/Policies/Laws.antt =====
-- The invariant of policies and bindings, and the methods on row access policies.
use quackapi.Base.{
  Bool, true, false, not, ◌&&◌, List, [], ◌∷◌, ◌++◌, any, all, replace, remove, ◌≡◌, refl, ap, ◌∙◌,
  arith, Bool-cases, inl, inr, all-imp, all-remove_if, any-append,
}
use quackapi.Text.{Text, text_eq}
use quackapi.Text.Laws.{text_eq_sym, text_eq-IsEquiv}
use quackapi.Strings.{StringUtil}
use quackapi.Keyed.{IsEquiv, Distinct}
use quackapi.Keyed.Laws.{
  append-Distinct, replace-Distinct, remove-Distinct, remove_if-Distinct, any-remove,
}
use quackapi.Keyed.Presence.{any-replace_same, any-remove_other, IsEquiv-through, IsEquiv-pair}
use quackapi.Types.{RowAccessPolicy, MaskingPolicy, RowAccessBinding, MaskingBinding}
use quackapi.Registry.Policies.{
  PolicyState, row_named, mask_named, row_bound, lower_eq, add_row_access_policy,
  drop_row_access_policy,
}

abbrev pub row_name : RowAccessPolicy → Text
row_name p = p.name

abbrev pub mask_name : MaskingPolicy → Text
mask_name p = p.name

-- The binding's policy is registered.
abbrev pub row_target : List RowAccessPolicy → RowAccessBinding → Bool
row_target rows b = any (row_named b.policy_name) rows

abbrev pub mask_target : List MaskingPolicy → MaskingBinding → Bool
mask_target masks b = any (mask_named b.policy_name) masks

-- The masking policy's name is not that of a row access policy.
abbrev pub free_of : List RowAccessPolicy → MaskingPolicy → Bool
free_of rows m = not (any (row_named m.name) rows)

abbrev pub table_of : RowAccessBinding → Text
table_of b = b.table_name

abbrev pub column_of : MaskingBinding → Text × Text
column_of b = (b.table_name, b.column_name)

module _ (strings : StringUtil) where
  abbrev pub column_eq : Text × Text → Text × Text → Bool
  column_eq a b = lower_eq strings a.0 b.0 && lower_eq strings a.1 b.1

  pub lower_eq-IsEquiv : IsEquiv (lower_eq strings)
  lower_eq-IsEquiv = IsEquiv-through text_eq strings.lower text_eq-IsEquiv

  pub column_eq-IsEquiv : IsEquiv column_eq
  column_eq-IsEquiv = IsEquiv-pair (lower_eq strings) lower_eq-IsEquiv

  -- Policy names are distinct, within each kind and between the kinds; every binding is to a policy that
  -- is registered; a table has one row access policy and a column one masking policy, up to case.
  pub record IsValid (s : PolicyState) : Type 0 where
    pub rows : Distinct text_eq row_name s.row_access_policies
    pub masks : Distinct text_eq mask_name s.masking_policies
    pub disjoint : all (free_of s.row_access_policies) s.masking_policies ≡ true
    pub row_targets : all (row_target s.row_access_policies) s.row_access_bindings ≡ true
    pub mask_targets : all (mask_target s.masking_policies) s.masking_bindings ≡ true
    pub row_tables : Distinct (lower_eq strings) table_of s.row_access_bindings
    pub mask_columns : Distinct column_eq column_of s.masking_bindings

  -- AddRowAccessPolicy, whether it throws or not, keeps the policies valid: names are distinct
  -- among both kinds together, every binding names a registered policy of its kind, and no table
  -- and no column is bound twice.
  pub add_row_access_policy-IsValid :
      (policy : RowAccessPolicy) (or_replace : Bool) (s : PolicyState)
      → IsValid s
      → IsValid (add_row_access_policy policy or_replace s).1
  unfolding add_row_access_policy
  add_row_access_policy-IsValid policy or_replace s v =
      elim (Bool-cases (any (row_named policy.name) s.row_access_policies)) [
        | inl present ↦ rw present (elim (Bool-cases or_replace) [
          | inr refuses ↦ rw refuses v
          | inl replaces ↦ rw replaces (record {
            rows =
                replace-Distinct text_eq row_name text_eq-IsEquiv policy s.row_access_policies
                  v.rows;
            masks = v.masks;
            disjoint =
                all-imp (free_of s.row_access_policies) (free_of new)
                  (λ m h. ap not (same m.name) ∙ h) s.masking_policies v.disjoint;
            row_targets =
                all-imp (row_target s.row_access_policies) (row_target new)
                  (λ b h. same b.policy_name ∙ h) s.row_access_bindings v.row_targets;
            mask_targets = v.mask_targets;
            row_tables = v.row_tables;
            mask_columns = v.mask_columns;
          })
        ])
        | inr absent ↦
            rw absent (elim (Bool-cases (any (mask_named policy.name) s.masking_policies)) [
              | inl taken ↦ rw taken v
              | inr free ↦ rw free (record {
                rows =
                    append-Distinct text_eq row_name text_eq-IsEquiv policy s.row_access_policies
                      absent v.rows;
                masks = v.masks;
                disjoint = still_free s.masking_policies free v.disjoint;
                row_targets =
                    all-imp (row_target s.row_access_policies)
                      (row_target (s.row_access_policies ++ policy ∷ []))
                      (λ b h.
                        any-append (row_named b.policy_name) s.row_access_policies (policy ∷ [])
                        ∙ rw h)
                      s.row_access_bindings v.row_targets;
                mask_targets = v.mask_targets;
                row_tables = v.row_tables;
                mask_columns = v.mask_columns;
              })
            ])
      ]
    where
      new : List RowAccessPolicy
      new = replace (row_named policy.name) policy s.row_access_policies

      same : (k : Text) → any (row_named k) new ≡ any (row_named k) s.row_access_policies
      same k = any-replace_same text_eq row_name text_eq-IsEquiv k policy s.row_access_policies

      still_free :
          (ms : List MaskingPolicy)
          → any (mask_named policy.name) ms ≡ false
          → all (free_of s.row_access_policies) ms ≡ true
          → all (free_of (s.row_access_policies ++ policy ∷ [])) ms ≡ true
      still_free [] n h = refl
      still_free (m ∷ ms) n h = ground (
        arith,
        still_free ms,
        any-append (row_named m.name) s.row_access_policies (policy ∷ []),
        text_eq_sym policy.name m.name,
      )

  -- DropRowAccessPolicy keeps the policies valid: no binding to the dropped policy is left.
  pub drop_row_access_policy-IsValid :
      (name : Text) (s : PolicyState) → IsValid s → IsValid (drop_row_access_policy name s).1
  unfolding drop_row_access_policy
  drop_row_access_policy-IsValid name s v =
      elim (Bool-cases (any (row_named name) s.row_access_policies)) [
        | inr absent ↦ rw absent v
        | inl present ↦ rw present (record {
          rows =
              remove-Distinct text_eq row_name text_eq-IsEquiv (row_named name)
                s.row_access_policies v.rows;
          masks = v.masks;
          disjoint =
              all-imp (free_of s.row_access_policies) (free_of left) kept_free s.masking_policies
                v.disjoint;
          row_targets =
              all-remove_if (row_target s.row_access_policies) (row_target left) (row_bound name)
                (λ b h other.
                  any-remove_other text_eq row_name text_eq-IsEquiv name b.policy_name
                    s.row_access_policies other h)
                s.row_access_bindings v.row_targets;
          mask_targets = v.mask_targets;
          row_tables =
              remove_if-Distinct (lower_eq strings) table_of (lower_eq-IsEquiv) (row_bound name)
                s.row_access_bindings v.row_tables;
          mask_columns = v.mask_columns;
        })
      ]
    where
      left : List RowAccessPolicy
      left = remove (row_named name) s.row_access_policies

      kept_free :
          (m : MaskingPolicy) → free_of s.row_access_policies m ≡ true → free_of left m ≡ true
      kept_free m h = ground (
        arith,
        any-remove text_eq row_name text_eq-IsEquiv (row_named m.name) (row_named name)
            s.row_access_policies,
      )
