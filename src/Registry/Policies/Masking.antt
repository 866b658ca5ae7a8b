-- ===== src/Registry/Policies/Masking.antt =====
-- Creating and dropping of masking policies.
use quackapi.Base.{
  Bool, true, List, [], ◌∷◌, ◌++◌, any, all, replace, remove, ◌≡◌, refl, ◌∙◌, arith, Bool-cases,
  inl, inr, all-imp, all-remove_if, all-append, all-remove, any-append,
}
use quackapi.Text.{Text, text_eq}
use quackapi.Text.Laws.{text_eq_iff, text_eq-IsEquiv}
use quackapi.Strings.{StringUtil}
use quackapi.Keyed.Laws.{append-Distinct, replace-Distinct, remove-Distinct, remove_if-Distinct}
use quackapi.Keyed.Presence.{any-replace_same, any-remove_other}
use quackapi.Types.{MaskingPolicy}
use quackapi.Registry.Policies.{
  PolicyState, row_named, mask_named, mask_bound, add_masking_policy, drop_masking_policy,
}
use quackapi.Registry.Policies.Laws.{
  mask_name, mask_target, free_of, column_of, column_eq, column_eq-IsEquiv, IsValid,
}

module _ (strings : StringUtil) where
  -- AddMaskingPolicy, whether it throws or not, keeps the policies valid.
  pub add_masking_policy-IsValid :
      (policy : MaskingPolicy) (or_replace : Bool) (s : PolicyState)
      → IsValid strings s
      → IsValid strings (add_masking_policy policy or_replace s).1
  unfolding add_masking_policy
  add_masking_policy-IsValid policy or_replace s v =
      elim (Bool-cases (any (mask_named policy.name) s.masking_policies)) [
        | inl present ↦ rw present (elim (Bool-cases or_replace) [
          | inr refuses ↦ rw refuses v
          | inl replaces ↦ rw replaces (record {
            rows = v.rows;
            masks =
                replace-Distinct text_eq mask_name text_eq-IsEquiv policy s.masking_policies
                  v.masks;
            disjoint = replaced_free s.masking_policies present v.disjoint;
            row_targets = v.row_targets;
            mask_targets =
                all-imp (mask_target s.masking_policies) (mask_target new)
                  (λ b h.
                    any-replace_same text_eq mask_name text_eq-IsEquiv b.policy_name policy
                      s.masking_policies
                    ∙ h)
                  s.masking_bindings v.mask_targets;
            row_tables = v.row_tables;
            mask_columns = v.mask_columns;
          })
        ])
        | inr absent ↦
            rw absent (elim (Bool-cases (any (row_named policy.name) s.row_access_policies)) [
              | inl taken ↦ rw taken v
              | inr free ↦ rw free (record {
                rows = v.rows;
                masks =
                    append-Distinct text_eq mask_name text_eq-IsEquiv policy s.masking_policies
                      absent v.masks;
                disjoint =
                    all-append (free_of s.row_access_policies) s.masking_policies (policy ∷ [])
                    ∙ rw (v.disjoint, free);
                row_targets = v.row_targets;
                mask_targets =
                    all-imp (mask_target s.masking_policies)
                      (mask_target (s.masking_policies ++ policy ∷ []))
                      (λ b h.
                        any-append (mask_named b.policy_name) s.masking_policies (policy ∷ [])
                        ∙ rw h)
                      s.masking_bindings v.mask_targets;
                row_tables = v.row_tables;
                mask_columns = v.mask_columns;
              })
            ])
      ]
    where
      new : List MaskingPolicy
      new = replace (mask_named policy.name) policy s.masking_policies

      same_free :
          (m : MaskingPolicy)
          → text_eq m.name policy.name ≡ true
          → free_of s.row_access_policies m ≡ true
          → free_of s.row_access_policies policy ≡ true
      same_free m e h = rw (← (text_eq_iff m.name policy.name).0 e) h

      replaced_free :
          (ms : List MaskingPolicy)
          → any (mask_named policy.name) ms ≡ true
          → all (free_of s.row_access_policies) ms ≡ true
          → all (free_of s.row_access_policies) (replace (mask_named policy.name) policy ms) ≡ true
      replaced_free [] n h = refl
      replaced_free (m ∷ ms) n h = elim (Bool-cases (text_eq m.name policy.name)) [
        | inl t ↦ rw t (ground (arith, same_free m t))
        | inr f ↦ rw f (ground (arith, replaced_free ms))
      ]

  -- DROP MASKING POLICY takes its bindings with it.
  pub drop_masking_policy-IsValid :
      (name : Text) (s : PolicyState)
      → IsValid strings s
      → IsValid strings (drop_masking_policy name s).1
  unfolding drop_masking_policy
  drop_masking_policy-IsValid name s v =
      elim (Bool-cases (any (mask_named name) s.masking_policies)) [
        | inr absent ↦ rw absent v
        | inl present ↦ rw present (record {
          rows = v.rows;
          masks =
              remove-Distinct text_eq mask_name text_eq-IsEquiv (mask_named name) s.masking_policies
                v.masks;
          disjoint =
              all-remove (free_of s.row_access_policies) (mask_named name) s.masking_policies
                v.disjoint;
          row_targets = v.row_targets;
          mask_targets =
              all-remove_if (mask_target s.masking_policies)
                (mask_target (remove (mask_named name) s.masking_policies)) (mask_bound name)
                (λ b h other.
                  any-remove_other text_eq mask_name text_eq-IsEquiv name b.policy_name
                    s.masking_policies other h)
                s.masking_bindings v.mask_targets;
          row_tables = v.row_tables;
          mask_columns =
              remove_if-Distinct (column_eq strings) column_of (column_eq-IsEquiv strings)
                (mask_bound name) s.masking_bindings v.mask_columns;
        })
      ]
