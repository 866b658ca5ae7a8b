-- ===== src/Registry/Policies.antt =====
-- Row access and masking policies and their bindings to tables and columns, under one mutex: the Add,
-- Drop, Get, Bind and Unbind methods of both kinds.
pub mod Laws
pub mod Masking
pub mod Bindings
pub mod MaskBindings
use quackapi.Base.{
  ℕ, Bool, true, false, not, ◌&&◌, ◌||◌, List, [], ◌∷◌, ◌++◌, Option, none, some, Result, ok, err,
  ◌==◌, if◌then◌else◌, any, find, replace, remove, remove_if, length,
}
use quackapi.Text.{Text, text_eq, empty}
use quackapi.Strings.{StringUtil}
use quackapi.Types.{RowAccessPolicy, MaskingPolicy, RowAccessBinding, MaskingBinding}
use quackapi.Registry.{
  Error, row_access_policy_exists, row_access_policy_missing, row_access_policy_arity,
  table_has_policy, masking_policy_exists, masking_policy_missing, column_has_policy,
  policy_name_taken, Outcome,
}

pub record PolicyState : Type 0 where
  pub row_access_policies : List RowAccessPolicy
  pub masking_policies : List MaskingPolicy
  pub row_access_bindings : List RowAccessBinding
  pub masking_bindings : List MaskingBinding

abbrev pub row_named : Text → RowAccessPolicy → Bool
row_named name p = text_eq p.name name

abbrev pub mask_named : Text → MaskingPolicy → Bool
mask_named name p = text_eq p.name name

abbrev pub row_bound : Text → RowAccessBinding → Bool
row_bound name b = text_eq b.policy_name name

abbrev pub mask_bound : Text → MaskingBinding → Bool
mask_bound name b = text_eq b.policy_name name

unfoldable pub add_row_access_policy :
    RowAccessPolicy → Bool → PolicyState → Outcome PolicyState (Unit {0})
add_row_access_policy policy or_replace s =
    if any (row_named policy.name) s.row_access_policies
    then (if or_replace
        then (
          ok tt,
          record s {
            row_access_policies = replace (row_named policy.name) policy s.row_access_policies;
          },
        )
        else (err (row_access_policy_exists policy.name), s))
    else if any (mask_named policy.name) s.masking_policies
    then (err (policy_name_taken policy.name), s)
    else (ok tt, record s { row_access_policies = s.row_access_policies ++ policy ∷ [] })

unfoldable pub drop_row_access_policy : Text → PolicyState → Bool × PolicyState
drop_row_access_policy name s =
    if any (row_named name) s.row_access_policies
    then (
      true,
      record s {
        row_access_policies = remove (row_named name) s.row_access_policies;
        row_access_bindings = remove_if (row_bound name) s.row_access_bindings;
      },
    )
    else (false, s)

abbrev pub get_row_access_policy : Text → PolicyState → Option RowAccessPolicy
get_row_access_policy name s = find (row_named name) s.row_access_policies

unfoldable pub add_masking_policy :
    MaskingPolicy → Bool → PolicyState → Outcome PolicyState (Unit {0})
add_masking_policy policy or_replace s =
    if any (mask_named policy.name) s.masking_policies
    then (if or_replace
        then (
          ok tt,
          record s {
            masking_policies = replace (mask_named policy.name) policy s.masking_policies;
          },
        )
        else (err (masking_policy_exists policy.name), s))
    else if any (row_named policy.name) s.row_access_policies
    then (err (policy_name_taken policy.name), s)
    else (ok tt, record s { masking_policies = s.masking_policies ++ policy ∷ [] })

unfoldable pub drop_masking_policy : Text → PolicyState → Bool × PolicyState
drop_masking_policy name s =
    if any (mask_named name) s.masking_policies
    then (
      true,
      record s {
        masking_policies = remove (mask_named name) s.masking_policies;
        masking_bindings = remove_if (mask_bound name) s.masking_bindings;
      },
    )
    else (false, s)

abbrev pub get_masking_policy : Text → PolicyState → Option MaskingPolicy
get_masking_policy name s = find (mask_named name) s.masking_policies

module _ (strings : StringUtil) where
  -- `StringUtil::Lower(a) == StringUtil::Lower(b)`
  abbrev pub lower_eq : Text → Text → Bool
  lower_eq a b = text_eq (strings.lower a) (strings.lower b)

  abbrev pub on_table : Text → RowAccessBinding → Bool
  on_table table_name b = lower_eq b.table_name table_name

  -- The first binding of the table decides.
  unfoldable pub bind_row_access_policy :
      RowAccessBinding → Bool → PolicyState → Outcome PolicyState (Unit {0})
  bind_row_access_policy binding or_replace s =
      elim (find (row_named binding.policy_name) s.row_access_policies) [
        | none ↦ (err (row_access_policy_missing binding.policy_name), s)
        | some pol ↦
            if not (length binding.columns == length pol.arg_columns)
            then (err (row_access_policy_arity binding.policy_name), s)
            else elim (find (on_table binding.table_name) s.row_access_bindings) [
              | none ↦
                  (ok tt, record s { row_access_bindings = s.row_access_bindings ++ binding ∷ [] })
              | some old ↦
                  if text_eq old.policy_name binding.policy_name || or_replace
                  then (
                    ok tt,
                    record s {
                      row_access_bindings =
                          replace (on_table binding.table_name) binding s.row_access_bindings;
                    },
                  )
                  else (err (table_has_policy binding.table_name old.policy_name), s)
            ]
      ]

  abbrev pub row_bound_to : Text → Text → RowAccessBinding → Bool
  row_bound_to table_name policy_name b =
      on_table table_name b && (empty policy_name || text_eq b.policy_name policy_name)

  unfoldable pub unbind_row_access_policy : Text → Text → PolicyState → Bool × PolicyState
  unbind_row_access_policy table_name policy_name s =
      if any (row_bound_to table_name policy_name) s.row_access_bindings
      then (
        true,
        record s {
          row_access_bindings = remove (row_bound_to table_name policy_name) s.row_access_bindings;
        },
      )
      else (false, s)

  abbrev pub on_column : Text → Text → MaskingBinding → Bool
  on_column table_name column_name b =
      lower_eq b.table_name table_name && lower_eq b.column_name column_name

  unfoldable pub bind_masking_policy :
      MaskingBinding → Bool → PolicyState → Outcome PolicyState (Unit {0})
  bind_masking_policy binding or_replace s =
      if not (any (mask_named binding.policy_name) s.masking_policies)
      then (err (masking_policy_missing binding.policy_name), s)
      else elim (find (on_column binding.table_name binding.column_name) s.masking_bindings) [
        | none ↦ (ok tt, record s { masking_bindings = s.masking_bindings ++ binding ∷ [] })
        | some old ↦
            if not or_replace && not (text_eq old.policy_name binding.policy_name)
            then (err (column_has_policy binding.table_name binding.column_name old.policy_name), s)
            else (
              ok tt,
              record s {
                masking_bindings =
                    replace (on_column binding.table_name binding.column_name) binding
                      s.masking_bindings;
              },
            )
      ]

  unfoldable pub unbind_masking_policy : Text → Text → PolicyState → Bool × PolicyState
  unbind_masking_policy table_name column_name s =
      if any (on_column table_name column_name) s.masking_bindings
      then (
        true,
        record s {
          masking_bindings = remove (on_column table_name column_name) s.masking_bindings;
        },
      )
      else (false, s)
