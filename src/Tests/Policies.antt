-- ===== src/Tests/Policies.antt =====
-- A table with a row access policy and a masked column.
use quackapi.Base.{[], ◌∷◌, refl}
use quackapi.Text.{codes, text_eq}
use quackapi.Strings.Ascii.{ascii, to_lower}
use quackapi.Types.{RowAccessPolicy, MaskingPolicy, RowAccessBinding, MaskingBinding}
use quackapi.Registry.Policies.{PolicyState}
use quackapi.Registry.Policies.Laws.{IsValid}

abbrev own_rows : RowAccessPolicy
own_rows = record {
  name = codes "own_rows";
  arg_columns = codes "owner" ∷ [];
  arg_types = codes "VARCHAR" ∷ [];
  expression = codes "owner = $claims_sub";
}

abbrev hide : MaskingPolicy
hide = record { name = codes "hide"; value_type = codes "VARCHAR"; expression = codes "'***'" }

abbrev on_orders : RowAccessBinding
on_orders = record {
  table_name = codes "orders";
  policy_name = codes "own_rows";
  columns = codes "owner" ∷ [];
}

abbrev on_card : MaskingBinding
on_card = record {
  table_name = codes "orders";
  column_name = codes "card";
  policy_name = codes "hide";
}

abbrev bound : PolicyState
bound = record {
  row_access_policies = own_rows ∷ [];
  masking_policies = hide ∷ [];
  row_access_bindings = on_orders ∷ [];
  masking_bindings = on_card ∷ [];
}

bound-IsValid : IsValid ascii bound
unfolding text_eq to_lower
bound-IsValid = record {
  rows = (refl, tt);
  masks = (refl, tt);
  disjoint = refl;
  row_targets = refl;
  mask_targets = refl;
  row_tables = (refl, tt);
  mask_columns = (refl, tt);
}
