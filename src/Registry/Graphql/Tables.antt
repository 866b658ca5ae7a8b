-- ===== src/Registry/Graphql/Tables.antt =====
-- The allowlist of the built-in GraphQL endpoint.
use quackapi.Base.{
  Bool, true, false, ◌||◌, List, [], ◌∷◌, ◌++◌, any, ok, ◌≡◌, ◌↔◌, ◌⊎◌, inl, inr, refl, arith,
  Bool-cases, any-append, err-ne-ok,
}
use quackapi.Text.{Text, text_eq}
use quackapi.Text.Laws.{text_eq-IsEquiv}
use quackapi.Keyed.{Distinct}
use quackapi.Keyed.Laws.{any-named}
use quackapi.Registry.Graphql.{
  GraphqlState, is_table, is_nil, add_graphql_table, graphql_allowlist_active,
  is_graphql_table_allowed,
}

abbrev pub itself : Text → Text
itself t = t

abbrev pub DistinctTables : GraphqlState → Type 0
DistinctTables s = Distinct text_eq itself s.graphql_tables

-- A table is served exactly when no table is listed or when it is listed itself.
pub is_graphql_table_allowed_iff :
    (table_name : Text) (s : GraphqlState)
    → (is_graphql_table_allowed table_name s ≡ true)
      ↔ ((graphql_allowlist_active s ≡ false) ⊎ (any (is_table table_name) s.graphql_tables ≡ true))
unfolding is_graphql_table_allowed
is_graphql_table_allowed_iff table_name s = elim (Bool-cases (is_nil s.graphql_tables)) [
  | inl unlisted ↦ rw unlisted (ground arith)
  | inr listed ↦ rw listed (ground arith)
]

nil_of : (ts : List Text) (k : Text) → any (is_table k) ts ≡ true → is_nil ts ≡ false
nil_of [] k h = cc
nil_of (t ∷ ts) k h = refl

append_listed : (ts : List Text) (t : Text) → is_nil (ts ++ t ∷ []) ≡ false
append_listed [] t = refl
append_listed (x ∷ ts) t = refl

listed_twice :
    (t k : Text) (ts : List Text)
    → any (is_table t) ts ≡ true
    → any (is_table k) ts ≡ (any (is_table k) ts || text_eq t k)
listed_twice t k ts h = elim (Bool-cases (text_eq t k)) [
  | inl same ↦ ground (arith, any-named text_eq itself text_eq-IsEquiv t k ts same)
  | inr other ↦ ground arith
]

-- After a table is added and nothing is thrown, just the tables that were listed and the new one are
-- served: the first CREATE GRAPHQL closes an open endpoint.
pub is_graphql_table_allowed-add :
    (table_name k : Text) (or_replace : Bool) (s : GraphqlState)
    → (add_graphql_table table_name or_replace s).0 ≡ ok tt
    → is_graphql_table_allowed k (add_graphql_table table_name or_replace s).1
      ≡ (any (is_table k) s.graphql_tables || text_eq table_name k)
unfolding is_graphql_table_allowed add_graphql_table
is_graphql_table_allowed-add [] k or_replace s done = cc
is_graphql_table_allowed-add (c ∷ name) k or_replace s done =
    elim (Bool-cases (any (is_table (c ∷ name)) s.graphql_tables)) [
      | inr absent ↦ rw absent (
          rw append_listed
            (ground (arith, any-append (is_table k) s.graphql_tables ((c ∷ name) ∷ []))))
      | inl present ↦ elim (Bool-cases or_replace) [
        | inl replaces ↦
            rw (present, replaces)
              (rw (nil_of s.graphql_tables (c ∷ name) present)
                (listed_twice (c ∷ name) k s.graphql_tables present))
        | inr refuses ↦ absurd (err-ne-ok (rw (present, refuses) at done))
      ]
    ]
