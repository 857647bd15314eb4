-- ===== src/Scim/Sql/Written.antt =====
-- The fragments of internal/scim/users/filter.go and internal/scim/groups/filter.go are not empty.
use oad.Base.{
  ℕ, ◌≡◌, refl, subst, Option, List, [], ◌∷◌, ◌++◌, Bool-cases, inl, inr, if◌then◌else◌, ok, err,
  Result-cases,
}
use oad.Scim.Text.{Text}
use oad.Scim.Lexer.{CompareOp, eq, ne, co, sw, ew}
use oad.Scim.Filter.{Value, Expr, compare, present, logic}
use oad.Scim.Sql.{
  Sql, AttrSpec, SqlError, Built, looked_up, build_equality, build_like, build_compare, build,
  filter_to_sql,
}
use oad.Scim.Sql.Splice.{print_sql}

-- A text with a first character.
abbrev pub Written : Text → Type 0
Written s = (c : ℕ) × (rest : Text) × (s ≡ c ∷ rest)

append-Written : (s t : Text) → Written t → Written (s ++ t)
append-Written [] t w = w
append-Written (c ∷ s) t w = (c, s ++ t, refl)

module _ {F : Type 0} where
  abbrev WrittenBuilt : Built F → Type 0
  WrittenBuilt (ok (sql, args)) = Written (print_sql sql)
  WrittenBuilt (err e) = Unit

  refused :
      (spec : AttrSpec) (op : CompareOp) (args : List (Value F))
      → WrittenBuilt (
          if spec.is_string
          then err (SqlError.string_expected op)
          else err (SqlError.strings_only op))
  refused spec op args = elim (Bool-cases spec.is_string) [ inl e ↦ rw e tt | inr e ↦ rw e tt ]

  build_like-Written :
      (spec : AttrSpec) (op : CompareOp) (v : Value F) (args : List (Value F))
      → WrittenBuilt (build_like spec op v args)
  unfolding build_like print_sql
  build_like-Written spec op (Value.string s) args = elim (Bool-cases spec.is_string) [
    | inl e ↦ rw e (append-Written spec.sql _ (_, _, refl))
    | inr e ↦ rw e tt
  ]
  build_like-Written spec op (Value.float x) args = refused spec op args
  build_like-Written spec op (Value.bool b) args = refused spec op args
  build_like-Written spec op Value.null args = refused spec op args

  build_compare-Written :
      (spec : AttrSpec) (op : CompareOp) (v : Value F) (args : List (Value F))
      → WrittenBuilt (build_compare spec op v args)
  unfolding build_compare build_equality print_sql
  build_compare-Written spec eq v args = append-Written spec.sql _ (_, _, refl)
  build_compare-Written spec ne v args = append-Written spec.sql _ (_, _, refl)
  build_compare-Written spec co v args = build_like-Written spec co v args
  build_compare-Written spec sw v args = build_like-Written spec sw v args
  build_compare-Written spec ew v args = build_like-Written spec ew v args

  module _ (attrs : Text → Option AttrSpec) where
    build-Written : (e : Expr F) (args : List (Value F)) → WrittenBuilt (build attrs e args)
    unfolding build print_sql
    build-Written (compare name op v) args = elim (Result-cases (looked_up attrs name)) [
      | inl (spec, h) ↦ rw (h, build) (build_compare-Written spec op v args)
      | inr (f, h) ↦ rw (h, build) tt
    ]
    build-Written (present name) args = elim (Result-cases (looked_up attrs name)) [
      | inl (spec, h) ↦ rw (h, build) (append-Written spec.sql _ (_, _, refl))
      | inr (f, h) ↦ rw (h, build) tt
    ]
    build-Written (logic o l r) args = elim (Result-cases (build attrs l args)) [
      | inr (f, h) ↦ rw (h, build) tt
      | inl ((left, args₁), h) ↦ elim (Result-cases (build attrs r args₁)) [
        | inr (f, k) ↦ rw (h, build, k) tt
        | inl ((right, args₂), k) ↦ rw (h, build, k) (_, _, refl)
      ]
    ]

    pub filter_to_sql-Written :
        (e : Expr F) (sql : Sql) (args : List (Value F))
        → filter_to_sql attrs e ≡ ok (sql, args)
        → Written (print_sql sql)
    unfolding filter_to_sql
    filter_to_sql-Written e sql args h = subst WrittenBuilt h (build-Written e [])
