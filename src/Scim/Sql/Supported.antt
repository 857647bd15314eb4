-- ===== src/Scim/Sql/Supported.antt =====
-- Which filters are translated, and which are refused (internal/scim/users/filter.go,
-- internal/scim/groups/filter.go).
use oad.Base.{
  ◌≡◌, refl, Bool, true, false, ◌&&◌, Option, none, some, List, [], inl, inr, Result, ok, err,
  Result-cases, Option-cases, sym, arith,
}
use oad.Scim.Text.{Text}
use oad.Scim.Lexer.{CompareOp, eq, ne, co, sw, ew}
use oad.Scim.Filter.{Value, Expr, compare, present, logic}
use oad.Scim.Sql.{
  AttrSpec, looked_up, build_equality, build_like, build_compare, build, filter_to_sql,
}

abbrev pub is_ok {ℓ κ} : {E : Type ℓ} {A : Type κ} → Result E A → Bool
is_ok (ok a) = true
is_ok (err e) = false

module _ {F : Type 0} where
  abbrev is_text : Value F → Bool
  is_text (Value.string s) = true
  is_text _ = false

  -- eq and ne take every value; co, sw and ew take a string, on a column that is one.
  unfoldable accepts : AttrSpec → CompareOp → Value F → Bool
  accepts spec eq v = true
  accepts spec ne v = true
  accepts spec op v = spec.is_string && is_text v

  build_like-is_ok :
      (spec : AttrSpec) (op : CompareOp) (v : Value F) (args : List (Value F))
      → is_ok (build_like spec op v args) ≡ (spec.is_string && is_text v)
  unfolding build_like
  build_like-is_ok spec op (Value.string s) args = ground arith
  build_like-is_ok spec op (Value.float x) args = ground arith
  build_like-is_ok spec op (Value.bool b) args = ground arith
  build_like-is_ok spec op Value.null args = ground arith

  build_compare-is_ok :
      (spec : AttrSpec) (op : CompareOp) (v : Value F) (args : List (Value F))
      → is_ok (build_compare spec op v args) ≡ accepts spec op v
  unfolding build_compare build_equality accepts
  build_compare-is_ok spec eq v args = refl
  build_compare-is_ok spec ne v args = refl
  build_compare-is_ok spec co v args = build_like-is_ok spec co v args
  build_compare-is_ok spec sw v args = build_like-is_ok spec sw v args
  build_compare-is_ok spec ew v args = build_like-is_ok spec ew v args

  module _ (attrs : Text → Option AttrSpec) where
    unfoldable pub is_supported : Expr F → Bool
    unfolding accepts
    is_supported (compare name op v) = elim (attrs name) [
      | none ↦ false
      | some spec ↦ accepts spec op v
    ]
    is_supported (present name) = elim (attrs name) [ none ↦ false | some spec ↦ true ]
    is_supported (logic o l r) = is_supported l && is_supported r

    build-is_ok : (e : Expr F) (args : List (Value F)) → is_ok (build attrs e args) ≡ is_supported e
    unfolding build is_supported looked_up
    build-is_ok (compare name op v) args = elim (Option-cases (attrs name)) [
      | inl h ↦ rw (h, build, is_supported, looked_up) refl
      | inr (spec, h) ↦ rw (h, build, is_supported, looked_up) (build_compare-is_ok spec op v args)
    ]
    build-is_ok (present name) args = elim (Option-cases (attrs name)) [
      | inl h ↦ rw (h, build, is_supported, looked_up) refl
      | inr (spec, h) ↦ rw (h, build, is_supported, looked_up) refl
    ]
    build-is_ok (logic o l r) args = elim (Result-cases (build attrs l args)) [
      | inr (f, h) ↦ rw (h, build, sym (build-is_ok l args), h) refl
      | inl ((left, args₁), h) ↦ elim (Result-cases (build attrs r args₁)) [
        | inr (f, k) ↦
            rw (h, build, k, sym (build-is_ok l args), h, sym (build-is_ok r args₁), k) refl
        | inl ((right, args₂), k) ↦
            rw (h, build, k, sym (build-is_ok l args), h, sym (build-is_ok r args₁), k) refl
      ]
    ]

    -- A filter is translated if each of its attributes is in the table and each of co, sw and ew compares
    -- a string attribute with a string, and is refused otherwise.
    pub filter_to_sql-is_supported : (e : Expr F) → is_ok (filter_to_sql attrs e) ≡ is_supported e
    unfolding filter_to_sql
    filter_to_sql-is_supported e = build-is_ok e []
