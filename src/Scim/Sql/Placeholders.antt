-- ===== src/Scim/Sql/Placeholders.antt =====
-- The placeholders of a fragment and its arguments (internal/scim/users/filter.go, internal/scim/groups/filter.go).
use oad.Base.{
  ℕ, zero, suc, ◌+◌, ◌≡◌, refl, sym, ap, ◌∙◌, subst, Option, List, [], ◌∷◌, ◌++◌, append_assoc,
  append-nil, length, length-append, arith, Bool-cases, inl, inr, if◌then◌else◌, ok, err,
  Result-cases,
}
use oad.Scim.Text.{Text, text}
use oad.Scim.Lexer.{CompareOp, LogicOp, eq, ne, co, sw, ew}
use oad.Scim.Filter.{Value, Expr, compare, present, logic}
use oad.Scim.Sql.{
  raw, placeholder, Sql, AttrSpec, SqlError, Built, like_pattern, looked_up, build_equality,
  build_like, build_compare, build, filter_to_sql, upper,
}

-- The numbers of the placeholders, in the order of the text.
unfoldable pub placeholders : Sql → List ℕ
placeholders [] = []
placeholders (raw t ∷ ps) = placeholders ps
placeholders (placeholder n ∷ ps) = n ∷ placeholders ps

-- The `n` numbers after `k`.
unfoldable pub count_from : ℕ → ℕ → List ℕ
count_from k zero = []
count_from k (suc n) = suc k ∷ count_from (suc k) n

module _ {F : Type 0} where
  -- The value that co, sw or ew is to be bound to.
  unfoldable like_value : CompareOp → Value F → Value F
  like_value op (Value.string s) = Value.string (like_pattern op s)
  like_value op v = v

  -- The value that a comparison is to be bound to.
  unfoldable bound_value : CompareOp → Value F → Value F
  unfolding like_value
  bound_value eq v = v
  bound_value ne v = v
  bound_value op v = like_value op v

  -- The values of a filter from left to right.
  unfoldable pub bound_values : Expr F → List (Value F)
  unfolding bound_value
  bound_values (compare name op v) = bound_value op v ∷ []
  bound_values (present name) = []
  bound_values (logic o l r) = bound_values l ++ bound_values r

pub placeholders-append :
    (ps qs : Sql) → placeholders (ps ++ qs) ≡ placeholders ps ++ placeholders qs
unfolding placeholders
placeholders-append [] qs = refl
placeholders-append (raw t ∷ ps) qs = placeholders-append ps qs
placeholders-append (placeholder n ∷ ps) qs = ap (λ t. n ∷ t) (placeholders-append ps qs)

pub count_from-append :
    (k j m n t : ℕ) → j ≡ k + m → t ≡ m + n → count_from k m ++ count_from j n ≡ count_from k t
unfolding count_from
count_from-append k j zero n t e f =
    let j_is : j ≡ k = omega arith in let t_is : t ≡ n = omega arith in rw (j_is, t_is) refl
count_from-append k j (suc m) n t e f =
    let t_is : t ≡ suc (m + n) = omega arith in
    rw t_is (ap (λ ns. suc k ∷ ns) (count_from-append (suc k) j m n (m + n) (omega arith) refl))

module _ {F : Type 0} where
  -- A fragment that was built after `args` binds the values `vs`, and numbers them in their order.
  abbrev Binds : List (Value F) → List (Value F) → Built F → Type 0
  Binds args vs (ok (sql, args')) =
      (args' ≡ args ++ vs) × (placeholders sql ≡ count_from (length args) (length vs))
  Binds args vs (err e) = Unit

  one_more : (v : Value F) (args : List (Value F)) → length (args ++ (v ∷ [])) ≡ suc (length args)
  one_more v args = omega (arith, length-append args (v ∷ []))

  build_equality-Binds :
      (spec : AttrSpec) (sign : Text) (v : Value F) (args : List (Value F))
      → Binds args (v ∷ []) (build_equality spec sign v args)
  unfolding build_equality placeholders count_from
  build_equality-Binds spec sign v args = (refl, ap (λ n. n ∷ []) (one_more v args))

  refused :
      (spec : AttrSpec) (op : CompareOp) (args vs : List (Value F))
      → Binds args vs (
          if spec.is_string
          then err (SqlError.string_expected op)
          else err (SqlError.strings_only op))
  refused spec op args vs = elim (Bool-cases spec.is_string) [ inl e ↦ rw e tt | inr e ↦ rw e tt ]

  build_like-Binds :
      (spec : AttrSpec) (op : CompareOp) (v : Value F) (args : List (Value F))
      → Binds args (like_value op v ∷ []) (build_like spec op v args)
  unfolding build_like placeholders count_from like_value
  build_like-Binds spec op (Value.float x) args = refused spec op args (Value.float x ∷ [])
  build_like-Binds spec op (Value.bool b) args = refused spec op args (Value.bool b ∷ [])
  build_like-Binds spec op Value.null args = refused spec op args (Value.null ∷ [])
  build_like-Binds spec op (Value.string s) args = elim (Bool-cases spec.is_string) [
    | inr e ↦ rw e tt
    | inl e ↦ rw e (refl, ap (λ n. n ∷ []) (one_more (Value.string (like_pattern op s)) args))
  ]

  build_compare-Binds :
      (spec : AttrSpec) (op : CompareOp) (v : Value F) (args : List (Value F))
      → Binds args (bound_value op v ∷ []) (build_compare spec op v args)
  unfolding build_compare bound_value
  build_compare-Binds spec eq v args = build_equality-Binds spec _ v args
  build_compare-Binds spec ne v args = build_equality-Binds spec _ v args
  build_compare-Binds spec co v args = build_like-Binds spec co v args
  build_compare-Binds spec sw v args = build_like-Binds spec sw v args
  build_compare-Binds spec ew v args = build_like-Binds spec ew v args

  logic-placeholders :
      (o : LogicOp) (left right : Sql) (args args₁ vs ws : List (Value F))
      → (args₁ ≡ args ++ vs) × (placeholders left ≡ count_from (length args) (length vs))
      → placeholders right ≡ count_from (length args₁) (length ws)
      → placeholders (raw (text "(") ∷ left ++ (raw (upper o) ∷ right ++ (raw (text ")") ∷ [])))
        ≡ count_from (length args) (length (vs ++ ws))
  unfolding placeholders
  logic-placeholders o left right args args₁ vs ws (e, hl) hr =
      let size : length args₁ ≡ length args + length vs = ap length e ∙ length-append args vs in
      rw
        (
          placeholders-append left (raw (upper o) ∷ right ++ (raw (text ")") ∷ [])),
          placeholders-append right (raw (text ")") ∷ []),
          append-nil (placeholders right),
          hl,
          hr,
        )
        (count_from-append (length args) (length args₁) (length vs) (length ws) (length (vs ++ ws))
          size (length-append vs ws))

  module _ (attrs : Text → Option AttrSpec) where
    build-Binds :
        (e : Expr F) (args : List (Value F)) → Binds args (bound_values e) (build attrs e args)
    unfolding build bound_values placeholders count_from
    build-Binds (compare name op v) args = elim (Result-cases (looked_up attrs name)) [
      | inl (spec, h) ↦ rw (h, build) (build_compare-Binds spec op v args)
      | inr (f, h) ↦ rw (h, build) tt
    ]
    build-Binds (present name) args = elim (Result-cases (looked_up attrs name)) [
      | inl (spec, h) ↦ rw (h, build) (sym (append-nil args), refl)
      | inr (f, h) ↦ rw (h, build) tt
    ]
    build-Binds (logic o l r) args = elim (Result-cases (build attrs l args)) [
      | inr (f, h) ↦ rw (h, build) tt
      | inl ((left, args₁), h) ↦ elim (Result-cases (build attrs r args₁)) [
        | inr (f, k) ↦ rw (h, build, k) tt
        | inl ((right, args₂), k) ↦
            let hl : Binds args (bound_values l) (ok (left, args₁)) =
              subst (λ q. Binds args (bound_values l) q) h (build-Binds l args) in
            let hr : Binds args₁ (bound_values r) (ok (right, args₂)) =
              subst (λ q. Binds args₁ (bound_values r) q) k (build-Binds r args₁) in
            rw (h, build, k)
              (
                hr.0
                    ∙ (ap (λ q. q ++ bound_values r) hl.0
                        ∙ append_assoc args (bound_values l) (bound_values r)),
                logic-placeholders o left right args args₁ (bound_values l) (bound_values r) hl
                    hr.1,
              )
      ]
    ]

    -- If a filter is translated, its fragment binds the values of the filter from left to right, those
    -- of co, sw and ew as patterns, and the placeholders of the fragment are $1, $2, … in the order
    -- of the text, one for each value.
    pub filter_to_sql-binds :
        (e : Expr F) (sql : Sql) (args : List (Value F))
        → filter_to_sql attrs e ≡ ok (sql, args)
        → (args ≡ bound_values e) × (placeholders sql ≡ count_from 0 (length args))
    unfolding filter_to_sql
    filter_to_sql-binds e sql args h =
        let binds = subst (λ q. Binds [] (bound_values e) q) h (build-Binds e []) in
        (binds.0, binds.1 ∙ ap (λ vs. count_from 0 (length vs)) (sym binds.0))
