-- ===== src/Scim/Sql/Constant.antt =====
-- The strings of a filter are not in the text of its fragment (internal/scim/users/filter.go,
-- internal/scim/groups/filter.go).
use oad.Base.{
  ◌+◌, ◌≡◌, refl, sym, ap, ◌∙◌, subst, Option, List, [], ◌∷◌, ◌++◌, length, length-append,
  Bool-cases, inl, inr, ok, err, Result-cases, ◌>>=◌,
}
use oad.Scim.Text.{Text}
use oad.Scim.Lexer.{CompareOp, eq, ne, co, sw, ew}
use oad.Scim.Filter.{Value, Expr, compare, present, logic}
use oad.Scim.Sql.{
  Sql, AttrSpec, Built, looked_up, build_equality, build_like, build_compare, build, filter_to_sql,
  like_pattern,
}

module _ {F : Type 0} (f : Text → Text) where
  -- The filter with other strings as its values.
  abbrev replace_string : Value F → Value F
  replace_string (Value.string s) = Value.string (f s)
  replace_string v = v

  unfoldable pub replace_strings : Expr F → Expr F
  replace_strings (compare name op v) = compare name op (replace_string v)
  replace_strings (present name) = present name
  replace_strings (logic o l r) = logic o (replace_strings l) (replace_strings r)

  -- Two fragments with the same text and equally many values, or two refusals.
  abbrev Alike : Built F → Built F → Type 0
  Alike (ok (sql, args)) (ok (sql', args')) = (sql ≡ sql') × (length args ≡ length args')
  Alike (err e) (err e') = Unit
  Alike (ok p) (err e) = ⊥
  Alike (err e) (ok p) = ⊥

  one_more :
      (v w : Value F) (args args' : List (Value F))
      → length args ≡ length args'
      → length (args ++ (v ∷ [])) ≡ length (args' ++ (w ∷ []))
  one_more v w args args' h =
      length-append args (v ∷ []) ∙ (ap (λ n. n + 1) h ∙ sym (length-append args' (w ∷ [])))

  build_equality-Alike :
      (spec : AttrSpec) (sign : Text) (v w : Value F) (args args' : List (Value F))
      → length args ≡ length args'
      → Alike (build_equality spec sign v args) (build_equality spec sign w args')
  unfolding build_equality
  build_equality-Alike spec sign v w args args' h =
      let e = one_more v w args args' h in (rw e refl, e)

  build_like-Alike :
      (spec : AttrSpec) (op : CompareOp) (v : Value F) (args args' : List (Value F))
      → length args ≡ length args'
      → Alike (build_like spec op v args) (build_like spec op (replace_string v) args')
  unfolding build_like
  build_like-Alike spec op (Value.string s) args args' h = elim (Bool-cases spec.is_string) [
    | inr e ↦ rw e tt
    | inl e ↦
        let m =
          one_more (Value.string (like_pattern op s)) (Value.string (like_pattern op (f s))) args
            args' h in
        rw e (rw m refl, m)
  ]
  build_like-Alike spec op (Value.float x) args args' h = elim (Bool-cases spec.is_string) [
    | inl e ↦ rw e tt
    | inr e ↦ rw e tt
  ]
  build_like-Alike spec op (Value.bool b) args args' h = elim (Bool-cases spec.is_string) [
    | inl e ↦ rw e tt
    | inr e ↦ rw e tt
  ]
  build_like-Alike spec op Value.null args args' h = elim (Bool-cases spec.is_string) [
    | inl e ↦ rw e tt
    | inr e ↦ rw e tt
  ]

  build_compare-Alike :
      (spec : AttrSpec) (op : CompareOp) (v : Value F) (args args' : List (Value F))
      → length args ≡ length args'
      → Alike (build_compare spec op v args) (build_compare spec op (replace_string v) args')
  unfolding build_compare
  build_compare-Alike spec eq v args args' h = build_equality-Alike spec _ v _ args args' h
  build_compare-Alike spec ne v args args' h = build_equality-Alike spec _ v _ args args' h
  build_compare-Alike spec co v args args' h = build_like-Alike spec co v args args' h
  build_compare-Alike spec sw v args args' h = build_like-Alike spec sw v args args' h
  build_compare-Alike spec ew v args args' h = build_like-Alike spec ew v args args' h

  -- Chains of alike results are alike.
  >>=-Alike :
      (r r' : Built F) (g g' : Sql × List (Value F) → Built F)
      → Alike r r'
      → ((sql : Sql) (args args' : List (Value F))
          → length args ≡ length args'
          → Alike (g (sql, args)) (g' (sql, args')))
      → Alike (r >>= g) (r' >>= g')
  >>=-Alike (ok (sql, args)) (ok (sql', args')) g g' (e, h) k =
      subst (λ s. Alike (g (sql, args)) (g' (s, args'))) e (k sql args args' h)
  >>=-Alike (err e) (err e') g g' h k = tt
  >>=-Alike (ok p) (err e) g g' h k = absurd h
  >>=-Alike (err e) (ok p) g g' h k = absurd h

  module _ (attrs : Text → Option AttrSpec) where
    build-Alike :
        (e : Expr F) (args args' : List (Value F))
        → length args ≡ length args'
        → Alike (build attrs e args) (build attrs (replace_strings e) args')
    unfolding build replace_strings
    build-Alike (compare name op v) args args' h = elim (Result-cases (looked_up attrs name)) [
      | inl (spec, l) ↦ rw (l, build) (build_compare-Alike spec op v args args' h)
      | inr (e, l) ↦ rw (l, build) tt
    ]
    build-Alike (present name) args args' h = elim (Result-cases (looked_up attrs name)) [
      | inl (spec, l) ↦ rw (l, build) (refl, h)
      | inr (e, l) ↦ rw (l, build) tt
    ]
    build-Alike (logic o l r) args args' h =
        >>=-Alike (build attrs l args) (build attrs (replace_strings l) args') _ _
          (build-Alike l args args' h)
          (λ left args₁ args₁' h₁.
            >>=-Alike (build attrs r args₁) (build attrs (replace_strings r) args₁') _ _
              (build-Alike r args₁ args₁' h₁) (λ right args₂ args₂' h₂. (refl, h₂)))

    Alike-text :
        (r r' : Built F) (sql : Sql) (args : List (Value F))
        → Alike r r'
        → r ≡ ok (sql, args)
        → (args' : List (Value F)) × (r' ≡ ok (sql, args'))
    Alike-text (ok (s, vs)) (ok (s', vs')) sql args (e, h) k =
        let q : s ≡ sql = cc in (vs', ap (λ t. ok (t, vs')) (sym e ∙ q))
    Alike-text (err e) r' sql args a k = absurd (let bad : err e ≡ ok (sql, args) = k in cc)
    Alike-text (ok p) (err e) sql args a k = absurd a

    -- Whatever strings stand in place of those of a filter: it is translated as before, to the same text, so that
    -- nothing of a string gets into the text of a query.
    pub filter_to_sql-replace_strings :
        (e : Expr F) (sql : Sql) (args : List (Value F))
        → filter_to_sql attrs e ≡ ok (sql, args)
        → (args' : List (Value F)) × (filter_to_sql attrs (replace_strings e) ≡ ok (sql, args'))
    unfolding filter_to_sql
    filter_to_sql-replace_strings e sql args h =
        Alike-text (build attrs e []) (build attrs (replace_strings e) []) sql args
          (build-Alike e [] [] refl) h
