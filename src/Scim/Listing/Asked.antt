-- ===== src/Scim/Listing/Asked.antt =====
-- What the lists of internal/scim/users and internal/scim/groups ask the database, and what they answer.
use oad.Base.{
  ℕ, ◌≡◌, refl, sym, ap, ◌∙◌, subst, Option, some, none, List, [], ◌∷◌, ◌++◌, length, Option-cases,
  Result-cases, inl, inr, ◌⊎◌, Result, ok, err,
}
use oad.Scim.Text.{Text}
use oad.Scim.Filter.{Value, Expr, parse}
use oad.Scim.Sql.{Sql, AttrSpec, filter_to_sql}
use oad.Scim.Sql.Splice.{print_sql}
use oad.Scim.Sql.Written.{Written, filter_to_sql-Written}
use oad.Scim.Sql.Shifted.{PlainColumns, filter_to_sql-apart}
use oad.Scim.Listing.Conditions.{
  condition_pieces, and_filter, where_clause-nil, where_clause-filter,
}
use oad.Scim.Listing.{
  ListedRow, Arg, Queries, ListError, invalid_filter, query_failed, where_clause, count_sql,
  list_sql, as_args, list_rows, translate_filter, list_page,
}

module _ {E A : Type 0} where
  pub err-ne-ok : (e : E) (a : A) → err e ≡ ok a → ⊥
  err-ne-ok e a h = cc

  pub ok_injective : (a b : A) (r : Result E A) → r ≡ ok a → r ≡ ok b → a ≡ b
  ok_injective a b r h k = cc

-- The answers to both queries.
abbrev answered : Option ℕ → Option (List ListedRow) → Result ListError (List ListedRow × ℕ)
answered none p = err query_failed
answered (some total) none = err query_failed
answered (some total) (some rows) = ok (rows, total)

both_answer :
    (c : Option ℕ) (p : Option (List ListedRow)) (rows : List ListedRow) (total : ℕ)
    → answered c p ≡ ok (rows, total)
    → (c ≡ some total) × (p ≡ some rows)
both_answer none p rows total h = absurd (err-ne-ok query_failed (rows, total) h)
both_answer (some n) none rows total h = absurd (err-ne-ok query_failed (rows, total) h)
both_answer (some n) (some found) rows total h =
    let q = ok_injective (found, n) (rows, total) (answered (some n) (some found)) refl h in
    (ap (λ (r : List ListedRow × ℕ). some r.1) q, ap (λ (r : List ListedRow × ℕ). some r.0) q)

-- A condition that asks for a type and a provider alone, without a filter, or for what the filter says as well.
module _ {F : Type 0} (parse_float : Text → Option F) (attrs : Text → Option AttrSpec) where
  abbrev pub IsCondition : Text → Text → Text → List (Value F) → Type 0
  IsCondition type_name filter condition values =
      ((filter ≡ []) × (condition ≡ print_sql (condition_pieces type_name [])) × (values ≡ []))
      ⊎ ((e : Expr F) × (sql : Sql) × Written filter
          × (parse parse_float filter ≡ ok e)
          × (filter_to_sql attrs e ≡ ok (sql, values))
          × (condition ≡ print_sql (condition_pieces type_name (and_filter sql))))

  -- What is translated is what is parsed.
  translate_filter-parsed :
      (c : ℕ) (s t : Text) (values : List (Value F))
      → translate_filter parse_float attrs (c ∷ s) ≡ ok (t, values)
      → (e : Expr F) × (sql : Sql) × (parse parse_float (c ∷ s) ≡ ok e)
        × (filter_to_sql attrs e ≡ ok (sql, values))
        × (print_sql sql ≡ t)
  unfolding translate_filter
  translate_filter-parsed c s t values h = elim (Result-cases (parse parse_float (c ∷ s))) [
    | inr (f, p) ↦ absurd (err-ne-ok invalid_filter (t, values) (rw (translate_filter, p) at h))
    | inl (e, p) ↦ elim (Result-cases (filter_to_sql attrs e)) [
      | inr (f, q) ↦
          absurd (err-ne-ok invalid_filter (t, values) (rw (translate_filter, p, q) at h))
      | inl ((sql, vs), q) ↦
          let k =
            ok_injective (print_sql sql, vs) (t, values) (ok (print_sql sql, vs)) refl
              (rw (translate_filter, p, q) at h) in
          (
            e,
            sql,
            p,
            q ∙ ap (λ (r : Text × List (Value F)). ok (sql, r.1)) k,
            ap (λ (r : Text × List (Value F)). r.0) k,
          )
    ]
  ]

  parsed-translate_filter :
      (c : ℕ) (s : Text) (e : Expr F) (sql : Sql) (values : List (Value F))
      → parse parse_float (c ∷ s) ≡ ok e
      → filter_to_sql attrs e ≡ ok (sql, values)
      → translate_filter parse_float attrs (c ∷ s) ≡ ok (print_sql sql, values)
  unfolding translate_filter
  parsed-translate_filter c s e sql values p q = rw (translate_filter, p, q) refl

  translate_filter-nil :
      (t : Text) (values : List (Value F))
      → translate_filter parse_float attrs [] ≡ ok (t, values)
      → ([] ≡ t) × ([] ≡ values)
  unfolding translate_filter
  translate_filter-nil t values h =
      let q = ok_injective ([], []) (t, values) (ok ([], [])) refl h in
      (ap (λ (r : Text × List (Value F)). r.0) q, ap (λ (r : Text × List (Value F)). r.1) q)

  pub translate_filter-IsCondition :
      (plain : PlainColumns attrs) (type_name filter t : Text) (values : List (Value F))
      → translate_filter parse_float attrs filter ≡ ok (t, values)
      → IsCondition type_name filter (where_clause type_name t) values
  translate_filter-IsCondition plain type_name [] t values h =
      let (no_text, no_values) = translate_filter-nil t values h in
      inl (
        refl,
        ap (where_clause type_name) (sym no_text) ∙ where_clause-nil type_name,
        sym no_values,
      )
  translate_filter-IsCondition plain type_name (c ∷ s) t values h =
      let (e, sql, p, q, k) = translate_filter-parsed c s t values h in
      let written = filter_to_sql-Written attrs e sql values q in
      let apart = filter_to_sql-apart attrs plain e sql values q in
      let condition =
        ap (where_clause type_name) (sym k) ∙ where_clause-filter type_name sql written apart in
      inr (e, sql, (c, s, refl), p, q, condition)

  module _ (queries : Queries F) (type_name provider : Text) (offset limit : ℕ) where
    abbrev count_answer : Text → List (Value F) → Option ℕ
    count_answer condition values = queries.count (count_sql condition) (as_args provider values)

    abbrev page_answer : Text → List (Value F) → Option (List ListedRow)
    page_answer condition values =
        queries.page (list_sql condition (length (as_args provider values)))
          (as_args provider values ++ (Arg.int limit ∷ Arg.int offset ∷ []))

    -- What the two queries answer, the second with the limit and the offset as its last arguments.
    abbrev pub Answers : Text → List (Value F) → List ListedRow → ℕ → Type 0
    Answers condition values rows total =
        (count_answer condition values ≡ some total) × (page_answer condition values ≡ some rows)

    abbrev pub Answered : Text → List ListedRow → ℕ → Type 0
    Answered filter rows total =
        (condition : Text) × (values : List (Value F)) × IsCondition type_name filter condition
          values
        × Answers condition values rows total

    abbrev rows_of : Text → List (Value F) → Result ListError (List ListedRow × ℕ)
    rows_of sql values = list_rows queries type_name provider sql values offset limit

    list_rows-answered :
        (sql : Text) (values : List (Value F))
        → rows_of sql values
          ≡ answered
              (count_answer (where_clause type_name sql) values)
              (page_answer (where_clause type_name sql) values)
    unfolding list_rows
    list_rows-answered sql values =
        let condition = where_clause type_name sql in
        elim (Option-cases (count_answer condition values)) [
          | inl c ↦ rw (list_rows, c) refl
          | inr (n, c) ↦ elim (Option-cases (page_answer condition values)) [
            | inl p ↦ rw (list_rows, c, p) refl
            | inr (rows, p) ↦ rw (list_rows, c, p) refl
          ]
        ]

    list_rows-Answers :
        (sql : Text) (values : List (Value F)) (rows : List ListedRow) (total : ℕ)
        → rows_of sql values ≡ ok (rows, total)
        → Answers (where_clause type_name sql) values rows total
    list_rows-Answers sql values rows total h =
        let condition = where_clause type_name sql in
        both_answer (count_answer condition values) (page_answer condition values) rows total
          (sym (list_rows-answered sql values) ∙ h)

    Answers-list_rows :
        (sql : Text) (values : List (Value F)) (rows : List ListedRow) (total : ℕ)
        → Answers (where_clause type_name sql) values rows total
        → rows_of sql values ≡ ok (rows, total)
    unfolding list_rows
    Answers-list_rows sql values rows total (c, p) = rw (list_rows, c, p) refl

    abbrev page_of : Text → Result ListError (List ListedRow × ℕ)
    page_of filter = list_page parse_float queries attrs type_name provider filter offset limit

    module _ (plain : PlainColumns attrs) where
      pub list_page-Answered :
          (filter : Text) (rows : List ListedRow) (total : ℕ)
          → page_of filter ≡ ok (rows, total)
          → Answered filter rows total
      unfolding list_page
      list_page-Answered filter rows total h =
          elim (Result-cases (translate_filter parse_float attrs filter)) [
            | inr (f, t) ↦ absurd (err-ne-ok f (rows, total) (rw (list_page, t) at h))
            | inl ((sql, values), t) ↦ (
              where_clause type_name sql,
              values,
              translate_filter-IsCondition plain type_name filter sql values t,
              list_rows-Answers sql values rows total (rw (list_page, t) at h),
            )
          ]

      pub Answered-list_page :
          (filter : Text) (rows : List ListedRow) (total : ℕ)
          → Answered filter rows total
          → page_of filter ≡ ok (rows, total)
      unfolding list_page translate_filter
      Answered-list_page filter rows total (condition, values, inl (n, k, v), a) =
          let a' =
            subst (λ t. Answers t values rows total) (k ∙ sym (where_clause-nil type_name)) a in
          let a'' = subst (λ vs. Answers (where_clause type_name []) vs rows total) v a' in
          rw n (Answers-list_rows [] [] rows total a'')
      Answered-list_page filter rows total
            (condition, values, inr (e, sql, (c, s, w), p, q, k), a) =
          let written = filter_to_sql-Written attrs e sql values q in
          let apart = filter_to_sql-apart attrs plain e sql values q in
          let a' =
            subst (λ t. Answers t values rows total)
              (k ∙ sym (where_clause-filter type_name sql written apart)) a in
          let t =
            parsed-translate_filter c s e sql values (subst (λ f. parse parse_float f ≡ ok e) w p)
              q in
          rw (w, list_page, t) (Answers-list_rows (print_sql sql) values rows total a')
