-- ===== src/Scim/Listing/Numbered.antt =====
-- The placeholders of the lists of internal/scim/users and internal/scim/groups.
use oad.Base.{
  ℕ, zero, suc, ◌+◌, ◌≡◌, refl, sym, ap, ◌∙◌, true, Option, List, [], ◌∷◌, ◌++◌, map, length, arith,
  length-append, inl, inr, ok,
}
use oad.Scim.Text.{Text, text, is_digit}
use oad.Scim.Filter.{Value}
use oad.Scim.Sql.{raw, placeholder, Sql, AttrSpec}
use oad.Scim.Sql.Placeholders.{
  placeholders, placeholders-append, count_from, count_from-append, filter_to_sql-binds,
}
use oad.Scim.Sql.Splice.{print_sql, renumber}
use oad.Scim.Sql.Spliced.{is_plain, references}
use oad.Scim.Sql.Apart.{opens, is_apart, is_apart-append, references-print_sql}
use oad.Scim.Sql.Shifted.{PlainColumns, filter_to_sql-apart}
use oad.Scim.Listing.{
  Arg, where_clause, translate_filter, type_condition, joined_tables, count_sql, list_sql, as_args,
}
use oad.Scim.Listing.Conditions.{
  condition_pieces, and_filter, count_pieces, list_pieces, count_sql-pieces, list_sql-pieces,
}
use oad.Scim.Listing.Asked.{IsCondition, translate_filter-IsCondition}

opens-renumber : (delta : ℕ) (ps : Sql) → opens (renumber delta ps) ≡ opens ps
unfolding renumber
opens-renumber delta [] = refl
opens-renumber delta (raw [] ∷ ps) = refl
opens-renumber delta (raw (c ∷ s) ∷ ps) = refl
opens-renumber delta (placeholder n ∷ ps) = refl

is_apart-renumber : (delta : ℕ) (ps : Sql) → is_apart (renumber delta ps) ≡ is_apart ps
unfolding renumber is_apart
is_apart-renumber delta [] = refl
is_apart-renumber delta (raw s ∷ ps) = rw (is_apart-renumber delta ps) refl
is_apart-renumber delta (placeholder n ∷ ps) =
    rw (opens-renumber delta ps, is_apart-renumber delta ps) refl

placeholders-renumber :
    (delta : ℕ) (ps : Sql)
    → placeholders (renumber delta ps) ≡ map (λ n. n + delta) (placeholders ps)
unfolding renumber placeholders
placeholders-renumber delta [] = refl
placeholders-renumber delta (raw s ∷ ps) = placeholders-renumber delta ps
placeholders-renumber delta (placeholder n ∷ ps) =
    ap (λ ns. (n + delta) ∷ ns) (placeholders-renumber delta ps)

map-count_from : (k n : ℕ) → map (λ m. m + 1) (count_from k n) ≡ count_from (suc k) n
unfolding count_from
map-count_from k zero = refl
map-count_from k (suc n) =
    let next : suc k + 1 ≡ suc (suc k) = omega arith in rw (next, map-count_from (suc k) n) refl

length-map {ℓ} : {A B : Type ℓ} (f : A → B) (xs : List A) → length (map f xs) ≡ length xs
length-map f [] = refl
length-map f (x ∷ xs) = ap suc (length-map f xs)

raw-apart :
    (s : Text) (ps : Sql) → is_plain s ≡ true → is_apart ps ≡ true → is_apart (raw s ∷ ps) ≡ true
unfolding is_apart
raw-apart s ps p a = rw (p, a) refl

placeholder-apart :
    (n : ℕ) (ps : Sql) → opens ps ≡ true → is_apart ps ≡ true → is_apart (placeholder n ∷ ps) ≡ true
unfolding is_apart
placeholder-apart n ps o a = rw (o, a) refl

apart-nil : is_apart [] ≡ true
unfolding is_apart
apart-nil = refl

-- The pieces that list_pieces adds after the condition.
abbrev page_pieces : ℕ → Sql
page_pieces size =
    raw (text "\n\t\tORDER BY e.created_at, e.id\n\t\tLIMIT ")
    ∷ placeholder (size + 1)
    ∷ raw (text " OFFSET ")
    ∷ placeholder (size + 2)
    ∷ []

page_pieces-apart : (size : ℕ) → is_apart (page_pieces size) ≡ true
unfolding is_plain is_digit is_apart
page_pieces-apart size = refl

count_pieces-apart : (ps : Sql) → is_apart ps ≡ true → is_apart (count_pieces ps) ≡ true
unfolding is_plain
count_pieces-apart ps a =
    raw-apart _ (raw joined_tables ∷ ps) refl (raw-apart joined_tables ps refl a)

list_pieces-apart :
    (ps : Sql) (size : ℕ) → is_apart ps ≡ true → is_apart (list_pieces ps size) ≡ true
unfolding is_plain is_digit
list_pieces-apart ps size a =
    let page = is_apart-append ps (page_pieces size) a (page_pieces-apart size) refl in
    raw-apart _ (raw joined_tables ∷ ps ++ page_pieces size) refl
      (raw-apart joined_tables (ps ++ page_pieces size) refl page)

last_two : (n : ℕ) → (n + 1) ∷ (n + 2) ∷ [] ≡ count_from n 2
unfolding count_from
last_two n =
    let one : n + 1 ≡ suc n = omega arith in
    let two : n + 2 ≡ suc (suc n) = omega arith in rw (one, two) refl

list_pieces-count_from :
    (ps : Sql) (n : ℕ)
    → placeholders ps ≡ count_from 0 n
    → placeholders (list_pieces ps n) ≡ count_from 0 (n + 2)
unfolding placeholders
list_pieces-count_from ps n h =
    placeholders-append ps (page_pieces n)
    ∙ (ap (λ ns. ns ++ ((n + 1) ∷ (n + 2) ∷ [])) h
        ∙ (ap (λ ns. count_from 0 n ++ ns) (last_two n)
            ∙ count_from-append 0 n n 2 (n + 2) (omega arith) refl))

module _ {F : Type 0} (parse_float : Text → Option F) (attrs : Text → Option AttrSpec)
    (plain : PlainColumns attrs) (type_name : Text)
    (plain_type : is_plain (type_condition type_name) ≡ true) where
  -- A condition in pieces, apart and numbered.
  abbrev IsNumbered : Text → ℕ → Type 0
  IsNumbered condition n =
      (ps : Sql) × (condition ≡ print_sql ps)
      × (is_apart ps ≡ true)
      × (placeholders ps ≡ count_from 0 n)

  IsCondition-IsNumbered :
      (filter condition : Text) (values : List (Value F))
      → IsCondition parse_float attrs type_name filter condition values
      → IsNumbered condition (suc (length values))
  unfolding placeholders count_from is_digit is_plain
  IsCondition-IsNumbered filter condition values (inl (n, k, v)) =
      let apart =
        raw-apart (type_condition type_name) (placeholder 1 ∷ []) plain_type
          (placeholder-apart 1 [] refl apart-nil) in
      (condition_pieces type_name [], k, apart, rw v refl)
  IsCondition-IsNumbered filter condition values (inr (e, sql, w, p, q, k)) =
      let binds = filter_to_sql-binds attrs e sql values q in
      let more =
        raw-apart (text " AND ") (renumber 1 sql) refl
          (is_apart-renumber 1 sql ∙ filter_to_sql-apart attrs plain e sql values q) in
      let apart =
        raw-apart (type_condition type_name) (placeholder 1 ∷ and_filter sql) plain_type
          (placeholder-apart 1 (and_filter sql) refl more) in
      let numbers : placeholders (renumber 1 sql) ≡ count_from 1 (length values) =
        placeholders-renumber 1 sql
        ∙ (ap (map (λ m. m + 1)) binds.1 ∙ map-count_from 0 (length values)) in
      (condition_pieces type_name (and_filter sql), k, apart, ap (λ ns. 1 ∷ ns) numbers)

  -- Whatever the filter, if it is translated, the references in the text of each of the two queries are $1, $2, … in
  -- this order, one for each argument that the query is given. This is so for every table of attributes and every
  -- type whose texts have no `$`.
  pub references-count_from :
      (provider filter sql : Text) (values : List (Value F)) (offset limit : ℕ)
      → translate_filter parse_float attrs filter ≡ ok (sql, values)
      → (references (count_sql (where_clause type_name sql))
          ≡ count_from 0 (length (as_args provider values)))
        × (references (list_sql (where_clause type_name sql) (length (as_args provider values)))
            ≡ count_from 0
                (length (as_args provider values ++ (Arg.int limit ∷ Arg.int offset ∷ []))))
  unfolding placeholders
  references-count_from provider filter sql values offset limit h =
      let c = translate_filter-IsCondition parse_float attrs plain type_name filter sql values h in
      let (ps, text_is, apart, numbers) =
        IsCondition-IsNumbered filter (where_clause type_name sql) values c in
      let args = as_args provider values in
      let size : length args ≡ suc (length values) =
        length-map Arg.bound (Value.string provider ∷ values) in
      let numbers' : placeholders ps ≡ count_from 0 (length args) =
        numbers ∙ ap (count_from 0) (sym size) in
      (
        ap (λ t. references (count_sql t)) text_is
            ∙ (ap references (count_sql-pieces ps)
                ∙ (references-print_sql (count_pieces ps) (count_pieces-apart ps apart)
                    ∙ numbers')),
        ap (λ t. references (list_sql t (length args))) text_is
            ∙ (ap references (list_sql-pieces ps (length args))
                ∙ (references-print_sql (list_pieces ps (length args))
                      (list_pieces-apart ps (length args) apart)
                    ∙ (list_pieces-count_from ps (length args) numbers'
                        ∙ ap (count_from 0)
                            (sym (length-append args (Arg.int limit ∷ Arg.int offset ∷ [])))))),
      )
