-- ===== src/Scim/Listing/Conditions.antt =====
-- The texts of the queries of the lists of internal/scim/users and internal/scim/groups, in pieces.
use oad.Base.{ℕ, ◌+◌, ◌≡◌, refl, ap, ◌∙◌, true, [], ◌∷◌, ◌++◌, append-nil}
use oad.Scim.Text.{Text, text}
use oad.Scim.Sql.{raw, placeholder, Sql}
use oad.Scim.Sql.Splice.{decimal, print_sql, shift_placeholders, renumber}
use oad.Scim.Sql.Apart.{print_sql-append, is_apart, shift_placeholders-print_sql}
use oad.Scim.Sql.Written.{Written}
use oad.Scim.Listing.{joined_tables, type_condition, where_clause, count_sql, list_sql}

-- A condition as the pieces that a filter adds to the condition of the type and of the provider.
abbrev pub condition_pieces : Text → Sql → Sql
condition_pieces type_name more = raw (type_condition type_name) ∷ placeholder 1 ∷ more

abbrev pub and_filter : Sql → Sql
and_filter sql = raw (text " AND ") ∷ renumber 1 sql

abbrev pub count_pieces : Sql → Sql
count_pieces condition = raw (text "\n\t\tSELECT COUNT(*)") ∷ raw joined_tables ∷ condition

abbrev pub list_pieces : Sql → ℕ → Sql
list_pieces condition size =
    raw (text "\n\t\tSELECT e.id, e.properties, ei.external_subject, e.created_at, e.updated_at")
      ∷ raw joined_tables
      ∷ condition
    ++ (raw (text "\n\t\tORDER BY e.created_at, e.id\n\t\tLIMIT ")
        ∷ placeholder (size + 1)
        ∷ raw (text " OFFSET ")
        ∷ placeholder (size + 2)
        ∷ [])

pub count_sql-pieces : (ps : Sql) → count_sql (print_sql ps) ≡ print_sql (count_pieces ps)
unfolding count_sql print_sql
count_sql-pieces ps = refl

pub list_sql-pieces :
    (ps : Sql) (size : ℕ) → list_sql (print_sql ps) size ≡ print_sql (list_pieces ps size)
unfolding list_sql print_sql
list_sql-pieces ps size =
    let last : Sql =
      raw (text "\n\t\tORDER BY e.created_at, e.id\n\t\tLIMIT ")
      ∷ placeholder (size + 1)
      ∷ raw (text " OFFSET ")
      ∷ placeholder (size + 2)
      ∷ [] in
    rw (list_sql, print_sql-append ps last, append-nil (decimal (size + 2))) refl

pub where_clause-nil :
    (type_name : Text) → where_clause type_name [] ≡ print_sql (condition_pieces type_name [])
unfolding where_clause print_sql decimal
where_clause-nil type_name = refl

where_clause-Written :
    (type_name filter_sql : Text)
    → Written filter_sql
    → where_clause type_name filter_sql
      ≡ type_condition type_name ++ (text "$1" ++ (text " AND " ++ shift_placeholders filter_sql 1))
unfolding where_clause
where_clause-Written type_name filter_sql (c, rest, w) = rw w refl

pub where_clause-filter :
    (type_name : Text) (sql : Sql)
    → Written (print_sql sql)
    → is_apart sql ≡ true
    → where_clause type_name (print_sql sql)
      ≡ print_sql (condition_pieces type_name (and_filter sql))
unfolding where_clause print_sql decimal
where_clause-filter type_name sql (c, rest, w) a =
    let shifted = shift_placeholders-print_sql 1 sql a in
    where_clause-Written type_name (print_sql sql) (c, rest, w)
    ∙ ap (λ t. type_condition type_name ++ (text "$1" ++ (text " AND " ++ t))) shifted
