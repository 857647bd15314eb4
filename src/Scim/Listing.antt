-- ===== src/Scim/Listing.antt =====
-- List of internal/scim/users/service.go and internal/scim/groups/service.go, with List of the two repositories, which
-- differ in the type, the table of attributes and the view of a row.
mod Conditions
mod Numbered
mod Asked
mod Answered
mod Tests
use oad.Base.{ℕ, ◌+◌, Option, none, some, List, [], ◌∷◌, ◌++◌, map, length, Result, ok, err, ◌>>=◌}
use oad.Scim.Text.{Text, text}
use oad.Scim.Properties.{Properties}
use oad.Scim.Filter.{Value, Expr, parse}
use oad.Scim.Sql.{AttrSpec, user_attrs, group_attrs, filter_to_sql}
use oad.Scim.Sql.Splice.{decimal, print_sql, shift_placeholders}
use oad.Scim.Users.Service.{RenderedUser, user_from_stored, user_type}
use oad.Scim.Groups.Repository.{StoredGroup, RenderedGroup, group_type}
use oad.Scim.Groups.Service.{group_from_stored}

-- A row of the result, less the times.
pub record ListedRow : Type 0 where
  pub entity_id : ℕ
  pub properties : Properties
  pub external_subject : Text

-- What a query is given for a placeholder.
pub data Arg (F : Type 0) : Type 0 where
  bound : Value F → Arg F
  int : ℕ → Arg F

-- What the database answers to the text of a query and its arguments; none is an error.
pub record Queries (F : Type 0) : Type 0 where
  pub count : Text → List (Arg F) → Option ℕ
  pub page : Text → List (Arg F) → Option (List ListedRow)

pub data ListError : Type 0 where
  invalid_filter query_failed : ListError

-- The text up to the condition, and the condition of the type and of the provider.
abbrev pub joined_tables : Text
joined_tables =
    text
      "\n\t\tFROM entity e\n\t\tJOIN entity_type_definition t ON t.id = e.type_id\n\t\tJOIN entity_external_identity ei ON ei.entity_id = e.id\n\t\tWHERE "

abbrev pub type_condition : Text → Text
type_condition type_name = text "t.type_name = '" ++ (type_name ++ text "' AND ei.provider_name = ")

unfoldable pub where_clause : Text → Text → Text
unfolding shift_placeholders
where_clause type_name [] = type_condition type_name ++ text "$1"
where_clause type_name (c ∷ filter_sql) =
    type_condition type_name
    ++ (text "$1" ++ (text " AND " ++ shift_placeholders (c ∷ filter_sql) 1))

unfoldable pub count_sql : Text → Text
count_sql condition = text "\n\t\tSELECT COUNT(*)" ++ (joined_tables ++ condition)

-- listSQL, with the number of the arguments before LIMIT's.
unfoldable pub list_sql : Text → ℕ → Text
unfolding decimal
list_sql condition size =
    text "\n\t\tSELECT e.id, e.properties, ei.external_subject, e.created_at, e.updated_at"
    ++ (joined_tables
        ++ (condition
            ++ (text "\n\t\tORDER BY e.created_at, e.id\n\t\tLIMIT $"
                ++ (decimal (size + 1) ++ (text " OFFSET $" ++ decimal (size + 2))))))

module _ {F : Type 0} where
  abbrev pub as_args : Text → List (Value F) → List (Arg F)
  as_args provider filter_args = map Arg.bound (Value.string provider ∷ filter_args)

  -- List of a repository.
  unfoldable pub list_rows :
      Queries F
      → Text
      → Text
      → Text
      → List (Value F)
      → ℕ
      → ℕ
      → Result ListError (List ListedRow × ℕ)
  unfolding where_clause count_sql list_sql
  list_rows queries type_name provider filter_sql filter_args offset limit =
      let condition = where_clause type_name filter_sql in
      let args = as_args provider filter_args in
      elim (queries.count (count_sql condition) args) [
        | none ↦ err query_failed
        | some total ↦
            elim (queries.page (list_sql condition (length args))
              (args ++ (Arg.int limit ∷ Arg.int offset ∷ []))) [
                | none ↦ err query_failed
                | some rows ↦ ok (rows, total)
              ]
      ]

-- strconv.ParseFloat
module _ {F : Type 0} (parse_float : Text → Option F) where
  -- The filter of a request; none is given by the empty text.
  unfoldable pub translate_filter :
      (Text → Option AttrSpec) → Text → Result ListError (Text × List (Value F))
  unfolding parse filter_to_sql print_sql
  translate_filter attrs [] = ok ([], [])
  translate_filter attrs (c ∷ filter) = elim (parse parse_float (c ∷ filter)) [
    | err e ↦ err invalid_filter
    | ok expr ↦ elim (filter_to_sql attrs expr) [
      | err e ↦ err invalid_filter
      | ok (sql, args) ↦ ok (print_sql sql, args)
    ]
  ]

  module _ (queries : Queries F) where
    unfoldable pub list_page :
        (Text → Option AttrSpec)
        → Text
        → Text
        → Text
        → ℕ
        → ℕ
        → Result ListError (List ListedRow × ℕ)
    unfolding translate_filter list_rows
    list_page attrs type_name provider filter offset limit = do
      (filter_sql, filter_args) ← translate_filter attrs filter
      list_rows queries type_name provider filter_sql filter_args offset limit

    -- List of the users' service, with the printing of UUIDs.
    unfoldable pub list_users :
        (ℕ → Text) → Text → Text → ℕ → ℕ → Result ListError (List RenderedUser × ℕ)
    unfolding list_page user_attrs user_from_stored
    list_users print_uuid provider filter offset limit = do
      (rows, total) ← list_page user_attrs user_type provider filter offset limit
      ok (
        map
            (λ (r : ListedRow). user_from_stored print_uuid (record {
              entity_id = r.entity_id;
              properties = r.properties;
              external_subject = r.external_subject;
            }))
            rows,
        total,
      )

    -- List of the groups' service; members are not fetched.
    unfoldable pub list_groups :
        (ℕ → Text) → Text → Text → ℕ → ℕ → Result ListError (List RenderedGroup × ℕ)
    unfolding list_page group_attrs group_from_stored
    list_groups print_uuid provider filter offset limit = do
      (rows, total) ← list_page group_attrs group_type provider filter offset limit
      ok (
        map
            (λ (r : ListedRow). group_from_stored print_uuid (record {
              entity_id = r.entity_id;
              properties = r.properties;
              external_subject = r.external_subject;
              members = [];
            }))
            rows,
        total,
      )
