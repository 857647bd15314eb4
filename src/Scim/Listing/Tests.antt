-- ===== src/Scim/Listing/Tests.antt =====
-- Runs of the lists of internal/scim/users and internal/scim/groups.
use oad.Base.{
  ℕ, ◌≡◌, refl, true, Option, some, List, [], ◌∷◌, ◌++◌, map, length, if◌then◌else◌, ◌↔◌, ok, err,
}
use oad.Scim.Text.{Text, text, same}
use oad.Scim.Json.{str}
use oad.Scim.Properties.{user_name_key}
use oad.Scim.Filter.{Value}
use oad.Scim.Lexer.{next}
use oad.Scim.Sql.{user_attrs, group_attrs}
use oad.Scim.Sql.Placeholders.{count_from}
use oad.Scim.Sql.Spliced.{is_plain, references}
use oad.Scim.Sql.Shifted.{user_attrs-PlainColumns}
use oad.Scim.Users.Service.{RenderedUser, user_type}
use oad.Scim.Groups.Repository.{RenderedGroup, group_type}
use oad.Scim.Listing.{
  ListedRow, Arg, Queries, invalid_filter, where_clause, count_sql, list_sql, as_args,
  translate_filter, list_users, list_groups,
}
use oad.Scim.Listing.Asked.{Answered}
use oad.Scim.Listing.Answered.{listed_user, listed_group, lists_iff}
use oad.Scim.Listing.Numbered.{references-count_from}

abbrev kept : Text → Option Text
kept s = some s

abbrev no_uuid : ℕ → Text
no_uuid n = text "uuid"

abbrev sample_filter : Text
sample_filter = text "userName sw \"a_\" and active eq true"

abbrev sample_sql : Text
sample_sql =
    text "(e.properties->>'userName' ILIKE $1 ESCAPE '\\' AND (e.properties->>'active')::bool = $2)"

abbrev sample_values : List (Value Text)
sample_values = Value.string (text "a\\_%") ∷ Value.bool true ∷ []

sample-translate_filter :
    translate_filter kept user_attrs sample_filter ≡ ok (sample_sql, sample_values)
unfolding translate_filter next user_attrs
sample-translate_filter = refl

sample-where_clause :
    where_clause user_type sample_sql
    ≡ text
        "t.type_name = 'User' AND ei.provider_name = $1 AND (e.properties->>'userName' ILIKE $2 ESCAPE '\\' AND (e.properties->>'active')::bool = $3)"
unfolding where_clause
sample-where_clause = refl

references-count_from_example :
    (references (count_sql (where_clause user_type sample_sql))
      ≡ count_from 0 (length (as_args (text "okta") sample_values)))
    × (references (
          list_sql
            (where_clause user_type sample_sql)
            (length (as_args (text "okta") sample_values)))
        ≡ count_from 0
            (length (as_args (text "okta") sample_values ++ (Arg.int 20 ∷ Arg.int 0 ∷ []))))
unfolding is_plain
references-count_from_example =
    references-count_from kept user_attrs user_attrs-PlainColumns user_type refl (text "okta")
      sample_filter sample_sql sample_values 0 20 sample-translate_filter

-- A database with one user of the provider okta.
abbrev ann : ListedRow
ann = record {
  entity_id = 7;
  properties = (user_name_key, str (text "ann")) ∷ [];
  external_subject = text "u1";
}

abbrev asked_for : List (Arg Text) → Text
asked_for (Arg.bound (Value.string s) ∷ args) = s
asked_for args = []

abbrev sample_queries : Queries Text
unfolding same
sample_queries = record {
  count = λ sql args. some (if same (asked_for args) (text "okta") then 1 else 0);
  page = λ sql args. some (if same (asked_for args) (text "okta") then ann ∷ [] else []);
}

list_users-okta :
    list_users kept sample_queries no_uuid (text "okta") sample_filter 0 20
    ≡ ok (listed_user no_uuid ann ∷ [], 1)
unfolding list_users next
list_users-okta = refl

list_users-other :
    list_users kept sample_queries no_uuid (text "entra") sample_filter 0 20 ≡ ok ([], 0)
unfolding list_users next
list_users-other = refl

list_groups-invalid :
    list_groups kept sample_queries no_uuid (text "okta") (text "userName pr") 0 20
    ≡ err invalid_filter
unfolding list_groups next
list_groups-invalid = refl

lists_iff_example :
    ((users : List RenderedUser) (total : ℕ)
      → (list_users kept sample_queries no_uuid (text "okta") sample_filter 0 20
          ≡ ok (users, total))
        ↔ ((rows : List ListedRow) × Answered kept user_attrs sample_queries user_type
              (text "okta")
              0
              20
              sample_filter
              rows
              total
            × (map (listed_user no_uuid) rows ≡ users)))
    × ((groups : List RenderedGroup) (total : ℕ)
        → (list_groups kept sample_queries no_uuid (text "okta") sample_filter 0 20
            ≡ ok (groups, total))
          ↔ ((rows : List ListedRow) × Answered kept group_attrs sample_queries group_type
                (text "okta")
                0
                20
                sample_filter
                rows
                total
              × (map (listed_group no_uuid) rows ≡ groups)))
lists_iff_example = lists_iff kept sample_queries no_uuid (text "okta") sample_filter 0 20
