-- ===== src/Auth/Graph.antt =====
-- pgxResolverRepository of internal/auth/resolver.go: its queries over the rows that row-level security shows to the
-- pool.
mod Named
mod Standing
mod Systems
mod Granted
mod Linked
mod Provisioned
mod Promoted
mod Tests
use oad.Base.{
  ℕ, Bool, true, false, ◌&&◌, ◌||◌, not, Option, none, some, List, [], ◌∷◌, ◌++◌, ◌==◌,
  if◌then◌else◌, Result, ok, err, ◌>>=◌,
}
use oad.Scim.Text.{Text, text, same}
use oad.Scim.Json.{Json, null, bool, str}
use oad.Scim.Properties.{Properties, get_property, display_name_key, active_key}
use oad.Scim.Groups.Members.{contains}
use oad.Scim.Store.{EntityRow, ExternalIdentity, MemberOf, Tables, row_id}
use oad.Auth.{AuthError, not_provisioned, failed, ResolverRepository, has_group}
use oad.Table.{find_by_id}

-- A row of relation, without its system.
pub record Edge : Type 0 where
  pub subject_entity_id : ℕ
  pub relation_type : Text
  pub target_entity_id : ℕ

pub record Graph : Type 0 where
  pub entities : List EntityRow
  pub links : List ExternalIdentity
  pub edges : List Edge

-- The queries, each of which may fail.
pub data Query : Type 0 where
  entity_id_query active_query groups_query group_ids_query systems_query : Query

unfoldable pub starts_with_scim : Text → Bool
starts_with_scim (a ∷ b ∷ c ∷ d ∷ e ∷ rest) = same (a ∷ b ∷ c ∷ d ∷ e ∷ []) (text "scim:")
starts_with_scim _ = false

-- `e.external_id LIKE 'scim:%' AND e.properties->>'displayName' = …`: only a string prints as one of these names.
unfoldable pub displayed_as : Text → Option Json → Bool
unfolding same
displayed_as name (some (str s)) = same s name
displayed_as name _ = false

-- The CASE of the query of Groups.
unfoldable pub group_name : EntityRow → Text
unfolding starts_with_scim displayed_as get_property
group_name e =
    let scim = starts_with_scim e.external_id in
    let display = get_property display_name_key e.properties in
    if scim && displayed_as (text "oad-admin") display
    then text "oad:admin"
    else if scim && displayed_as (text "oad-system-admin") display
    then text "oad:system-admin"
    else if scim && displayed_as (text "oad-editor") display
    then text "oad:editor"
    else if scim && displayed_as (text "oad-viewer") display
    then text "oad:viewer"
    else e.external_id

-- The row of an entity of a type.
abbrev pub of_type : Text → Option EntityRow → Option EntityRow
of_type type_name none = none
of_type type_name (some e) = if same e.type_name type_name then some e else none

unfoldable pub typed_row : Text → ℕ → List EntityRow → Option EntityRow
unfolding find_by_id same
typed_row type_name id es = of_type type_name (find_by_id row_id id es)

unfoldable pub is_edge : Edge → ℕ → Text → Bool
unfolding same
is_edge r x relation_type = (r.subject_entity_id == x) && same r.relation_type relation_type

unfoldable pub group_names : List EntityRow → ℕ → List Edge → List Text
unfolding is_edge typed_row group_name
group_names es x [] = []
group_names es x (r ∷ rs) =
    let rest = group_names es x rs in
    elim (typed_row (text "Group") r.target_entity_id es) [
      | none ↦ rest
      | some g ↦ if is_edge r x (text "member_of") then group_name g ∷ rest else rest
    ]

-- The first query of AllowedSystems, which asks for no type.
unfoldable pub ids_named : List Text → List EntityRow → List ℕ
unfolding has_group
ids_named names [] = []
ids_named names (e ∷ es) =
    let rest = ids_named names es in if has_group names e.external_id then e.id ∷ rest else rest

-- The second one; DISTINCT.
unfoldable pub systems_of : List EntityRow → List ℕ → List Edge → List ℕ
unfolding contains typed_row same
systems_of es subjects [] = []
systems_of es subjects (r ∷ rs) =
    let rest = systems_of es subjects rs in
    elim (typed_row (text "System") r.target_entity_id es) [
      | none ↦ rest
      | some s ↦
          if same r.relation_type (text "has_role_in")
            && (contains subjects r.subject_entity_id && not (contains rest r.target_entity_id))
          then r.target_entity_id ∷ rest
          else rest
    ]

unfoldable pub linked_entity : Text → Text → List ExternalIdentity → Option ℕ
unfolding same
linked_entity provider subject [] = none
linked_entity provider subject (l ∷ ls) =
    if same l.provider_name provider && same l.external_subject subject
    then some l.entity_id
    else linked_entity provider subject ls

-- PostgreSQL's cast of the text of a JSON value to boolean; none is its error.
module _ (cast_boolean : Json → Option Bool) where
  -- `COALESCE((properties->>'active')::boolean, true)`
  unfoldable pub active_flag : Option Json → Result AuthError Bool
  active_flag none = ok true
  active_flag (some null) = ok true
  active_flag (some (bool b)) = ok b
  active_flag (some v) = elim (cast_boolean v) [ none ↦ err failed | some b ↦ ok b ]

  module _ (fails : Query → Bool) (g : Graph) where
    unfoldable pub find_entity_id : Text → Text → Result AuthError ℕ
    unfolding linked_entity
    find_entity_id provider subject =
        if fails entity_id_query
        then err failed
        else elim (linked_entity provider subject g.links) [
          | none ↦ err not_provisioned
          | some id ↦ ok id
        ]

    unfoldable pub is_active : ℕ → Result AuthError Bool
    unfolding find_by_id active_flag get_property
    is_active id =
        if fails active_query then err failed else elim (find_by_id row_id id g.entities) [
          | none ↦ err not_provisioned
          | some e ↦ active_flag (get_property active_key e.properties)
        ]

    unfoldable pub groups_of : ℕ → Result AuthError (List Text)
    unfolding group_names
    groups_of id = if fails groups_query then err failed else ok (group_names g.entities id g.edges)

    -- No query is made for no groups.
    unfoldable pub group_ids : List Text → Result AuthError (List ℕ)
    unfolding ids_named
    group_ids [] = ok []
    group_ids (name ∷ names) =
        if fails group_ids_query then err failed else ok (ids_named (name ∷ names) g.entities)

    unfoldable pub allowed_systems_of : ℕ → List Text → Result AuthError (List ℕ)
    unfolding group_ids systems_of
    allowed_systems_of id names = do
      ids ← group_ids names
      if fails systems_query then err failed else ok (systems_of g.entities (id ∷ ids) g.edges)

    -- NewResolverRepository
    unfoldable pub resolver_repository : ResolverRepository
    unfolding find_entity_id is_active groups_of allowed_systems_of
    resolver_repository = record {
      find_entity_id = find_entity_id;
      is_active = is_active;
      groups_of = groups_of;
      allowed_systems_of = allowed_systems_of;
    }
