-- ===== src/Scim/Groups/Repository.antt =====
-- internal/scim/groups/repository.go, less List (Scim/Listing), with the types of internal/scim/groups/model.go and
-- mapper.go.
use oad.Base.{
  ℕ, Bool, false, not, ◌&&◌, Option, none, some, List, [], ◌∷◌, length, ◌==◌, Result, ok, err,
  guard, ◌>>=◌,
}
use oad.Scim.Text.{Text, text, same}
use oad.Scim.Json.{Json, str}
use oad.Scim.Properties.{Properties, display_name_key}
use oad.Scim.Patch.{PatchError}
use oad.Scim.Groups.{PatchState}
use oad.Scim.Groups.Membership.{
  MemberEntity, insert_new, reconcile_members, fetch_members, validate_members,
}
use oad.Scim.Store.{
  ScimError, invalid_member, builtin_group, patch_failed, Tables, Conditions, row_id, insert_linked,
  get_linked, overwrite, unlink,
}
use oad.Table.{find_by_id}

-- Group as it comes in; of the members only `value` is read.
pub record GroupInput : Type 0 where
  pub external_id : Text
  pub display_name : Text
  pub members : List Text

-- StoredGroup, less the times.
pub record StoredGroup : Type 0 where
  pub entity_id : ℕ
  pub properties : Properties
  pub external_subject : Text
  pub members : List MemberEntity

-- Member and Group as they are answered, less the times and the ETag, which is a hash.
pub record RenderedMember : Type 0 where
  pub value : Text
  pub ref : Text
  pub type_name : Text
  pub display : Option Json

pub record RenderedGroup : Type 0 where
  pub id : Text
  pub external_id : Text
  pub display_name : Text
  pub members : List RenderedMember
  pub location : Text

-- ToProperties
unfoldable pub group_properties : GroupInput → Properties
group_properties g = (display_name_key, str g.display_name) ∷ []

abbrev pub group_type : Text
group_type = text "Group"

-- displayName, where it is a string, and otherwise the empty text.
unfoldable pub display_name_of : Option Json → Text
display_name_of (some (str s)) = s
display_name_of _ = []

-- memberEntityIDs
unfoldable pub member_entity_ids : List MemberEntity → List ℕ
member_entity_ids [] = []
member_entity_ids (m ∷ ms) = m.entity_id ∷ member_entity_ids ms

abbrev pub as_scim : Result PatchError PatchState → Result ScimError PatchState
as_scim (ok s) = ok s
as_scim (err e) = err (patch_failed e)

-- The query with which Delete and Replace look for a built-in group; if it fails, they go on.
unfoldable pub is_builtin_group : Conditions → ℕ → Tables → Bool
unfolding find_by_id same
is_builtin_group env id t = elim (find_by_id row_id id t.entities) [
  | none ↦ false
  | some e ↦ not env.reads_fail && (same e.type_name group_type && e.is_builtin)
]

module _ (env : Conditions) (provider : Text) where
  -- The members that a payload names have all to be resolved.
  unfoldable pub check_members : List ℕ → Tables → Result ScimError (Unit {0})
  unfolding validate_members
  check_members ids t = do
    found ← validate_members env provider ids t
    guard (length found == length ids) invalid_member

  -- GetByEntityID of the repository.
  unfoldable pub read_group : ℕ → Tables → Result ScimError StoredGroup
  unfolding get_linked fetch_members
  read_group id t = do
    (row, subject) ← get_linked env group_type provider id t
    members ← fetch_members env id t
    ok (record {
      entity_id = id;
      properties = row.properties;
      external_subject = subject;
      members = members;
    })

  -- Create of the repository.
  unfoldable pub create_row :
      Text → Properties → List ℕ → Tables → Result ScimError (StoredGroup × Tables)
  unfolding insert_linked insert_new fetch_members
  create_row subject props [] t = do
    (row, t₁) ← insert_linked env group_type provider subject props t
    ok (
      record { entity_id = row.id; properties = props; external_subject = subject; members = [] },
      t₁,
    )
  create_row subject props (x ∷ xs) t = do
    (row, t₁) ← insert_linked env group_type provider subject props t
    ms ← insert_new env row.id [] (x ∷ xs) t₁.entities t₁.memberships
    members ← fetch_members env row.id (record t₁ { memberships = ms })
    ok (
      record {
        entity_id = row.id;
        properties = props;
        external_subject = subject;
        members = members;
      },
      record t₁ { memberships = ms },
    )

  -- Replace of the repository.
  unfoldable pub replace_row :
      ℕ → Properties → List ℕ → Tables → Result ScimError (StoredGroup × Tables)
  unfolding is_builtin_group overwrite reconcile_members fetch_members
  replace_row id props wanted t = do
    _ ← guard (not (is_builtin_group env id t)) builtin_group
    ((row, subject), t₁) ← overwrite env group_type provider id props t
    t₂ ← reconcile_members env id wanted t₁
    members ← fetch_members env id t₂
    ok (
      record { entity_id = id; properties = props; external_subject = subject; members = members },
      t₂,
    )

  -- Delete of the repository.
  unfoldable pub delete_group_row : ℕ → Tables → Result ScimError Tables
  unfolding is_builtin_group unlink
  delete_group_row id t = do
    _ ← guard (not (is_builtin_group env id t)) builtin_group
    unlink env provider id t
