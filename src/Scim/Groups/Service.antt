-- ===== src/Scim/Groups/Service.antt =====
-- internal/scim/groups/service.go, less List (Scim/Listing), and FromStored of internal/scim/groups/mapper.go.
use oad.Base.{
  ℕ, not, Option, none, some, List, [], ◌∷◌, ◌++◌, if◌then◌else◌, Result, ok, err, guard, ◌>>=◌,
}
use oad.Scim.Text.{Text, text, same}
use oad.Scim.Properties.{Properties, get_property, display_name_key}
use oad.Scim.Patch.{PatchOp}
use oad.Scim.Groups.{patch_group}
use oad.Scim.Groups.Members.{contains}
use oad.Scim.Groups.Membership.{MemberEntity}
use oad.Scim.Store.{
  ScimError, attribute_required, external_id_required, invalid_member, Tables, Conditions,
  scim_actor, write_entry, transaction,
}
use oad.Entity.Store.{op_create, op_update, op_delete}
use oad.Scim.Groups.Repository.{
  GroupInput, StoredGroup, RenderedMember, RenderedGroup, group_properties, group_type,
  display_name_of, member_entity_ids, as_scim, check_members, read_group, create_row, replace_row,
  delete_group_row,
}

-- The transactions of the service.
module _ (env : Conditions) (provider : Text) where
  -- What Replace and Patch do alike.
  unfoldable pub replace_audited :
      StoredGroup → Properties → List ℕ → Tables → Result ScimError (StoredGroup × Tables)
  unfolding check_members replace_row write_entry scim_actor
  replace_audited before props wanted t = do
    _ ← check_members env provider wanted t
    (stored, t₁) ← replace_row env provider before.entity_id props wanted t
    t₂ ←
        write_entry env
          (record {
            actor = scim_actor provider;
            operation = op_update;
            resource_type = text "group";
            resource_id = before.entity_id;
            before_value = some before.properties;
            after_value = some props;
          })
          t₁
    ok (stored, t₂)

  -- Delete of the service, in its transaction.
  unfoldable pub delete_audited : ℕ → Tables → Result ScimError (Unit {0} × Tables)
  unfolding read_group delete_group_row write_entry scim_actor
  delete_audited id t = do
    before ← read_group env provider id t
    t₁ ← delete_group_row env provider id t
    t₂ ←
        write_entry env
          (record {
            actor = scim_actor provider;
            operation = op_delete;
            resource_type = text "group";
            resource_id = id;
            before_value = some before.properties;
            after_value = none;
          })
          t₁
    ok (tt, t₂)

  -- Create of the service, in its transaction.
  unfoldable pub create_audited :
      GroupInput → List ℕ → Tables → Result ScimError (StoredGroup × Tables)
  unfolding check_members group_properties create_row write_entry scim_actor
  create_audited in_group ids t = do
    _ ← check_members env provider ids t
    (stored, t₁) ← create_row env provider in_group.external_id (group_properties in_group) ids t
    t₂ ←
        write_entry env
          (record {
            actor = scim_actor provider;
            operation = op_create;
            resource_type = text "group";
            resource_id = stored.entity_id;
            before_value = none;
            after_value = some (group_properties in_group);
          })
          t₁
    ok (stored, t₂)

-- uuid.Parse, of github.com/google/uuid.
module _ (parse_uuid : Text → Option ℕ) where
  -- The loop of parseMemberIDs, with its map of the members that were seen.
  unfoldable parse_from : List ℕ → List Text → Result ScimError (List ℕ)
  unfolding contains
  parse_from seen [] = ok []
  parse_from seen (v ∷ vs) = elim (parse_uuid v) [
    | none ↦ err invalid_member
    | some id ↦
        if contains seen id
        then err invalid_member
        else (do ids ← parse_from (id ∷ seen) vs; ok (id ∷ ids))
  ]

  unfoldable pub parse_member_ids : List Text → Result ScimError (List ℕ)
  unfolding parse_from
  parse_member_ids members = parse_from [] members

  module _ (env : Conditions) (provider : Text) where
    -- Create
    unfoldable pub create_group : GroupInput → Tables → Result ScimError StoredGroup × Tables
    unfolding same parse_member_ids create_audited transaction
    create_group in_group t =
        if same in_group.display_name []
        then (err attribute_required, t)
        else if same in_group.external_id []
        then (err external_id_required, t)
        else elim (parse_member_ids in_group.members) [
          | err e ↦ (err e, t)
          | ok ids ↦ transaction env (create_audited env provider in_group ids) t
        ]

    -- Replace
    unfoldable pub replace_in :
        ℕ → GroupInput → List ℕ → Tables → Result ScimError (StoredGroup × Tables)
    unfolding read_group replace_audited group_properties
    replace_in id in_group ids t = do
      before ← read_group env provider id t
      replace_audited env provider before (group_properties in_group) ids t

    unfoldable pub replace_group : ℕ → GroupInput → Tables → Result ScimError StoredGroup × Tables
    unfolding same parse_member_ids replace_in transaction
    replace_group id in_group t =
        if same in_group.display_name []
        then (err attribute_required, t)
        else elim (parse_member_ids in_group.members) [
          | err e ↦ (err e, t)
          | ok ids ↦ transaction env (replace_in id in_group ids) t
        ]

    module _ {F : Type 0} (parse_float : Text → Option F) where
      -- Patch
      unfoldable pub patch_in : ℕ → List PatchOp → Tables → Result ScimError (StoredGroup × Tables)
      unfolding read_group member_entity_ids patch_group display_name_of get_property same
          replace_audited
      patch_in id ops t = do
        before ← read_group env provider id t
        next ← as_scim (
            patch_group parse_uuid parse_float ops (record {
              properties = before.properties;
              member_ids = member_entity_ids before.members;
            }))
        _ ←
            guard (not (same (display_name_of (get_property display_name_key next.properties)) []))
              attribute_required
        replace_audited env provider before next.properties next.member_ids t

      unfoldable pub patch_stored :
          ℕ → List PatchOp → Tables → Result ScimError StoredGroup × Tables
      unfolding read_group patch_in transaction
      patch_stored id [] t = (read_group env provider id t, t)
      patch_stored id (o ∷ os) t = transaction env (patch_in id (o ∷ os)) t

-- Delete
unfoldable pub delete_group : Conditions → Text → ℕ → Tables → Result ScimError (Unit {0}) × Tables
unfolding delete_audited transaction
delete_group env provider id t = transaction env (delete_audited env provider id) t

-- uuid.UUID.String
module _ (print_uuid : ℕ → Text) where
  -- memberRef
  unfoldable member_ref : MemberEntity → Text
  unfolding same
  member_ref m =
      (if same m.type_name group_type then text "/scim/v2/Groups/" else text "/scim/v2/Users/")
      ++ print_uuid m.entity_id

  unfoldable render_members : List MemberEntity → List RenderedMember
  unfolding member_ref
  render_members [] = []
  render_members (m ∷ ms) =
      record {
        value = print_uuid m.entity_id;
        ref = member_ref m;
        type_name = m.type_name;
        display = m.display;
      }
      ∷ render_members ms

  -- FromStored
  unfoldable pub group_from_stored : StoredGroup → RenderedGroup
  unfolding render_members display_name_of get_property
  group_from_stored s = record {
    id = print_uuid s.entity_id;
    external_id = s.external_subject;
    display_name = display_name_of (get_property display_name_key s.properties);
    members = render_members s.members;
    location = text "/scim/v2/Groups/" ++ print_uuid s.entity_id;
  }
