-- ===== src/Scim/Users/Service.antt =====
-- internal/scim/users/service.go, less List (Scim/Listing), and the methods of internal/scim/users/repository.go that
-- it calls.
-- A call answers with the stored user, and acts on the tables and on the identity cache.
use oad.Base.{
  ℕ, Bool, true, false, Option, none, some, List, [], ◌∷◌, ◌++◌, if◌then◌else◌, Result, ok, err,
  guard, ◌>>=◌,
}
use oad.Auth.Cache.{Cache, cache_key, invalidate}
use oad.Scim.Text.{Text, text, same}
use oad.Scim.Json.{Json, str}
use oad.Scim.Properties.{Properties, get_property, user_name_key}
use oad.Scim.Patch.{PatchOp, PatchError}
use oad.Scim.Users.{patch_user}
use oad.Scim.Users.Mapper.{User, to_properties, from_stored}
use oad.Scim.Store.{
  ScimError, attribute_required, external_id_required, patch_failed, Tables, Conditions, scim_actor,
  insert_linked, get_linked, overwrite, unlink, write_entry, transaction,
}
use oad.Entity.Store.{op_create, op_update, op_delete}

-- StoredUser, less the times.
pub record StoredUser : Type 0 where
  pub entity_id : ℕ
  pub properties : Properties
  pub external_subject : Text

-- User as it is answered, less the times and the ETag.
pub record RenderedUser : Type 0 where
  pub id : Text
  pub external_id : Text
  pub attributes : User
  pub location : Text

-- FromStored, with the printing of UUIDs.
unfoldable pub user_from_stored : (ℕ → Text) → StoredUser → RenderedUser
unfolding from_stored
user_from_stored print_uuid s = record {
  id = print_uuid s.entity_id;
  external_id = s.external_subject;
  attributes = from_stored s.properties;
  location = text "/scim/v2/Users/" ++ print_uuid s.entity_id;
}

-- The tables, and the cache if it is wired.
pub record Server : Type 0 where
  pub tables : Tables
  pub cache : Option Cache

abbrev pub user_type : Text
user_type = text "User"

abbrev pub as_scim : Result PatchError Properties → Result ScimError Properties
as_scim (ok p) = ok p
as_scim (err e) = err (patch_failed e)

unfoldable pub is_string : Option Json → Bool
is_string (some (str s)) = true
is_string _ = false

-- A call without a change of the cache.
abbrev pub uncached :
    {A : Type 0} → Server → Result ScimError A × Tables → Result ScimError A × Server
uncached s (r, t) = (r, record s { tables = t })

-- `if s.cache != nil { s.cache.Invalidate(…) }` after a commit.
unfoldable pub invalidated :
    Text → Result ScimError StoredUser × Tables → Option Cache → Option Cache
unfolding cache_key invalidate
invalidated provider (err e, t) c = c
invalidated provider (ok u, t) none = none
invalidated provider (ok u, t) (some c) =
    some (invalidate (cache_key provider u.external_subject) c)

abbrev pub after_commit :
    Text → Server → Result ScimError StoredUser × Tables → Result ScimError StoredUser × Server
unfolding invalidated
after_commit provider s (r, t) =
    (r, record { tables = t; cache = invalidated provider (r, t) s.cache })

module _ (env : Conditions) (provider : Text) where
  -- GetByEntityID
  unfoldable pub read_user : ℕ → Tables → Result ScimError StoredUser
  unfolding get_linked
  read_user id t = do
    (row, subject) ← get_linked env user_type provider id t
    ok (record { entity_id = id; properties = row.properties; external_subject = subject })

  -- Create, in its transaction.
  unfoldable pub create_audited : User → Text → Tables → Result ScimError (StoredUser × Tables)
  unfolding to_properties insert_linked write_entry scim_actor
  create_audited in_user external_id t = do
    (row, t₁) ← insert_linked env user_type provider external_id (to_properties in_user) t
    t₂ ←
        write_entry env
          (record {
            actor = scim_actor provider;
            operation = op_create;
            resource_type = text "user";
            resource_id = row.id;
            before_value = none;
            after_value = some (to_properties in_user);
          })
          t₁
    ok (
      record {
        entity_id = row.id;
        properties = to_properties in_user;
        external_subject = external_id;
      },
      t₂,
    )

  -- What Replace and Patch do alike, on the user that was read.
  unfoldable pub replace_audited :
      StoredUser → Properties → Tables → Result ScimError (StoredUser × Tables)
  unfolding overwrite write_entry scim_actor
  replace_audited before props t = do
    (changed, t₁) ← overwrite env user_type provider before.entity_id props t
    t₂ ←
        write_entry env
          (record {
            actor = scim_actor provider;
            operation = op_update;
            resource_type = text "user";
            resource_id = before.entity_id;
            before_value = some before.properties;
            after_value = some props;
          })
          t₁
    ok (record before { properties = props }, t₂)

  unfoldable pub replace_in : ℕ → User → Tables → Result ScimError (StoredUser × Tables)
  unfolding read_user replace_audited to_properties
  replace_in id in_user t = do
    before ← read_user id t
    replace_audited before (to_properties in_user) t

  unfoldable pub delete_audited : ℕ → Tables → Result ScimError (StoredUser × Tables)
  unfolding read_user unlink write_entry scim_actor
  delete_audited id t = do
    before ← read_user id t
    t₁ ← unlink env provider id t
    t₂ ←
        write_entry env
          (record {
            actor = scim_actor provider;
            operation = op_delete;
            resource_type = text "user";
            resource_id = id;
            before_value = some before.properties;
            after_value = none;
          })
          t₁
    ok (before, t₂)

  -- Create; a user comes in with its external id.
  unfoldable pub create_user : User → Text → Server → Result ScimError StoredUser × Server
  unfolding same create_audited transaction
  create_user in_user external_id s =
      if same in_user.user_name []
      then (err attribute_required, s)
      else if same external_id []
      then (err external_id_required, s)
      else uncached s (transaction env (create_audited in_user external_id) s.tables)

  -- Replace
  unfoldable pub replace_user : ℕ → User → Server → Result ScimError StoredUser × Server
  unfolding same replace_in transaction invalidated
  replace_user id in_user s =
      if same in_user.user_name []
      then (err attribute_required, s)
      else after_commit provider s (transaction env (replace_in id in_user) s.tables)

  -- Delete, which answers with the user that it read only in this model.
  unfoldable pub delete_user : ℕ → Server → Result ScimError StoredUser × Server
  unfolding delete_audited transaction invalidated
  delete_user id s = after_commit provider s (transaction env (delete_audited id) s.tables)

  module _ {F : Type 0} (parse_float : Text → Option F) where
    unfoldable pub patch_in : ℕ → List PatchOp → Tables → Result ScimError (StoredUser × Tables)
    unfolding read_user patch_user is_string get_property replace_audited
    patch_in id ops t = do
      before ← read_user id t
      props ← as_scim (patch_user parse_float ops before.properties)
      _ ← guard (is_string (get_property user_name_key props)) attribute_required
      replace_audited before props t

    -- Patch
    unfoldable pub patch_stored : ℕ → List PatchOp → Server → Result ScimError StoredUser × Server
    unfolding read_user patch_in transaction invalidated
    patch_stored id [] s = (read_user id s.tables, s)
    patch_stored id (o ∷ os) s =
        after_commit provider s (transaction env (patch_in id (o ∷ os)) s.tables)
