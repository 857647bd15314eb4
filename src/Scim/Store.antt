-- ===== src/Scim/Store.antt =====
-- The tables entity, entity_external_identity, relation and audit_log as the SCIM repositories use them
-- (internal/scim/users/repository.go, internal/scim/groups/repository.go, internal/audit/audit.go): entities without a
-- system, and of the relations those of type member_of without a system.
pub mod Settled
use oad.Base.{
  ℕ, suc, Bool, false, not, ◌&&◌, ◌||◌, Option, none, some, List, [], ◌∷◌, ◌++◌, ◌==◌,
  if◌then◌else◌, Result, ok, err, ◌>>=◌,
}
use oad.Scim.Text.{Text, text, same}
use oad.Scim.Properties.{Properties}
use oad.Scim.Patch.{PatchError}
use oad.Entity.Store.{Operation}
use oad.Table.{find_by_id, put_by_id, remove_by_id}

-- The error values of both packages. `attribute_required` is ErrUserNameRequired or ErrDisplayNameRequired, and
-- `technical` an error of the database.
pub data ScimError : Type 0 where
  missing already_exists attribute_required external_id_required invalid_member : ScimError
  builtin_group technical : ScimError
  patch_failed : PatchError → ScimError

pub record EntityRow : Type 0 where
  pub id : ℕ
  pub type_name : Text
  pub external_id : Text
  pub properties : Properties
  pub is_builtin : Bool
  pub created_at : ℕ
  pub updated_at : ℕ

-- A row of entity_external_identity.
pub record ExternalIdentity : Type 0 where
  pub entity_id : ℕ
  pub provider_name : Text
  pub external_subject : Text

pub record MemberOf : Type 0 where
  pub subject_entity_id : ℕ
  pub target_entity_id : ℕ
  pub created_at : ℕ

-- audit.Entry as SCIM fills it.
pub record ScimEntry : Type 0 where
  pub actor : Text
  pub operation : Operation
  pub resource_type : Text
  pub resource_id : ℕ
  pub before_value : Option Properties
  pub after_value : Option Properties

pub record Tables : Type 0 where
  pub types : List Text
  pub entities : List EntityRow
  pub links : List ExternalIdentity
  pub memberships : List MemberOf
  pub audit_log : List ScimEntry
  pub next_id : ℕ

-- now() in the transaction, and which accesses fail.
pub record Conditions : Type 0 where
  pub now : ℕ
  pub reads_fail : Bool
  pub writes_fail : Bool
  pub audit_fails : Bool
  pub commit_fails : Bool

abbrev pub row_id : EntityRow → ℕ
row_id e = e.id

-- makeEntityExternalID
unfoldable pub make_entity_external_id : Text → Text → Text
make_entity_external_id provider subject = text "scim:" ++ (provider ++ (b':' ∷ subject))

-- scimActor
unfoldable pub scim_actor : Text → Text
scim_actor provider = text "scim:" ++ provider

-- The unique constraints of entity and of entity_external_identity.
unfoldable pub has_key : Text → Text → List EntityRow → Bool
unfolding same
has_key type_name external_id [] = false
has_key type_name external_id (e ∷ es) =
    (same e.type_name type_name && same e.external_id external_id)
    || has_key type_name external_id es

unfoldable pub has_subject : Text → Text → List ExternalIdentity → Bool
unfolding same
has_subject provider subject [] = false
has_subject provider subject (l ∷ ls) =
    (same l.provider_name provider && same l.external_subject subject)
    || has_subject provider subject ls

-- Whether entity_type_definition has a type.
unfoldable pub is_seeded : Text → List Text → Bool
unfolding same
is_seeded name [] = false
is_seeded name (t ∷ ts) = same t name || is_seeded name ts

-- The subject under which a provider links an entity.
unfoldable pub find_subject : ℕ → Text → List ExternalIdentity → Option Text
unfolding same
find_subject id provider [] = none
find_subject id provider (l ∷ ls) =
    if (l.entity_id == id) && same l.provider_name provider
    then some l.external_subject
    else find_subject id provider ls

unfoldable pub remove_links : ℕ → Text → List ExternalIdentity → List ExternalIdentity
unfolding same
remove_links id provider [] = []
remove_links id provider (l ∷ ls) =
    let rest = remove_links id provider ls in
    if (l.entity_id == id) && same l.provider_name provider then rest else l ∷ rest

unfoldable pub is_linked : ℕ → List ExternalIdentity → Bool
is_linked id [] = false
is_linked id (l ∷ ls) = (l.entity_id == id) || is_linked id ls

-- ON DELETE CASCADE of both ends of a relation.
unfoldable cascade : ℕ → List MemberOf → List MemberOf
cascade id [] = []
cascade id (m ∷ ms) =
    let rest = cascade id ms in
    if (m.subject_entity_id == id) || (m.target_entity_id == id) then rest else m ∷ rest

-- The row of an entity of a type that a provider links, with the subject of the link.
abbrev pub typed : Text → Option EntityRow → Option Text → Option (EntityRow × Text)
typed type_name (some e) (some subject) =
    if same e.type_name type_name then some (e, subject) else none
typed type_name _ _ = none

unfoldable pub linked : Text → Text → ℕ → Tables → Option (EntityRow × Text)
unfolding find_by_id find_subject same
linked type_name provider id t =
    typed type_name (find_by_id row_id id t.entities) (find_subject id provider t.links)

abbrev pub or_missing : Option (EntityRow × Text) → Result ScimError (EntityRow × Text)
or_missing none = err missing
or_missing (some found) = ok found

module _ (env : Conditions) where
  -- Create, up to the relations of a group.
  unfoldable pub insert_linked :
      Text → Text → Text → Properties → Tables → Result ScimError (EntityRow × Tables)
  unfolding is_seeded has_key has_subject make_entity_external_id
  insert_linked type_name provider subject props t =
      let row : EntityRow = record {
        id = t.next_id;
        type_name = type_name;
        external_id = make_entity_external_id provider subject;
        properties = props;
        is_builtin = false;
        created_at = env.now;
        updated_at = env.now;
      } in
      let link : ExternalIdentity = record {
        entity_id = t.next_id;
        provider_name = provider;
        external_subject = subject;
      } in
      if env.writes_fail || not (is_seeded type_name t.types)
      then err technical
      else if has_key type_name row.external_id t.entities || has_subject provider subject t.links
      then err already_exists
      else ok (
        row,
        record t {
          entities = t.entities ++ (row ∷ []);
          links = t.links ++ (link ∷ []);
          next_id = suc t.next_id;
        },
      )

  -- The first query of GetByEntityID.
  unfoldable pub get_linked : Text → Text → ℕ → Tables → Result ScimError (EntityRow × Text)
  unfolding linked
  get_linked type_name provider id t =
      if env.reads_fail then err technical else or_missing (linked type_name provider id t)

  -- The UPDATE of Replace; a trigger sets updated_at.
  unfoldable pub overwrite :
      Text → Text → ℕ → Properties → Tables → Result ScimError ((EntityRow × Text) × Tables)
  unfolding linked put_by_id
  overwrite type_name provider id props t = if env.writes_fail then err technical else (do
    (row, subject) ← or_missing (linked type_name provider id t)
    let row' : EntityRow = record row { properties = props; updated_at = env.now }
    ok ((row', subject), record t { entities = put_by_id row_id row' t.entities }))

  -- Delete, after the check of a group: the link, and the entity if no link is left.
  unfoldable pub unlink : Text → ℕ → Tables → Result ScimError Tables
  unfolding find_subject remove_links is_linked remove_by_id cascade
  unlink provider id t =
      let links' = remove_links id provider t.links in
      if env.writes_fail then err technical else elim (find_subject id provider t.links) [
        | none ↦ err missing
        | some subject ↦
            if is_linked id links'
            then ok (record t { links = links' })
            else ok (record t {
              links = links';
              entities = remove_by_id row_id id t.entities;
              memberships = cascade id t.memberships;
            })
      ]

  -- audit.Write
  unfoldable pub write_entry : ScimEntry → Tables → Result ScimError Tables
  write_entry entry t =
      if env.audit_fails
      then err technical
      else ok (record t { audit_log = t.audit_log ++ (entry ∷ []) })

  -- Begin, with the deferred Rollback, and Commit.
  unfoldable pub transaction :
      {A : Type 0} → (Tables → Result ScimError (A × Tables)) → Tables → Result ScimError A × Tables
  transaction run t = elim (run t) [
    | err e ↦ (err e, t)
    | ok (a, t') ↦ if env.commit_fails then (err technical, t) else (ok a, t')
  ]
