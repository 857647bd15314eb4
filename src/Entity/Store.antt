-- ===== src/Entity/Store.antt =====
-- internal/entity/repository.go on the rows of its tables, internal/db/scope.go and internal/audit/audit.go.
use oad.Base.{
  ℕ, suc, Bool, not, ◌&&◌, ◌||◌, Option, none, some, List, [], ◌∷◌, ◌++◌, ◌==◌, if◌then◌else◌,
  Result, ok, err, ◌>>=◌,
}
use oad.Errors.{ApiError, not_found, conflict, internal}
use oad.Scim.Text.{Text, text, same}
use oad.Scim.Json.{Json}
use oad.Auth.{Identity}
use oad.Entity.{Entity, EntityTypeDef}

-- audit.Operation and audit.Entry, with entities as values in place of their JSON.
pub data Operation : Type 0 where
  op_create op_update op_delete : Operation

pub record Entry : Type 0 where
  pub actor : Text
  pub operation : Operation
  pub resource_id : ℕ
  pub before_value : Option Entity
  pub after_value : Option Entity
  pub system_id : Option ℕ

-- The tables: entities under their primary key, the types, and the audit log, which only grows.
pub record Database : Type 0 where
  pub entities : List Entity
  pub types : List EntityTypeDef
  pub audit_log : List Entry
  pub next_id : ℕ

-- How the database behaves in one call: which rows row-level security shows to a query of the pool and to a
-- transaction with a scope, and which accesses fail.
pub record Environment : Type 0 where
  pub pool_sees : Option ℕ → Bool
  pub scope_sees : Option ℕ → Option ℕ → Bool
  pub reads_fail : Bool
  pub writes_fail : Bool
  pub audit_fails : Bool
  pub commit_fails : Bool

-- ErrNotFound, ErrDuplicateExternalID, an APIError inside a transaction, and any other error.
pub data StoreError : Type 0 where
  missing duplicate technical : StoreError
  answered : ApiError → StoreError

-- toAPIError
abbrev pub to_api_error : StoreError → ApiError
to_api_error missing = not_found
to_api_error duplicate = conflict
to_api_error technical = internal
to_api_error (answered e) = e

-- The row with this primary key.
unfoldable pub find_row : ℕ → List Entity → Option Entity
find_row id [] = none
find_row id (e ∷ es) = if e.id == id then some e else find_row id es

unfoldable pub find_key : ℕ → Text → List Entity → Option Entity
unfolding same
find_key type_id external_id [] = none
find_key type_id external_id (e ∷ es) =
    if (e.type_id == type_id) && same e.external_id external_id
    then some e
    else find_key type_id external_id es

unfoldable pub set_properties : ℕ → Json → List Entity → List Entity
set_properties id props [] = []
set_properties id props (e ∷ es) =
    if e.id == id then record e { properties = props } ∷ es else e ∷ set_properties id props es

unfoldable pub remove_row : ℕ → List Entity → List Entity
remove_row id [] = []
remove_row id (e ∷ es) = if e.id == id then es else e ∷ remove_row id es

abbrev pub visible : (Option ℕ → Bool) → Option Entity → Result StoreError Entity
visible sees none = err missing
visible sees (some e) = if sees e.system_id then ok e else err missing

module _ (env : Environment) where
  -- GetByID
  unfoldable pub get_by_id : (Option ℕ → Bool) → ℕ → Database → Result StoreError Entity
  unfolding find_row
  get_by_id sees id db =
      if env.reads_fail then err technical else visible sees (find_row id db.entities)

  -- GetByTypeAndExternalID
  unfoldable pub get_by_type_and_external_id :
      (Option ℕ → Bool) → ℕ → Text → Database → Result StoreError Entity
  unfolding find_key
  get_by_type_and_external_id sees type_id external_id db =
      if env.reads_fail
      then err technical
      else visible sees (find_key type_id external_id db.entities)

  -- Create: the unique constraint is over all rows, and row-level security refuses a row that the scope does not show.
  unfoldable pub insert : Option ℕ → Entity → Database → Result StoreError (Entity × Database)
  unfolding find_key
  insert scope e db =
      let stored : Entity = record e { id = db.next_id } in
      if env.writes_fail || not (env.scope_sees scope e.system_id)
      then err technical
      else elim (find_key e.type_id e.external_id db.entities) [
        | some other ↦ err duplicate
        | none ↦ ok (
          stored,
          record db { entities = db.entities ++ (stored ∷ []); next_id = suc db.next_id },
        )
      ]

  -- Update
  unfoldable pub update_row : Option ℕ → Entity → Database → Result StoreError Database
  unfolding find_row set_properties
  update_row scope e db = if env.writes_fail then err technical else (do
    row ← visible (env.scope_sees scope) (find_row e.id db.entities)
    ok (record db { entities = set_properties e.id e.properties db.entities }))

  -- Delete
  unfoldable pub delete_row : Option ℕ → ℕ → Database → Result StoreError Database
  unfolding find_row remove_row
  delete_row scope id db = if env.writes_fail then err technical else (do
    row ← visible (env.scope_sees scope) (find_row id db.entities)
    ok (record db { entities = remove_row id db.entities }))

  -- Service.Write of internal/audit.
  unfoldable pub write_audit : Entry → Database → Result StoreError Database
  write_audit entry db =
      if env.audit_fails
      then err technical
      else ok (record db { audit_log = db.audit_log ++ (entry ∷ []) })

  -- WithSystemScope: an error rolls back, and so does a commit that fails.
  unfoldable pub in_transaction :
      {A : Type 0}
      → (Database → Result StoreError (A × Database))
      → Database
      → Result StoreError A × Database
  in_transaction run db = elim (run db) [
    | err e ↦ (err e, db)
    | ok (a, db') ↦ if env.commit_fails then (err technical, db) else (ok a, db')
  ]

-- uuid.UUID.String
module _ (print_uuid : ℕ → Text) where
  -- Identity.ActorString of internal/auth.
  unfoldable pub actor_string : Identity → Text
  actor_string caller =
      if caller.entity_id == 0 then caller.subject else text "user:" ++ print_uuid caller.entity_id

  -- WriteFromContext
  unfoldable pub write_from_context :
      Environment
      → Identity
      → Operation
      → ℕ
      → Option Entity
      → Option Entity
      → Database
      → Result StoreError Database
  unfolding write_audit actor_string
  write_from_context env caller op id before after db =
      write_audit env
        (record {
          actor = actor_string caller;
          operation = op;
          resource_id = id;
          before_value = before;
          after_value = after;
          system_id = caller.active_system_id;
        })
        db
