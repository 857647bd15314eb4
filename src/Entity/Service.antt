-- ===== src/Entity/Service.antt =====
-- internal/entity/service.go: the operations that write.
use oad.Base.{
  ℕ, ◌+◌, Bool, true, false, ◌||◌, Option, none, some, List, [], ◌∷◌, ◌++◌, length, if◌then◌else◌,
  Result, ok, err, ◌>>=◌,
}
use oad.Errors.{ApiError, bad_request, internal}
use oad.Scim.Text.{Text, text, same}
use oad.Scim.Json.{Json}
use oad.Auth.{Identity}
use oad.Entity.{Entity, CreateRequest, resolve_type, validate_properties, prepare}
use oad.Entity.Store.{
  op_create, op_update, op_delete, Database, Environment, StoreError, missing, answered,
  to_api_error, get_by_id, get_by_type_and_external_id, insert, update_row, delete_row,
  in_transaction, write_from_context,
}

abbrev pub answer {ℓ κ} :
    {A : Type ℓ} {S : Type κ} → Result StoreError A × S → Result ApiError A × S
answer (ok a, s) = (ok a, s)
answer (err e, s) = (err (to_api_error e), s)

-- An APIError as the error of a transaction.
abbrev pub as_store {ℓ} : {A : Type ℓ} → Result ApiError A → Result StoreError A
as_store (ok a) = ok a
as_store (err e) = err (answered e)

-- BulkCreateResult; an error keeps its index.
pub record BulkResult : Type 0 where
  pub total : ℕ
  pub created : ℕ
  pub updated : ℕ
  pub errors : List (ℕ × ApiError)

abbrev pub returning {ℓ κ μ} :
    {A : Type ℓ} {B : Type κ} {S : Type μ} → B → Result ApiError A × S → Result ApiError B × S
returning b (ok a, s) = (ok b, s)
returning b (err e, s) = (err e, s)

unfoldable pub count : ℕ → Result ApiError Bool → BulkResult → BulkResult
count i (ok true) r = record r { created = r.created + 1 }
count i (ok false) r = record r { updated = r.updated + 1 }
count i (err e) r = record r { errors = r.errors ++ ((i, e) ∷ []) }

abbrev pub mode_or_create : Text → Text
mode_or_create [] = text "create"
mode_or_create (c ∷ s) = c ∷ s

module _ (validate : Json → Json → Option ApiError) (print_uuid : ℕ → Text) where
  -- The function that Create runs in its transaction.
  unfoldable pub insert_audited :
      Environment → Identity → Entity → Database → Result StoreError (Entity × Database)
  unfolding insert write_from_context
  insert_audited env caller e db = do
    (stored, db₁) ← insert env caller.active_system_id e db
    db₂ ← write_from_context print_uuid env caller op_create stored.id none (some stored) db₁
    ok (stored, db₂)

  -- Create
  unfoldable pub create :
      Environment → Identity → CreateRequest → Database → Result ApiError Entity × Database
  unfolding prepare in_transaction insert_audited
  create env caller req db = elim (prepare validate env.reads_fail caller db.types req) [
    | err e ↦ (err e, db)
    | ok e ↦ answer (in_transaction env (insert_audited env caller e) db)
  ]

  -- The function that Update runs in its transaction.
  unfoldable pub update_audited :
      Environment → Identity → ℕ → Json → Database → Result StoreError (Entity × Database)
  unfolding get_by_id resolve_type validate_properties update_row write_from_context
  update_audited env caller id props db = do
    existing ← get_by_id env (env.scope_sees caller.active_system_id) id db
    def ← as_store (resolve_type env.reads_fail existing.type db.types)
    _ ← as_store (validate_properties validate props def.allowed_properties)
    let changed : Entity = record existing { properties = props }
    db₁ ← update_row env caller.active_system_id changed db
    db₂ ←
        write_from_context print_uuid env caller op_update changed.id (some existing) (some changed)
          db₁
    ok (changed, db₂)

  -- Update
  unfoldable pub update :
      Environment → Identity → ℕ → Option Json → Database → Result ApiError Entity × Database
  unfolding in_transaction update_audited
  update env caller id none db = (err bad_request, db)
  update env caller id (some props) db =
      answer (in_transaction env (update_audited env caller id props) db)

  -- The function that Delete runs in its transaction.
  unfoldable pub delete_audited :
      Environment → Identity → ℕ → Database → Result StoreError (Entity × Database)
  unfolding get_by_id delete_row write_from_context
  delete_audited env caller id db = do
    existing ← get_by_id env (env.scope_sees caller.active_system_id) id db
    db₁ ← delete_row env caller.active_system_id id db
    db₂ ← write_from_context print_uuid env caller op_delete id (some existing) none db₁
    ok (existing, db₂)

  -- Delete; the entity that is returned is for the proofs, the program returns the error alone.
  unfoldable pub delete : Environment → Identity → ℕ → Database → Result ApiError Entity × Database
  unfolding in_transaction delete_audited
  delete env caller id db = answer (in_transaction env (delete_audited env caller id) db)

  -- The branches of createOrUpdate after its checks; the value says whether the entity was created.
  unfoldable pub create_or_update_checked :
      Environment → Identity → CreateRequest → Entity → Database → Result ApiError Bool × Database
  unfolding get_by_type_and_external_id create update
  create_or_update_checked env caller req e db =
      elim (get_by_type_and_external_id env env.pool_sees e.type_id e.external_id db) [
        | ok existing ↦ returning false (update env caller existing.id (some e.properties) db)
        | err missing ↦
            returning true (create env caller (record req { system_id = e.system_id }) db)
        | err _ ↦ (err internal, db)
      ]

  -- createOrUpdate
  unfoldable pub create_or_update :
      Environment → Identity → CreateRequest → Database → Result ApiError Bool × Database
  unfolding prepare create_or_update_checked
  create_or_update env caller req db = elim (prepare validate env.reads_fail caller db.types req) [
    | err e ↦ (err e, db)
    | ok e ↦ create_or_update_checked env caller req e db
  ]

  -- One item of BulkCreate.
  unfoldable pub bulk_item :
      Bool → Environment → Identity → CreateRequest → Database → Result ApiError Bool × Database
  unfolding create_or_update create
  bulk_item upsert env caller req db =
      if upsert
      then create_or_update env caller req db
      else returning true (create env caller req db)

  -- The loop of BulkCreate; each item has its own environment.
  unfoldable pub bulk_from :
      Bool
      → (ℕ → Environment)
      → Identity
      → ℕ
      → List CreateRequest
      → BulkResult × Database
      → BulkResult × Database
  unfolding bulk_item count
  bulk_from upsert envs caller i [] (r, db) = (r, db)
  bulk_from upsert envs caller i (req ∷ reqs) (r, db) =
      let (outcome, db') = bulk_item upsert (envs i) caller req db in
      bulk_from upsert envs caller (i + 1) reqs (count i outcome r, db')

  unfoldable pub bulk_run :
      Bool
      → (ℕ → Environment)
      → Identity
      → List CreateRequest
      → Database
      → Result ApiError BulkResult × Database
  unfolding bulk_from
  bulk_run upsert envs caller reqs db =
      let start : BulkResult = record {
        total = length reqs;
        created = 0;
        updated = 0;
        errors = [];
      } in
      let (r, db') = bulk_from upsert envs caller 0 reqs (start, db) in (ok r, db')

  -- BulkCreate
  unfoldable pub bulk_create :
      (ℕ → Environment)
      → Identity
      → Text
      → List CreateRequest
      → Database
      → Result ApiError BulkResult × Database
  unfolding bulk_run same
  bulk_create envs caller mode [] db = (err bad_request, db)
  bulk_create envs caller mode (req ∷ reqs) db =
      let upsert = same (mode_or_create mode) (text "upsert") in
      if upsert || same (mode_or_create mode) (text "create")
      then bulk_run upsert envs caller (req ∷ reqs) db
      else (err bad_request, db)
