-- ===== src/Entity/Steps.antt =====
-- What holds between the database before an operation of internal/entity/service.go and the one after it, if it
-- holds across each function that an operation runs in its transaction.
use oad.Base.{
  ℕ, ◌+◌, subst, ◌||◌, Bool, true, false, Option, none, some, List, [], ◌∷◌, Result, ok, err,
  Result-cases, Bool-cases, inl, inr,
}
use oad.Errors.{ApiError}
use oad.Scim.Text.{Text, text, same}
use oad.Scim.Json.{Json}
use oad.Auth.{Identity}
use oad.Entity.{Entity, CreateRequest, prepare}
use oad.Entity.Store.{
  Database, Environment, StoreError, missing, duplicate, technical, answered,
  get_by_type_and_external_id, in_transaction,
}
use oad.Entity.Service.{
  answer, BulkResult, insert_audited, create, update_audited, update, delete_audited, delete,
  returning, create_or_update_checked, create_or_update, bulk_item, count, bulk_from, bulk_run,
  bulk_create, mode_or_create,
}

-- The database that is returned from `db`, if one is, is related to `db`.
abbrev pub Ends {ℓ} :
    {A : Type 0}
    → (Database → Database → Type ℓ)
    → Database
    → Result StoreError (A × Database)
    → Type ℓ
Ends R db (ok (a, db')) = R db db'
Ends R db (err e) = Unit

module _ {ℓ} (R : Database → Database → Type ℓ) (reflexive : (db : Database) → R db db)
    (transitive : (a b c : Database) → R a b → R b c → R a c)
    (validate : Json → Json → Option ApiError) (print_uuid : ℕ → Text) (caller : Identity)
    (Lawful : Environment → Type 0)
    (insert_steps : (env : Environment) (e : Entity) (db : Database)
      → Lawful env
      → Ends R db (insert_audited validate print_uuid env caller e db))
    (update_steps : (env : Environment) (id : ℕ) (props : Json) (db : Database)
      → Lawful env
      → Ends R db (update_audited validate print_uuid env caller id props db))
    (delete_steps : (env : Environment) (id : ℕ) (db : Database)
      → Lawful env
      → Ends R db (delete_audited validate print_uuid env caller id db)) where
  answer-Steps :
      {A : Type 0} (db : Database) (r : Result StoreError A × Database)
      → R db r.1
      → R db (answer r).1
  answer-Steps db (ok a, s) h = h
  answer-Steps db (err e, s) h = h

  returning-Steps :
      {A B : Type 0} (b : B) (db : Database) (r : Result ApiError A × Database)
      → R db r.1
      → R db (returning b r).1
  returning-Steps b db (ok a, s) h = h
  returning-Steps b db (err e, s) h = h

  in_transaction-Steps :
      {A : Type 0} (env : Environment) (run : Database → Result StoreError (A × Database))
      (db : Database)
      → Ends R db (run db)
      → R db (in_transaction env run db).1
  unfolding in_transaction
  in_transaction-Steps {A} env run db h = elim (Result-cases (run db)) [
    | inr (e, r) ↦ rw (in_transaction, r) (reflexive db)
    | inl ((a, db'), r) ↦ elim (Bool-cases env.commit_fails) [
      | inl lost ↦ rw (in_transaction, r, lost) (reflexive db)
      | inr kept ↦ rw (in_transaction, r, kept) (subst (λ q. Ends R db q) r h)
    ]
  ]

  pub create-Steps :
      (env : Environment) (req : CreateRequest) (db : Database)
      → Lawful env
      → R db (create validate print_uuid env caller req db).1
  unfolding create
  create-Steps env req db law =
      elim (Result-cases (prepare validate env.reads_fail caller db.types req)) [
        | inr (e, r) ↦ rw (create, r) (reflexive db)
        | inl (e, r) ↦
            rw (create, r)
              (answer-Steps db
                (in_transaction env (insert_audited validate print_uuid env caller e) db)
                (in_transaction-Steps env (insert_audited validate print_uuid env caller e) db
                  (insert_steps env e db law)))
      ]

  pub update-Steps :
      (env : Environment) (id : ℕ) (props : Option Json) (db : Database)
      → Lawful env
      → R db (update validate print_uuid env caller id props db).1
  unfolding update
  update-Steps env id none db law = reflexive db
  update-Steps env id (some props) db law =
      answer-Steps db
        (in_transaction env (update_audited validate print_uuid env caller id props) db)
        (in_transaction-Steps env (update_audited validate print_uuid env caller id props) db
          (update_steps env id props db law))

  pub delete-Steps :
      (env : Environment) (id : ℕ) (db : Database)
      → Lawful env
      → R db (delete validate print_uuid env caller id db).1
  unfolding delete
  delete-Steps env id db law =
      answer-Steps db (in_transaction env (delete_audited validate print_uuid env caller id) db) (
        in_transaction-Steps env (delete_audited validate print_uuid env caller id) db
          (delete_steps env id db law))

  create_or_update_checked-Steps :
      (env : Environment) (req : CreateRequest) (e : Entity) (db : Database)
      → Lawful env
      → R db (create_or_update_checked validate print_uuid env caller req e db).1
  unfolding create_or_update_checked
  create_or_update_checked-Steps env req e db law =
      elim (Result-cases
        (get_by_type_and_external_id env env.pool_sees e.type_id e.external_id db)) [
          | inl (existing, r) ↦
              rw (create_or_update_checked, r)
                (returning-Steps false db
                  (update validate print_uuid env caller existing.id (some e.properties) db)
                  (update-Steps env existing.id (some e.properties) db law))
          | inr (missing, r) ↦
              let req' : CreateRequest = record req { system_id = e.system_id } in
              rw (create_or_update_checked, r)
                (returning-Steps true db (create validate print_uuid env caller req' db)
                  (create-Steps env req' db law))
          | inr (duplicate, r) ↦ rw (create_or_update_checked, r) (reflexive db)
          | inr (technical, r) ↦ rw (create_or_update_checked, r) (reflexive db)
          | inr (answered a, r) ↦ rw (create_or_update_checked, r) (reflexive db)
        ]

  create_or_update-Steps :
      (env : Environment) (req : CreateRequest) (db : Database)
      → Lawful env
      → R db (create_or_update validate print_uuid env caller req db).1
  unfolding create_or_update
  create_or_update-Steps env req db law =
      elim (Result-cases (prepare validate env.reads_fail caller db.types req)) [
        | inr (e, r) ↦ rw (create_or_update, r) (reflexive db)
        | inl (e, r) ↦ rw (create_or_update, r) (create_or_update_checked-Steps env req e db law)
      ]

  bulk_item-Steps :
      (upsert : Bool) (env : Environment) (req : CreateRequest) (db : Database)
      → Lawful env
      → R db (bulk_item validate print_uuid upsert env caller req db).1
  unfolding bulk_item
  bulk_item-Steps true env req db law = create_or_update-Steps env req db law
  bulk_item-Steps false env req db law =
      returning-Steps true db (create validate print_uuid env caller req db)
        (create-Steps env req db law)

  module _ (envs : ℕ → Environment) (laws : (i : ℕ) → Lawful (envs i)) where
    bulk_from-Steps :
        (upsert : Bool) (i : ℕ) (reqs : List CreateRequest) (r : BulkResult) (db : Database)
        → R db (bulk_from validate print_uuid upsert envs caller i reqs (r, db)).1
    unfolding bulk_from
    bulk_from-Steps upsert i [] r db = reflexive db
    bulk_from-Steps upsert i (req ∷ reqs) r db =
        let item = bulk_item validate print_uuid upsert (envs i) caller req db in
        transitive db item.1 _ (bulk_item-Steps upsert (envs i) req db (laws i))
          (bulk_from-Steps upsert (i + 1) reqs (count i item.0 r) item.1)

    bulk_run-Steps :
        (upsert : Bool) (reqs : List CreateRequest) (db : Database)
        → R db (bulk_run validate print_uuid upsert envs caller reqs db).1
    unfolding bulk_run
    bulk_run-Steps upsert reqs db = bulk_from-Steps upsert 0 reqs _ db

    pub bulk_create-Steps :
        (mode : Text) (reqs : List CreateRequest) (db : Database)
        → R db (bulk_create validate print_uuid envs caller mode reqs db).1
    unfolding bulk_create
    bulk_create-Steps mode [] db = reflexive db
    bulk_create-Steps mode (req ∷ reqs) db =
        let named = mode_or_create mode in
        elim (Bool-cases (same named (text "upsert") || same named (text "create"))) [
          | inl known ↦ rw known (bulk_run-Steps (same named (text "upsert")) (req ∷ reqs) db)
          | inr unknown ↦ rw unknown (reflexive db)
        ]
