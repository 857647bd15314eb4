-- ===== src/Table.antt =====
-- A table of the database with the part of the audit log about it (internal/audit/audit.go), as the services of
-- relations and overlays use them.
pub mod Rows
pub mod Paging
use oad.Base.{
  ℕ, suc, Bool, true, false, ◌||◌, Option, none, some, List, [], ◌∷◌, ◌++◌, ◌==◌, if◌then◌else◌,
  Result, ok, err,
}
use oad.Scim.Text.{Text}
use oad.Auth.{Identity}
use oad.Entity.Store.{Operation, Environment, StoreError, missing, technical, actor_string}

-- audit.Entry, with rows as values in place of their JSON; its resource type is that of the table.
pub record Change (R : Type 0) : Type 0 where
  pub actor : Text
  pub operation : Operation
  pub resource_id : ℕ
  pub before_value : Option R
  pub after_value : Option R
  pub system_id : Option ℕ

-- Rows in the order of their creation, and the audit log, which only grows.
pub record Table (R : Type 0) : Type 0 where
  pub rows : List R
  pub changes : List (Change R)
  pub next_id : ℕ

-- WithSystemScope: an error rolls back, and so does a commit that fails.
unfoldable pub transact :
    {A S : Type 0} → Environment → (S → Result StoreError (A × S)) → S → Result StoreError A × S
transact env run s = elim (run s) [
  | err e ↦ (err e, s)
  | ok (a, s') ↦ if env.commit_fails then (err technical, s) else (ok a, s')
]

-- WriteFromContext
unfoldable pub record_change :
    {R : Type 0}
    → (ℕ → Text)
    → Environment
    → Identity
    → Operation
    → ℕ
    → Option R
    → Option R
    → Table R
    → Result StoreError (Table R)
unfolding actor_string
record_change print_uuid env caller op id before after t =
    if env.audit_fails
    then err technical
    else ok (record t {
      changes =
          t.changes
          ++ (record {
            actor = actor_string print_uuid caller;
            operation = op;
            resource_id = id;
            before_value = before;
            after_value = after;
            system_id = caller.active_system_id;
          }
              ∷ []);
    })

module _ {R : Type 0} (id_of : R → ℕ) where
  unfoldable pub find_by_id : ℕ → List R → Option R
  find_by_id id [] = none
  find_by_id id (r ∷ rs) = if id_of r == id then some r else find_by_id id rs

  unfoldable pub put_by_id : R → List R → List R
  put_by_id new [] = []
  put_by_id new (r ∷ rs) = if id_of r == id_of new then new ∷ rs else r ∷ put_by_id new rs

  unfoldable pub remove_by_id : ℕ → List R → List R
  remove_by_id id [] = []
  remove_by_id id (r ∷ rs) = if id_of r == id then rs else r ∷ remove_by_id id rs

-- A row that the query returns, or that row-level security hides.
abbrev pub shown : {R : Type 0} → (R → Bool) → Option R → Result StoreError R
shown sees none = err missing
shown sees (some r) = if sees r then ok r else err missing

-- A query of one row by its primary key.
unfoldable pub query_row :
    {R : Type 0} → (R → ℕ) → Environment → (R → Bool) → ℕ → List R → Result StoreError R
unfolding find_by_id
query_row id_of env sees id rows =
    if env.reads_fail then err technical else shown sees (find_by_id id_of id rows)

-- A unique index: whether a row has the key of another one.
unfoldable pub has_clash : {R : Type 0} → (R → R → Bool) → R → List R → Bool
has_clash clash r [] = false
has_clash clash r (s ∷ ss) = clash s r || has_clash clash r ss
