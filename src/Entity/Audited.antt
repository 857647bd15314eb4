-- ===== src/Entity/Audited.antt =====
-- No change of an entity without its record in the audit log (internal/entity/service.go, internal/audit/audit.go).
use oad.Base.{
  ℕ, ◌≡◌, refl, sym, ap, ◌∙◌, not, ◌||◌, Option, none, some, List, [], ◌∷◌, ◌++◌, append-nil,
  append_assoc, Result-cases, Bool-cases, Option-cases, inl, inr,
}
use oad.Errors.{ApiError}
use oad.Scim.Text.{Text}
use oad.Scim.Json.{Json}
use oad.Auth.{Identity}
use oad.Entity.{Entity, CreateRequest, resolve_type, validate_properties}
use oad.Entity.Store.{
  Operation, op_create, op_update, op_delete, Entry, Database, Environment, find_row, find_key,
  set_properties, remove_row, visible, get_by_id, insert, update_row, delete_row, write_audit,
  write_from_context,
}
use oad.Entity.Service.{
  insert_audited, create, update_audited, update, delete_audited, delete, bulk_create,
}
use oad.Entity.Steps.{Ends, create-Steps, update-Steps, delete-Steps, bulk_create-Steps}

-- What a record says has been done.
unfoldable apply_entry : Operation → ℕ → Option Entity → List Entity → List Entity
unfolding set_properties remove_row
apply_entry op_create id (some e) es = es ++ (e ∷ [])
apply_entry op_update id (some e) es = set_properties e.id e.properties es
apply_entry op_delete id none es = remove_row id es
apply_entry _ id after es = es

unfoldable pub replay : List Entry → List Entity → List Entity
unfolding apply_entry
replay [] es = es
replay (r ∷ rs) es = replay rs (apply_entry r.operation r.resource_id r.after_value es)

-- The audit log has grown by records that account for the entities that are there now.
abbrev pub Audited : Database → Database → Type 0
Audited db db' =
    (new : List Entry) × (db'.audit_log ≡ db.audit_log ++ new)
    × (db'.entities ≡ replay new db.entities)

replay-append :
    (rs qs : List Entry) (es : List Entity) → replay (rs ++ qs) es ≡ replay qs (replay rs es)
unfolding replay
replay-append [] qs es = refl
replay-append (r ∷ rs) qs es =
    replay-append rs qs (apply_entry r.operation r.resource_id r.after_value es)

Audited-reflexive : (db : Database) → Audited db db
unfolding replay
Audited-reflexive db = ([], sym (append-nil db.audit_log), refl)

Audited-transitive : (a b c : Database) → Audited a b → Audited b c → Audited a c
Audited-transitive a b c (new, log, rows) (new', log', rows') = (
  new ++ new',
  log' ∙ (ap (λ l. l ++ new') log ∙ append_assoc a.audit_log new new'),
  rows' ∙ (ap (replay new') rows ∙ sym (replay-append new new' a.entities)),
)

module _ (validate : Json → Json → Option ApiError) (print_uuid : ℕ → Text)
    (caller : Identity) where
  insert_audited-Audited :
      (env : Environment) (e : Entity) (db : Database)
      → Unit {0}
      → Ends Audited db (insert_audited validate print_uuid env caller e db)
  unfolding insert_audited insert write_from_context write_audit replay apply_entry
  insert_audited-Audited env e db u =
      elim (Bool-cases
        (env.writes_fail || not (env.scope_sees caller.active_system_id e.system_id))) [
          | inl refused ↦ rw refused tt
          | inr written ↦ elim (Option-cases (find_key e.type_id e.external_id db.entities)) [
            | inr (other, k) ↦ rw (written, k) tt
            | inl k ↦ elim (Bool-cases env.audit_fails) [
              | inl lost ↦ rw (written, k, lost) tt
              | inr kept ↦ rw (written, k, kept) ((_ ∷ []), refl, refl)
            ]
          ]
        ]

  update_audited-Audited :
      (env : Environment) (id : ℕ) (props : Json) (db : Database)
      → Unit {0}
      → Ends Audited db (update_audited validate print_uuid env caller id props db)
  unfolding update_audited update_row write_from_context write_audit replay apply_entry
  update_audited-Audited env id props db u =
      elim (Result-cases (get_by_id env (env.scope_sees caller.active_system_id) id db)) [
        | inr (e, h) ↦ rw h tt
        | inl (existing, h) ↦
            elim (Result-cases (resolve_type env.reads_fail existing.type db.types)) [
              | inr (e, h₁) ↦ rw (h, h₁) tt
              | inl (def, h₁) ↦
                  elim (Result-cases (validate_properties validate props def.allowed_properties)) [
                    | inr (e, h₂) ↦ rw (h, h₁, h₂) tt
                    | inl (valid, h₂) ↦ elim (Bool-cases env.writes_fail) [
                      | inl refused ↦ rw (h, h₁, h₂, refused) tt
                      | inr written ↦
                          elim (Result-cases (
                            visible (env.scope_sees caller.active_system_id)
                              (find_row existing.id db.entities))) [
                                | inr (e, h₃) ↦ rw (h, h₁, h₂, written, h₃) tt
                                | inl (row, h₃) ↦ elim (Bool-cases env.audit_fails) [
                                  | inl lost ↦ rw (h, h₁, h₂, written, h₃, lost) tt
                                  | inr kept ↦
                                      rw (h, h₁, h₂, written, h₃, kept) ((_ ∷ []), refl, refl)
                                ]
                              ]
                    ]
                  ]
            ]
      ]

  delete_audited-Audited :
      (env : Environment) (id : ℕ) (db : Database)
      → Unit {0}
      → Ends Audited db (delete_audited validate print_uuid env caller id db)
  unfolding delete_audited delete_row write_from_context write_audit replay apply_entry
  delete_audited-Audited env id db u =
      elim (Result-cases (get_by_id env (env.scope_sees caller.active_system_id) id db)) [
        | inr (e, h) ↦ rw h tt
        | inl (existing, h) ↦ elim (Bool-cases env.writes_fail) [
          | inl refused ↦ rw (h, refused) tt
          | inr written ↦
              elim (Result-cases
                (visible (env.scope_sees caller.active_system_id) (find_row id db.entities))) [
                  | inr (e, h₁) ↦ rw (h, written, h₁) tt
                  | inl (row, h₁) ↦ elim (Bool-cases env.audit_fails) [
                    | inl lost ↦ rw (h, written, h₁, lost) tt
                    | inr kept ↦ rw (h, written, h₁, kept) ((_ ∷ []), refl, refl)
                  ]
                ]
        ]
      ]

-- The databases that the service can get to, by any calls of any callers, whatever fails meanwhile.
pub data Served (validate : Json → Json → Option ApiError) (print_uuid : ℕ → Text)
    (start : Database) : Database → Type 0 where
  unchanged : Served validate print_uuid start start
  by_create :
      {db : Database} (env : Environment) (caller : Identity) (req : CreateRequest)
      → Served validate print_uuid start db
      → Served validate print_uuid start (create validate print_uuid env caller req db).1
  by_update :
      {db : Database} (env : Environment) (caller : Identity) (id : ℕ) (props : Option Json)
      → Served validate print_uuid start db
      → Served validate print_uuid start (update validate print_uuid env caller id props db).1
  by_delete :
      {db : Database} (env : Environment) (caller : Identity) (id : ℕ)
      → Served validate print_uuid start db
      → Served validate print_uuid start (delete validate print_uuid env caller id db).1
  by_bulk :
      {db : Database} (envs : ℕ → Environment) (caller : Identity) (mode : Text)
      (reqs : List CreateRequest)
      → Served validate print_uuid start db
      → Served validate print_uuid start
          (bulk_create validate print_uuid envs caller mode reqs db).1

module _ (validate : Json → Json → Option ApiError) (print_uuid : ℕ → Text) (start : Database) where
  -- Whatever is called, by whom and whatever fails, the audit log only grows, and replaying the records
  -- that it has got on the entities of the beginning gives the entities of the end: nothing is written
  -- without its record, and nothing is recorded that was not written.
  pub Served-Audited : (db : Database) → Served validate print_uuid start db → Audited start db
  Served-Audited db unchanged = Audited-reflexive start
  Served-Audited _ (by_create {db} env caller req h) =
      Audited-transitive start db (create validate print_uuid env caller req db).1
        (Served-Audited db h)
        (create-Steps Audited Audited-reflexive Audited-transitive validate print_uuid caller
          (λ e. Unit {0}) (insert_audited-Audited validate print_uuid caller)
          (update_audited-Audited validate print_uuid caller)
          (delete_audited-Audited validate print_uuid caller) env req db tt)
  Served-Audited _ (by_update {db} env caller id props h) =
      Audited-transitive start db (update validate print_uuid env caller id props db).1
        (Served-Audited db h)
        (update-Steps Audited Audited-reflexive Audited-transitive validate print_uuid caller
          (λ e. Unit {0}) (insert_audited-Audited validate print_uuid caller)
          (update_audited-Audited validate print_uuid caller)
          (delete_audited-Audited validate print_uuid caller) env id props db tt)
  Served-Audited _ (by_delete {db} env caller id h) =
      Audited-transitive start db (delete validate print_uuid env caller id db).1
        (Served-Audited db h)
        (delete-Steps Audited Audited-reflexive Audited-transitive validate print_uuid caller
          (λ e. Unit {0}) (insert_audited-Audited validate print_uuid caller)
          (update_audited-Audited validate print_uuid caller)
          (delete_audited-Audited validate print_uuid caller) env id db tt)
  Served-Audited _ (by_bulk {db} envs caller mode reqs h) =
      Audited-transitive start db (bulk_create validate print_uuid envs caller mode reqs db).1
        (Served-Audited db h)
        (bulk_create-Steps Audited Audited-reflexive Audited-transitive validate print_uuid caller
          (λ e. Unit {0}) (insert_audited-Audited validate print_uuid caller)
          (update_audited-Audited validate print_uuid caller)
          (delete_audited-Audited validate print_uuid caller) envs (λ i. tt) mode reqs db)
