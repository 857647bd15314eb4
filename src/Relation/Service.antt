-- ===== src/Relation/Service.antt =====
-- internal/relation/service.go over internal/relation/repository.go.
use oad.Base.{
  ℕ, suc, Bool, true, false, not, ◌&&◌, ◌||◌, Option, none, some, List, [], ◌∷◌, ◌++◌, length, ◌==◌,
  if◌then◌else◌, Result, ok, err, ◌>>=◌, guard,
}
use oad.Errors.{ApiError, bad_request, not_found, internal}
use oad.Scim.Text.{Text, same}
use oad.Auth.{Identity}
use oad.Entity.{Entity}
use oad.Entity.Store.{
  op_create, op_delete, Environment, StoreError, duplicate, technical, answered, to_api_error,
}
use oad.Config.Numbers.{ℤ}
use oad.Table.Paging.{clamp_limit, page}
use oad.Entity.Service.{as_store, answer}
use oad.Table.{Table, transact, record_change, find_by_id, remove_by_id, query_row, has_clash}
use oad.Relation.{
  Relation, RelationRequest, TypeRow, extract_relation_entry, contains_text,
  validate_relation_request,
}

-- The entities and their types, which the service reads.
pub record Directory : Type 0 where
  pub entities : List Entity
  pub types : List TypeRow

abbrev pub same_system : Option ℕ → Option ℕ → Bool
same_system none none = true
same_system (some a) (some b) = a == b
same_system _ _ = false

-- The unique indexes uq_relation_global and uq_relation_scoped.
abbrev pub same_edge : Relation → Relation → Bool
same_edge r s =
    (r.subject_entity_id == s.subject_entity_id)
    && (same r.relation_type s.relation_type
        && ((r.target_entity_id == s.target_entity_id) && same_system r.system_id s.system_id))

module _ (env : Environment) (scope : Option ℕ) where
  -- getSubjectInfo, and getTargetTypeName, which reads the name alone.
  unfoldable pub entity_type : ℕ → Directory → Result StoreError TypeRow
  unfolding find_by_id
  entity_type id dir =
      if env.reads_fail
      then err (answered internal)
      else elim (find_by_id (λ (e : Entity). e.id) id dir.entities) [
        | none ↦ err (answered not_found)
        | some e ↦
            if env.scope_sees scope e.system_id
            then elim (find_by_id (λ (t : TypeRow). t.id) e.type_id dir.types) [
              | none ↦ err (answered not_found)
              | some t ↦ ok t
            ]
            else err (answered not_found)
      ]

  -- Create of the repository.
  unfoldable pub insert_relation :
      Relation → Table Relation → Result StoreError (Relation × Table Relation)
  unfolding has_clash same
  insert_relation r t =
      let stored : Relation = record r { id = t.next_id } in
      if env.writes_fail || not (env.scope_sees scope r.system_id)
      then err technical
      else if has_clash same_edge r t.rows
      then err duplicate
      else ok (stored, record t { rows = t.rows ++ (stored ∷ []); next_id = suc t.next_id })

  -- Delete of the repository.
  unfoldable pub delete_relation : ℕ → Table Relation → Result StoreError (Table Relation)
  unfolding query_row remove_by_id
  delete_relation id t = if env.writes_fail then err technical else (do
    row ←
        query_row (λ (r : Relation). r.id) (record env { reads_fail = false })
          (λ r. env.scope_sees scope r.system_id) id t.rows
    ok (record t { rows = remove_by_id (λ (r : Relation). r.id) id t.rows }))

module _ (print_uuid : ℕ → Text) where
  -- The function that Create runs in its transaction.
  unfoldable pub insert_checked :
      Environment
      → Identity
      → Directory
      → RelationRequest
      → Table Relation
      → Result StoreError (Relation × Table Relation)
  unfolding entity_type extract_relation_entry contains_text insert_relation record_change
  insert_checked env caller dir req t = do
    subject ← entity_type env caller.active_system_id req.subject_entity_id dir
    targets ← as_store (extract_relation_entry subject req.relation_type)
    target ← entity_type env caller.active_system_id req.target_entity_id dir
    _ ← guard (contains_text targets target.type_name) (answered bad_request)
    (stored, t₁) ←
        insert_relation env caller.active_system_id
          (record {
            id = 0;
            subject_entity_id = req.subject_entity_id;
            relation_type = req.relation_type;
            target_entity_id = req.target_entity_id;
            system_id = req.system_id;
          })
          t
    t₂ ← record_change print_uuid env caller op_create stored.id none (some stored) t₁
    ok (stored, t₂)

  -- Create
  unfoldable pub create_relation :
      Environment
      → Identity
      → Directory
      → RelationRequest
      → Table Relation
      → Result ApiError Relation × Table Relation
  unfolding validate_relation_request transact insert_checked
  create_relation env caller dir req t = elim (validate_relation_request req) [
    | err e ↦ (err e, t)
    | ok _ ↦ answer (transact env (insert_checked env caller dir req) t)
  ]

  -- The function that Delete runs in its transaction.
  unfoldable pub delete_checked :
      Environment → Identity → ℕ → Table Relation → Result StoreError (Relation × Table Relation)
  unfolding query_row delete_relation record_change
  delete_checked env caller id t = do
    existing ←
        query_row (λ (r : Relation). r.id) env
          (λ r. env.scope_sees caller.active_system_id r.system_id) id t.rows
    t₁ ← delete_relation env caller.active_system_id id t
    t₂ ← record_change print_uuid env caller op_delete id (some existing) none t₁
    ok (existing, t₂)

  -- Delete; the relation that is returned is for the proofs, the program returns the error alone.
  unfoldable pub remove_relation :
      Environment → Identity → ℕ → Table Relation → Result ApiError Relation × Table Relation
  unfolding transact delete_checked
  remove_relation env caller id t = answer (transact env (delete_checked env caller id) t)

-- ListParams
pub record RelationListParams : Type 0 where
  pub relation_type : Text
  pub system_id : Option ℕ
  pub limit : ℤ
  pub offset : ℕ

abbrev is_asked : RelationListParams → Relation → Bool
is_asked params r =
    (same params.relation_type [] || same r.relation_type params.relation_type)
    && elim params.system_id [ none ↦ true | some s ↦ same_system r.system_id (some s) ]

-- The WHERE clause of ListByEntity, over the rows that the pool shows; the newest are first.
unfoldable relations_of : Environment → ℕ → RelationListParams → List Relation → List Relation
unfolding same
relations_of env id params [] = []
relations_of env id params (r ∷ rs) =
    let rest = relations_of env id params rs in
    if (r.subject_entity_id == id) && (env.pool_sees r.system_id && is_asked params r)
    then rest ++ (r ∷ [])
    else rest

-- ListByEntity: a page, the total, and the limit that was applied.
unfoldable list_relations :
    Environment → ℕ → RelationListParams → Table Relation → Result ApiError (List Relation × ℕ × ℕ)
unfolding relations_of clamp_limit
list_relations env id params t =
    if env.reads_fail
    then err internal
    else let found = relations_of env id params t.rows in
      let limit = clamp_limit 25 100 params.limit in
      ok (page limit params.offset found, length found, limit)

-- GetByID
unfoldable get_relation : Environment → ℕ → Table Relation → Result ApiError Relation
unfolding query_row
get_relation env id t =
    elim (query_row (λ (r : Relation). r.id) env (λ r. env.pool_sees r.system_id) id t.rows) [
      | ok r ↦ ok r
      | err e ↦ err (to_api_error e)
    ]
