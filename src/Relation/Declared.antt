-- ===== src/Relation/Declared.antt =====
-- What the relations that the service stores are like (internal/relation/service.go).
use oad.Base.{
  ℕ, ◌≡◌, ◌∙◌, subst, false, not, ◌||◌, Option, none, some, List, [], All, All-append, ◌==◌,
  Bool-cases, Option-cases, Result-cases, inl, inr, Result, ok, err, ◌>>=◌, guard, guard-true,
  Yields, >>=-Yields, sym, ap,
}
use oad.Errors.{ApiError}
use oad.Scim.Text.{Text, same}
use oad.Auth.{Identity}
use oad.Entity.{Entity}
use oad.Entity.Store.{Operation, op_create, Environment, StoreError, answered}
use oad.Entity.Service.{as_store, answer}
use oad.Table.{Table, transact, record_change, query_row, find_by_id, has_clash}
use oad.Table.Rows.{NoDouble, NoDouble-append, NoDouble-remove, All-remove}
use oad.Relation.{
  Relation, RelationRequest, TypeRow, extract_relation_entry, contains_text,
  validate_relation_request,
}
use oad.Relation.Service.{
  Directory, same_edge, entity_type, insert_relation, delete_relation, insert_checked,
  create_relation, delete_checked, remove_relation,
}
use oad.Relation.Graph.{same_edge_comm, id_of, has_clash-id, HasType, IsDeclared}

as_store-ok : (r : Result ApiError (List Text)) (ts : List Text) → as_store r ≡ ok ts → r ≡ ok ts
as_store-ok (ok us) ts h = let e : us ≡ ts = cc in ap ok e
as_store-ok (err e) ts h = let bad : ok ts ≡ err (answered e) = sym h in cc

module _ (dir : Directory) where
  -- The state that the service keeps: declared edges, none of them twice.
  abbrev pub IsGraph : Table Relation → Type 0
  IsGraph t = All (IsDeclared dir) t.rows × NoDouble same_edge t.rows

  abbrev Typed : ℕ → Result StoreError TypeRow → Type 0
  Typed id (ok type) = HasType dir id type
  Typed id (err e) = Unit

  entity_type-Typed :
      (env : Environment) (scope : Option ℕ) (id : ℕ) → Typed id (entity_type env scope id dir)
  unfolding entity_type
  entity_type-Typed env scope id = elim (Bool-cases env.reads_fail) [
    | inl f ↦ rw f tt
    | inr f ↦ elim (Option-cases (find_by_id (λ (e : Entity). e.id) id dir.entities)) [
      | inl n ↦ rw (f, n) tt
      | inr (e, n) ↦ elim (Bool-cases (env.scope_sees scope e.system_id)) [
        | inr s ↦ rw (f, n, s) tt
        | inl s ↦ elim (Option-cases (find_by_id (λ (t : TypeRow). t.id) e.type_id dir.types)) [
          | inl m ↦ rw (f, n, s, m) tt
          | inr (type, m) ↦ rw (f, n, s, m) (e, n, m)
        ]
      ]
    ]
  ]

  abbrev Kept : Table Relation → Result StoreError (Relation × Table Relation) → Type 0
  Kept t = Yields (λ (p : Relation × Table Relation). IsGraph t → IsGraph p.1)

  insert_relation-Kept :
      (env : Environment) (scope : Option ℕ) (r : Relation) (t : Table Relation)
      → ((n : ℕ) → IsDeclared dir (record r { id = n }))
      → Kept t (insert_relation env scope r t)
  unfolding insert_relation
  insert_relation-Kept env scope r t declared =
      elim (Bool-cases (env.writes_fail || not (env.scope_sees scope r.system_id))) [
        | inl w ↦ rw w tt
        | inr w ↦ elim (Bool-cases (has_clash same_edge r t.rows)) [
          | inl h ↦ rw (w, h) tt
          | inr h ↦
              rw (w, h)
                (λ (all, none_double). (
                  All-append (IsDeclared dir) t.rows _ all (declared t.next_id, tt),
                  NoDouble-append id_of same_edge same_edge_comm (record r { id = t.next_id })
                      t.rows none_double (has_clash-id t.next_id r t.rows ∙ h),
                ))
        ]
      ]

  module _ (print_uuid : ℕ → Text) (caller : Identity) where
    recorded-Kept :
        (env : Environment) (op : Operation) (r : Relation) (before after : Option Relation)
        (t t' : Table Relation)
        → (IsGraph t → IsGraph t')
        → Kept t (record_change print_uuid env caller op r.id before after t' >>= λ t₂. ok (r, t₂))
    unfolding record_change
    recorded-Kept env op r before after t t' k = elim (Bool-cases env.audit_fails) [
      | inl f ↦ rw f tt
      | inr f ↦ rw f k
    ]

    insert_checked-Kept :
        (env : Environment) (req : RelationRequest) (t : Table Relation)
        → same req.relation_type [] ≡ false
        → (req.subject_entity_id == req.target_entity_id) ≡ false
        → Kept t (insert_checked print_uuid env caller dir req t)
    unfolding insert_checked
    insert_checked-Kept env req t named no_loop =
        let scope = caller.active_system_id in
        let P = λ (p : Relation × Table Relation). IsGraph t → IsGraph p.1 in
        let new : Relation = record {
          id = 0;
          subject_entity_id = req.subject_entity_id;
          relation_type = req.relation_type;
          target_entity_id = req.target_entity_id;
          system_id = req.system_id;
        } in
        >>=-Yields P (entity_type env scope req.subject_entity_id dir) _ (λ subject h.
          >>=-Yields P (as_store (extract_relation_entry subject req.relation_type)) _ (λ targets k.
            >>=-Yields P (entity_type env scope req.target_entity_id dir) _ (λ target l.
              >>=-Yields P (guard (contains_text targets target.type_name) _) _ (λ _ c.
                >>=-Yields P (insert_relation env scope new t) _ (λ (stored, t₁) m.
                  recorded-Kept env op_create stored none (some stored) t t₁ (
                    subst (Kept t) m (
                      insert_relation-Kept env scope new t (λ n. record {
                        subject_type = subject;
                        target_type = target;
                        targets = targets;
                        subject = typed req.subject_entity_id subject env h;
                        target = typed req.target_entity_id target env l;
                        declared = as_store-ok _ targets k;
                        allowed = guard-true _ _ _ c;
                        named = named;
                        no_loop = no_loop;
                      }))))))))
      where
        typed :
            (id : ℕ) (type : TypeRow) (env : Environment)
            → entity_type env caller.active_system_id id dir ≡ ok type
            → HasType dir id type
        typed id type env h =
            subst (λ r. Typed id r) h (entity_type-Typed env caller.active_system_id id)

    delete_checked-Kept :
        (env : Environment) (id : ℕ) (t : Table Relation)
        → Kept t (delete_checked print_uuid env caller id t)
    unfolding delete_checked delete_relation record_change
    delete_checked-Kept env id t =
        let sees = λ (r : Relation). env.scope_sees caller.active_system_id r.system_id in
        elim (Result-cases (query_row id_of env sees id t.rows)) [
          | inr (e, h) ↦ rw h tt
          | inl (existing, h) ↦ elim (Bool-cases env.writes_fail) [
            | inl w ↦ rw (h, w) tt
            | inr w ↦
                elim (Result-cases
                  (query_row id_of (record env { reads_fail = false }) sees id t.rows)) [
                    | inr (e, k) ↦ rw (h, w, k) tt
                    | inl (row, k) ↦ elim (Bool-cases env.audit_fails) [
                      | inl f ↦ rw (h, w, k, f) tt
                      | inr f ↦
                          rw (h, w, k, f)
                            (λ g. (
                              All-remove id_of (IsDeclared dir) id t.rows g.0,
                              NoDouble-remove id_of same_edge same_edge_comm id t.rows g.1,
                            ))
                    ]
                  ]
          ]
        ]

    transact-Kept :
        (env : Environment) (run : Table Relation → Result StoreError (Relation × Table Relation))
        (t : Table Relation)
        → Kept t (run t)
        → IsGraph t
        → IsGraph (answer (transact env run t)).1
    unfolding transact
    transact-Kept env run t k g = elim (Result-cases (run t)) [
      | inr (e, h) ↦ rw (transact, h) g
      | inl ((r, t'), h) ↦ elim (Bool-cases env.commit_fails) [
        | inl f ↦ rw (transact, h, f) g
        | inr f ↦ rw (transact, h, f) ((subst (λ r. Kept t r) h k) g)
      ]
    ]

    create_relation-IsGraph :
        (env : Environment) (req : RelationRequest) (t : Table Relation)
        → IsGraph t
        → IsGraph (create_relation print_uuid env caller dir req t).1
    unfolding create_relation validate_relation_request
    create_relation-IsGraph env req t g = elim (Bool-cases (req.subject_entity_id == 0)) [
      | inl a ↦ rw (create_relation, a) g
      | inr a ↦ elim (Bool-cases (same req.relation_type [])) [
        | inl b ↦ rw (create_relation, a, b) g
        | inr b ↦ elim (Bool-cases (req.target_entity_id == 0)) [
          | inl c ↦ rw (create_relation, a, b, c) g
          | inr c ↦ elim (Bool-cases (req.subject_entity_id == req.target_entity_id)) [
            | inl d ↦ rw (create_relation, a, b, c, d) g
            | inr d ↦
                rw (create_relation, a, b, c, d)
                  (transact-Kept env (insert_checked print_uuid env caller dir req) t
                    (insert_checked-Kept env req t b d) g)
          ]
        ]
      ]
    ]

    remove_relation-IsGraph :
        (env : Environment) (id : ℕ) (t : Table Relation)
        → IsGraph t
        → IsGraph (remove_relation print_uuid env caller id t).1
    unfolding remove_relation
    remove_relation-IsGraph env id t =
        transact-Kept env (delete_checked print_uuid env caller id) t (delete_checked-Kept env id t)

-- The tables that the service gets to by the calls of any callers, whatever fails meanwhile.
pub data Edited (print_uuid : ℕ → Text) (dir : Directory) (start : Table Relation)
    : Table Relation → Type 0 where
  unchanged : Edited print_uuid dir start start
  by_create :
      {t : Table Relation} (env : Environment) (caller : Identity) (req : RelationRequest)
      → Edited print_uuid dir start t
      → Edited print_uuid dir start (create_relation print_uuid env caller dir req t).1
  by_delete :
      {t : Table Relation} (env : Environment) (caller : Identity) (id : ℕ)
      → Edited print_uuid dir start t
      → Edited print_uuid dir start (remove_relation print_uuid env caller id t).1

module _ (print_uuid : ℕ → Text) (dir : Directory) (start : Table Relation)
    (g : IsGraph dir start) where
  -- While the entities and their types stay as they are, all relations that the service comes to store,
  -- whoever calls it and whatever fails, are edges that the type of the subject declares, to an entity of a type
  -- that the declaration names, from an entity to another one; and no two of them are the same edge.
  pub Edited-IsGraph : (t : Table Relation) → Edited print_uuid dir start t → IsGraph dir t
  Edited-IsGraph _ unchanged = g
  Edited-IsGraph _ (by_create {t} env caller req h) =
      create_relation-IsGraph dir print_uuid caller env req t (Edited-IsGraph t h)
  Edited-IsGraph _ (by_delete {t} env caller id h) =
      remove_relation-IsGraph dir print_uuid caller env id t (Edited-IsGraph t h)
