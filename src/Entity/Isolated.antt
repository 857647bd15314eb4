-- ===== src/Entity/Isolated.antt =====
-- A caller with an active system and the entities of other systems (internal/entity/service.go, internal/db/scope.go).
use oad.Base.{
  ℕ, ◌≡◌, refl, sym, subst, ◌∙◌, Bool, true, false, not, ◌||◌, Option, none, some, List, [], ◌∷◌,
  ◌++◌, arith, ◌==◌, ==_iff, Result, ok, err, Result-cases, Bool-cases, Option-cases, inl, inr,
}
use oad.Errors.{ApiError}
use oad.Scim.Text.{Text}
use oad.Scim.Json.{Json}
use oad.Auth.{Identity}
use oad.Entity.{Entity, CreateRequest, resolve_type, validate_properties}
use oad.Entity.Store.{
  Database, Environment, StoreError, find_row, find_key, set_properties, remove_row, visible,
  get_by_id, insert, update_row, delete_row, write_audit, write_from_context,
}
use oad.Entity.Service.{
  insert_audited, create, update_audited, update, delete_audited, delete, bulk_create,
}
use oad.Entity.Steps.{Ends, create-Steps, update-Steps, delete-Steps, bulk_create-Steps}

some_injective {ℓ} : {A : Type ℓ} {a b : A} → some a ≡ some b → a ≡ b
some_injective h = cc

find_row-append :
    (id : ℕ) (es more : List Entity) (row : Entity)
    → find_row id es ≡ some row
    → find_row id (es ++ more) ≡ some row
unfolding find_row
find_row-append id [] more row h = cc
find_row-append id (e ∷ es) more row h = ground (arith, find_row-append id es more row)

find_row-set_properties_other :
    (id other : ℕ) (props : Json) (es : List Entity)
    → (other == id) ≡ false
    → find_row id (set_properties other props es) ≡ find_row id es
unfolding find_row set_properties
find_row-set_properties_other id other props [] h = refl
find_row-set_properties_other id other props (e ∷ es) h =
    ground (arith, find_row-set_properties_other id other props es h)

find_row-remove_row_other :
    (id other : ℕ) (es : List Entity)
    → (other == id) ≡ false
    → find_row id (remove_row other es) ≡ find_row id es
unfolding find_row remove_row
find_row-remove_row_other id other [] h = refl
find_row-remove_row_other id other (e ∷ es) h =
    ground (arith, find_row-remove_row_other id other es h)

-- A row that is returned is there, and is shown.
abbrev Shown : (Option ℕ → Bool) → Option Entity → Result StoreError Entity → Type 0
Shown sees o (ok e) = (o ≡ some e) × (sees e.system_id ≡ true)
Shown sees o (err f) = Unit

visible-Shown : (sees : Option ℕ → Bool) (o : Option Entity) → Shown sees o (visible sees o)
visible-Shown sees none = tt
visible-Shown sees (some d) = elim (Bool-cases (sees d.system_id)) [
  | inr hidden ↦ rw hidden tt
  | inl shown ↦ rw shown (refl, shown)
]

visible-eq-ok :
    (sees : Option ℕ → Bool) (o : Option Entity) (e : Entity)
    → visible sees o ≡ ok e
    → (o ≡ some e) × (sees e.system_id ≡ true)
visible-eq-ok sees o e h = subst (λ r. Shown sees o r) h (visible-Shown sees o)

-- Row-level security shows a scope the rows of its own system alone, of those that have a system.
abbrev pub Lawful : ℕ → Environment → Type 0
Lawful s env = (t : ℕ) → env.scope_sees (some s) (some t) ≡ (s == t)

module _ (validate : Json → Json → Option ApiError) (print_uuid : ℕ → Text) (caller : Identity)
    (s : ℕ) (own : caller.active_system_id ≡ some s) where
  -- A row of another system stays as it is.
  abbrev Untouched : ℕ → Entity → Database → Database → Type 0
  Untouched id row db db' = find_row id db.entities ≡ some row → find_row id db'.entities ≡ some row

  module _ (id : ℕ) (row : Entity) (t : ℕ) (foreign : row.system_id ≡ some t)
      (differs : (s == t) ≡ false) where
    -- A row that the caller is shown is another one.
    other_row :
        (env : Environment) (other : ℕ) (shown : Entity) (db : Database)
        → Lawful s env
        → visible (env.scope_sees caller.active_system_id) (find_row other db.entities) ≡ ok shown
        → find_row id db.entities ≡ some row
        → (other == id) ≡ false
    other_row env other shown db law h there = elim (Bool-cases (other == id)) [
      | inr d ↦ d
      | inl e ↦
          let (found, seen) =
            visible-eq-ok (env.scope_sees caller.active_system_id) (find_row other db.entities)
              shown h in
          let found' : find_row id db.entities ≡ some shown = rw (← (==_iff other id).0 e) found in
          let same_row : row ≡ shown = some_injective (sym there ∙ found') in
          let shows : env.scope_sees (some s) (some t) ≡ true =
            rw (← own, ← foreign, same_row) seen in
          cc (law t, shows, differs)
    ]

    insert_audited-Untouched :
        (env : Environment) (e : Entity) (db : Database)
        → Lawful s env
        → Ends (Untouched id row) db (insert_audited validate print_uuid env caller e db)
    unfolding insert_audited insert write_from_context write_audit
    insert_audited-Untouched env e db law =
        elim (Bool-cases
          (env.writes_fail || not (env.scope_sees caller.active_system_id e.system_id))) [
            | inl refused ↦ rw refused tt
            | inr written ↦ elim (Option-cases (find_key e.type_id e.external_id db.entities)) [
              | inr (other, k) ↦ rw (written, k) tt
              | inl k ↦ elim (Bool-cases env.audit_fails) [
                | inl lost ↦ rw (written, k, lost) tt
                | inr kept ↦ rw (written, k, kept) (find_row-append id db.entities _ row)
              ]
            ]
          ]

    update_audited-Untouched :
        (env : Environment) (other : ℕ) (props : Json) (db : Database)
        → Lawful s env
        → Ends (Untouched id row) db (update_audited validate print_uuid env caller other props db)
    unfolding update_audited update_row write_from_context write_audit
    update_audited-Untouched env other props db law =
        elim (Result-cases (get_by_id env (env.scope_sees caller.active_system_id) other db)) [
          | inr (e, h) ↦ rw h tt
          | inl (existing, h) ↦
              elim (Result-cases (resolve_type env.reads_fail existing.type db.types)) [
                | inr (e, h₁) ↦ rw (h, h₁) tt
                | inl (def, h₁) ↦
                    elim (Result-cases
                      (validate_properties validate props def.allowed_properties)) [
                        | inr (e, h₂) ↦ rw (h, h₁, h₂) tt
                        | inl (valid, h₂) ↦ elim (Bool-cases env.writes_fail) [
                          | inl refused ↦ rw (h, h₁, h₂, refused) tt
                          | inr written ↦
                              elim (Result-cases (
                                visible (env.scope_sees caller.active_system_id)
                                  (find_row existing.id db.entities))) [
                                    | inr (e, h₃) ↦ rw (h, h₁, h₂, written, h₃) tt
                                    | inl (shown, h₃) ↦ elim (Bool-cases env.audit_fails) [
                                      | inl lost ↦ rw (h, h₁, h₂, written, h₃, lost) tt
                                      | inr kept ↦
                                          rw (h, h₁, h₂, written, h₃, kept)
                                            (λ there.
                                              find_row-set_properties_other id existing.id props
                                                db.entities
                                                (other_row env existing.id shown db law h₃ there)
                                              ∙ there)
                                    ]
                                  ]
                        ]
                      ]
              ]
        ]

    delete_audited-Untouched :
        (env : Environment) (other : ℕ) (db : Database)
        → Lawful s env
        → Ends (Untouched id row) db (delete_audited validate print_uuid env caller other db)
    unfolding delete_audited delete_row write_from_context write_audit
    delete_audited-Untouched env other db law =
        elim (Result-cases (get_by_id env (env.scope_sees caller.active_system_id) other db)) [
          | inr (e, h) ↦ rw h tt
          | inl (existing, h) ↦ elim (Bool-cases env.writes_fail) [
            | inl refused ↦ rw (h, refused) tt
            | inr written ↦
                elim (Result-cases
                  (visible (env.scope_sees caller.active_system_id) (find_row other db.entities))) [
                    | inr (e, h₁) ↦ rw (h, written, h₁) tt
                    | inl (shown, h₁) ↦ elim (Bool-cases env.audit_fails) [
                      | inl lost ↦ rw (h, written, h₁, lost) tt
                      | inr kept ↦
                          rw (h, written, h₁, kept)
                            (λ there.
                              find_row-remove_row_other id other db.entities
                                (other_row env other shown db law h₁ there)
                              ∙ there)
                    ]
                  ]
          ]
        ]

    -- A caller with an active system leaves every entity of another system as it is, whether it creates,
    -- updates, deletes or imports, if row-level security shows a scope no rows of other systems.
    pub service-isolated :
        (envs : ℕ → Environment) (req : CreateRequest) (target : ℕ) (props : Option Json)
        (mode : Text) (reqs : List CreateRequest) (db : Database)
        → ((i : ℕ) → Lawful s (envs i))
        → find_row id db.entities ≡ some row
        → (find_row id (create validate print_uuid (envs 0) caller req db).1.entities ≡ some row)
          × (find_row id (update validate print_uuid (envs 0) caller target props db).1.entities
              ≡ some row)
          × (find_row id (delete validate print_uuid (envs 0) caller target db).1.entities
              ≡ some row)
          × (find_row id (bulk_create validate print_uuid envs caller mode reqs db).1.entities
              ≡ some row)
    service-isolated envs req target props mode reqs db laws there =
        let still : (db : Database) → Untouched id row db db = λ db h. h in
        let and_then : (a b c : Database)
            → Untouched id row a b
            → Untouched id row b c
            → Untouched id row a c =
          λ a b c f g h. g (f h) in
        (
          create-Steps (Untouched id row) still and_then validate print_uuid caller (Lawful s)
              insert_audited-Untouched update_audited-Untouched delete_audited-Untouched (envs 0)
              req db (laws 0) there,
          update-Steps (Untouched id row) still and_then validate print_uuid caller (Lawful s)
              insert_audited-Untouched update_audited-Untouched delete_audited-Untouched (envs 0)
              target props db (laws 0) there,
          delete-Steps (Untouched id row) still and_then validate print_uuid caller (Lawful s)
              insert_audited-Untouched update_audited-Untouched delete_audited-Untouched (envs 0)
              target db (laws 0) there,
          bulk_create-Steps (Untouched id row) still and_then validate print_uuid caller (Lawful s)
              insert_audited-Untouched update_audited-Untouched delete_audited-Untouched envs laws
              mode reqs db there,
        )
