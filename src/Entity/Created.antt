-- ===== src/Entity/Created.antt =====
-- What an entity is that Create returns (internal/entity/service.go).
use oad.Base.{
  ℕ, ◌≡◌, refl, subst, Bool, true, false, not, ◌&&◌, ◌||◌, Option, none, some, List, [], ◌∷◌, ◌++◌,
  ◌==◌, Result, ok, err, Result-cases, Bool-cases, Option-cases, inl, inr, arith,
}
use oad.Errors.{ApiError}
use oad.Scim.Text.{Text, text, same}
use oad.Scim.Json.{Json}
use oad.Auth.{Identity}
use oad.Entity.{
  Entity, CreateRequest, EntityTypeDef, find_type, resolve_type, resolve_effective_system_id,
  validate_create_request, validate_scope_constraints, validate_properties, prepare, is_given,
  properties_or_empty,
}
use oad.Entity.Store.{
  Database, Environment, find_key, insert, in_transaction, write_audit, write_from_context,
}
use oad.Entity.Service.{answer, insert_audited, create}

-- The system of an entity that a caller creates: its own active one, or else the one that it asks for.
abbrev effective : Option ℕ → Option ℕ → Option ℕ
effective none requested = requested
effective (some own) requested = some own

-- The system fits the scope of the type: there is one for "system_scoped", and none for "global".
abbrev fits : Text → Option ℕ → Bool
fits scope system =
    not (same scope (text "system_scoped") && not (is_given system))
    && not (same scope (text "global") && is_given system)

-- A new row, which is the last one.
abbrev pub IsNew : Database → Database → Entity → Type 0
IsNew db db' e =
    (find_key e.type_id e.external_id db.entities ≡ none) × (db'.entities ≡ db.entities ++ (e ∷ []))

module _ (validate : Json → Json → Option ApiError) where
  -- The type of the entity exists, the system is the caller's and fits the type, and the properties are valid.
  abbrev pub IsAdmitted : Identity → List EntityTypeDef → CreateRequest → Entity → Type 0
  IsAdmitted caller types req e =
      (def : EntityTypeDef) × (find_type req.type types ≡ some def)
      × (e.type_id ≡ def.id)
      × (e.external_id ≡ req.external_id)
      × (e.system_id ≡ effective caller.active_system_id req.system_id)
      × (fits def.scope e.system_id ≡ true)
      × (validate e.properties def.allowed_properties ≡ none)

  abbrev Admits : Identity → List EntityTypeDef → CreateRequest → Result ApiError Entity → Type 0
  Admits caller types req (ok e) = IsAdmitted caller types req e
  Admits caller types req (err f) = Unit

  abbrev Scoped : Identity → Option ℕ → Result ApiError (Option ℕ) → Type 0
  Scoped caller requested (ok system) = system ≡ effective caller.active_system_id requested
  Scoped caller requested (err f) = Unit

  resolve_effective_system_id-Scoped :
      (caller : Identity) (requested : Option ℕ)
      → Scoped caller requested (resolve_effective_system_id caller requested)
  unfolding resolve_effective_system_id
  resolve_effective_system_id-Scoped caller requested = go caller.active_system_id refl requested
    where
      go :
          (active : Option ℕ)
          → caller.active_system_id ≡ active
          → (requested : Option ℕ)
          → Scoped caller requested (resolve_effective_system_id caller requested)
      go none e requested = rw (e, resolve_effective_system_id) refl
      go (some own) e none = rw (e, resolve_effective_system_id) refl
      go (some own) e (some other) = elim (Bool-cases (other == own)) [
        | inl s ↦ rw (e, resolve_effective_system_id, s) refl
        | inr d ↦ rw (e, resolve_effective_system_id, d) tt
      ]

  validate_scope_constraints-fits :
      (def : EntityTypeDef) (system : Option ℕ) (u : Unit {0})
      → validate_scope_constraints def system ≡ ok u
      → fits def.scope system ≡ true
  unfolding validate_scope_constraints
  validate_scope_constraints-fits def system u h = ground arith

  abbrev Found : Text → List EntityTypeDef → Result ApiError EntityTypeDef → Type 0
  Found name types (ok def) = find_type name types ≡ some def
  Found name types (err f) = Unit

  resolve_type-Found :
      (fails : Bool) (name : Text) (types : List EntityTypeDef)
      → Found name types (resolve_type fails name types)
  unfolding resolve_type
  resolve_type-Found true name types = tt
  resolve_type-Found false name types = elim (Option-cases (find_type name types)) [
    | inl h ↦ rw (resolve_type, h) tt
    | inr (def, h) ↦ rw (resolve_type, h) h
  ]

  abbrev Valid : Json → Json → Result ApiError (Unit {0}) → Type 0
  Valid props schema (ok u) = validate props schema ≡ none
  Valid props schema (err f) = Unit

  validate_properties-Valid :
      (props schema : Json) → Valid props schema (validate_properties validate props schema)
  unfolding validate_properties
  validate_properties-Valid props schema = elim (Option-cases (validate props schema)) [
    | inl h ↦ rw (validate_properties, h) h
    | inr (e, h) ↦ rw (validate_properties, h) tt
  ]

  prepare-Admits :
      (fails : Bool) (caller : Identity) (types : List EntityTypeDef) (req : CreateRequest)
      → Admits caller types req (prepare validate fails caller types req)
  unfolding prepare
  prepare-Admits fails caller types req = elim (Result-cases (validate_create_request req)) [
    | inr (e, h) ↦ rw h tt
    | inl (u, h) ↦ elim (Result-cases (resolve_type fails req.type types)) [
      | inr (e, h₁) ↦ rw (h, h₁) tt
      | inl (def, h₁) ↦ elim (Result-cases (resolve_effective_system_id caller req.system_id)) [
        | inr (e, h₂) ↦ rw (h, h₁, h₂) tt
        | inl (system, h₂) ↦ elim (Result-cases (validate_scope_constraints def system)) [
          | inr (e, h₃) ↦ rw (h, h₁, h₂, h₃) tt
          | inl (u', h₃) ↦
              elim (Result-cases (
                validate_properties validate (properties_or_empty req.properties)
                  def.allowed_properties)) [
                    | inr (e, h₄) ↦ rw (h, h₁, h₂, h₃, h₄) tt
                    | inl (u'', h₄) ↦
                        rw (h, h₁, h₂, h₃, h₄)
                          (
                            def,
                            subst (λ q. Found req.type types q) h₁
                                (resolve_type-Found fails req.type types),
                            refl,
                            refl,
                            subst (λ q. Scoped caller req.system_id q) h₂
                                (resolve_effective_system_id-Scoped caller req.system_id),
                            validate_scope_constraints-fits def system u' h₃,
                            subst
                                (λ q.
                                  Valid (properties_or_empty req.properties) def.allowed_properties
                                    q)
                                h₄
                                (validate_properties-Valid (properties_or_empty req.properties)
                                  def.allowed_properties),
                          )
                  ]
        ]
      ]
    ]
  ]

  module _ (print_uuid : ℕ → Text) (env : Environment) (caller : Identity) where
    abbrev Makes : CreateRequest → Database → Result ApiError Entity × Database → Type 0
    Makes req db (ok e, db') = IsAdmitted caller db.types req e × IsNew db db' e
    Makes req db (err f, db') = db' ≡ db

    stored-Makes :
        (req : CreateRequest) (e : Entity) (db : Database)
        → IsAdmitted caller db.types req e
        → Makes req db
            (answer (in_transaction env (insert_audited validate print_uuid env caller e) db))
    unfolding in_transaction insert_audited insert write_from_context write_audit
    stored-Makes req e db admitted =
        elim (Bool-cases
          (env.writes_fail || not (env.scope_sees caller.active_system_id e.system_id))) [
            | inl refused ↦ rw (Makes, in_transaction, insert_audited, insert, refused) refl
            | inr written ↦ elim (Option-cases (find_key e.type_id e.external_id db.entities)) [
              | inr (other, k) ↦ rw (Makes, in_transaction, insert_audited, insert, written, k) refl
              | inl k ↦ elim (Bool-cases env.audit_fails) [
                | inl lost ↦
                    rw (Makes, in_transaction, insert_audited, insert, written, k, lost) refl
                | inr kept ↦ elim (Bool-cases env.commit_fails) [
                  | inl undone ↦
                      rw (Makes, in_transaction, insert_audited, insert, written, k, kept, undone)
                        refl
                  | inr done ↦
                      rw (Makes, in_transaction, insert_audited, insert, written, k, kept, done)
                        (admitted, (k, refl))
                ]
              ]
            ]
          ]

    create-Makes :
        (req : CreateRequest) (db : Database)
        → Makes req db (create validate print_uuid env caller req db)
    unfolding create
    create-Makes req db =
        elim (Result-cases (prepare validate env.reads_fail caller db.types req)) [
          | inr (e, h) ↦ rw (create, h) refl
          | inl (e, h) ↦
              rw (create, h)
                (stored-Makes req e db (
                  subst (λ q. Admits caller db.types req q) h
                    (prepare-Admits env.reads_fail caller db.types req)))
        ]

    -- An entity that Create returns is new and is stored; its type exists, its system is the caller's active
    -- one or else the requested one and fits the scope of the type, and its properties are valid for the type.
    pub create-IsAdmitted :
        (req : CreateRequest) (e : Entity) (db db' : Database)
        → create validate print_uuid env caller req db ≡ (ok e, db')
        → IsAdmitted caller db.types req e × IsNew db db' e
    create-IsAdmitted req e db db' h = subst (λ q. Makes req db q) h (create-Makes req db)

    -- If Create returns an error, the database is as it was.
    create-unchanged :
        (req : CreateRequest) (f : ApiError) (db db' : Database)
        → create validate print_uuid env caller req db ≡ (err f, db')
        → db' ≡ db
    create-unchanged req f db db' h = subst (λ q. Makes req db q) h (create-Makes req db)
