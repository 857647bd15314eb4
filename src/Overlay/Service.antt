-- ===== src/Overlay/Service.antt =====
-- internal/overlay/service.go over internal/overlay/repository.go.
use oad.Base.{
  ℕ, suc, Bool, false, not, ◌&&◌, ◌||◌, Option, none, some, List, [], ◌∷◌, ◌++◌, length, leb, ◌==◌,
  if◌then◌else◌, Result, ok, err, ◌>>=◌, guard,
}
use oad.Errors.{ApiError, bad_request, not_found}
use oad.Scim.Text.{Text}
use oad.Scim.Json.{Json}
use oad.Auth.{Identity}
use oad.Config.Numbers.{ℤ}
use oad.Entity.{Entity}
use oad.Entity.Store.{
  op_create, op_update, op_delete, Environment, StoreError, missing, duplicate, technical, answered,
  to_api_error,
}
use oad.Entity.Service.{answer}
use oad.Table.{
  Table, transact, record_change, find_by_id, put_by_id, remove_by_id, query_row, has_clash,
}
use oad.Table.Paging.{clamp_limit, page}
use oad.Overlay.{PropertyOverlay, Catalog, resolve_caller_system, resolve_entity, check_overlay}

-- UNIQUE (entity_id, system_id)
abbrev pub same_place : PropertyOverlay → PropertyOverlay → Bool
same_place o p = (o.entity_id == p.entity_id) && (o.system_id == p.system_id)

abbrev pub overlay_id : PropertyOverlay → ℕ
overlay_id o = o.id

module _ (env : Environment) (scope : Option ℕ) where
  abbrev pub in_scope : PropertyOverlay → Bool
  in_scope o = env.scope_sees scope (some o.system_id)

  -- Create of the repository; the entity is a foreign key.
  unfoldable pub insert_overlay :
      Catalog
      → PropertyOverlay
      → Table PropertyOverlay
      → Result StoreError (PropertyOverlay × Table PropertyOverlay)
  unfolding has_clash find_by_id
  insert_overlay cat o t =
      let stored : PropertyOverlay = record o { id = t.next_id } in
      if env.writes_fail || not (in_scope o)
      then err technical
      else if has_clash same_place o t.rows
      then err duplicate
      else elim (find_by_id (λ (e : Entity). e.id) o.entity_id cat.entities) [
        | none ↦ err (answered not_found)
        | some e ↦ ok (stored, record t { rows = t.rows ++ (stored ∷ []); next_id = suc t.next_id })
      ]

  -- The row that Update and Delete of the repository affect.
  unfoldable pub written_row : ℕ → Table PropertyOverlay → Result StoreError PropertyOverlay
  unfolding query_row
  written_row id t =
      if env.writes_fail
      then err technical
      else query_row overlay_id (record env { reads_fail = false }) in_scope id t.rows

  -- Update of the repository.
  unfoldable pub update_overlay :
      PropertyOverlay → Table PropertyOverlay → Result StoreError (Table PropertyOverlay)
  unfolding written_row put_by_id
  update_overlay o t = do
    row ← written_row o.id t
    ok (record t { rows = put_by_id overlay_id (record row { properties = o.properties }) t.rows })

  -- Delete of the repository.
  unfoldable pub delete_overlay :
      ℕ → Table PropertyOverlay → Result StoreError (Table PropertyOverlay)
  unfolding written_row remove_by_id
  delete_overlay id t = do
    row ← written_row id t
    ok (record t { rows = remove_by_id overlay_id id t.rows })

  -- GetByID in a transaction, with the checks that the overlay is the entity's and the caller's.
  unfoldable pub owned_overlay :
      ℕ → ℕ → ℕ → Table PropertyOverlay → Result StoreError PropertyOverlay
  unfolding query_row
  owned_overlay entity system id t = do
    existing ← query_row overlay_id env in_scope id t.rows
    _ ← guard (existing.entity_id == entity) missing
    _ ← guard (existing.system_id == system) missing
    ok existing

module _ (print_uuid : ℕ → Text) where
  unfoldable pub insert_logged :
      Environment
      → Identity
      → Catalog
      → PropertyOverlay
      → Table PropertyOverlay
      → Result StoreError (PropertyOverlay × Table PropertyOverlay)
  unfolding insert_overlay record_change
  insert_logged env caller cat o t = do
    (stored, t₁) ← insert_overlay env caller.active_system_id cat o t
    t₂ ← record_change print_uuid env caller op_create stored.id none (some stored) t₁
    ok (stored, t₂)

  unfoldable pub update_logged :
      Environment
      → Identity
      → ℕ
      → ℕ
      → ℕ
      → Json
      → Table PropertyOverlay
      → Result StoreError (PropertyOverlay × Table PropertyOverlay)
  unfolding owned_overlay update_overlay record_change
  update_logged env caller entity system id props t = do
    existing ← owned_overlay env caller.active_system_id entity system id t
    let changed : PropertyOverlay = record existing { properties = props }
    t₁ ← update_overlay env caller.active_system_id changed t
    t₂ ← record_change print_uuid env caller op_update changed.id (some existing) (some changed) t₁
    ok (changed, t₂)

  unfoldable pub delete_logged :
      Environment
      → Identity
      → ℕ
      → ℕ
      → ℕ
      → Table PropertyOverlay
      → Result StoreError (PropertyOverlay × Table PropertyOverlay)
  unfolding owned_overlay delete_overlay record_change
  delete_logged env caller entity system id t = do
    existing ← owned_overlay env caller.active_system_id entity system id t
    t₁ ← delete_overlay env caller.active_system_id id t
    t₂ ← record_change print_uuid env caller op_delete id (some existing) none t₁
    ok (existing, t₂)

  module _ (compiles : Json → Bool) (validate : Json → Json → Option ApiError) where
    -- Create
    unfoldable pub create_overlay :
        Environment
        → Identity
        → Catalog
        → ℕ
        → Option Json
        → Table PropertyOverlay
        → Result ApiError PropertyOverlay × Table PropertyOverlay
    unfolding check_overlay transact insert_logged
    create_overlay env caller cat entity none t = (err bad_request, t)
    create_overlay env caller cat entity (some props) t =
        elim (check_overlay compiles validate env caller cat entity props) [
          | err e ↦ (err e, t)
          | ok (system, name) ↦
              let o : PropertyOverlay = record {
                id = 0;
                entity_id = entity;
                system_id = system;
                properties = props;
              } in
              answer (transact env (insert_logged env caller cat o) t)
        ]

    -- Update
    unfoldable pub change_overlay :
        Environment
        → Identity
        → Catalog
        → ℕ
        → ℕ
        → Option Json
        → Table PropertyOverlay
        → Result ApiError PropertyOverlay × Table PropertyOverlay
    unfolding check_overlay transact update_logged
    change_overlay env caller cat entity id none t = (err bad_request, t)
    change_overlay env caller cat entity id (some props) t =
        elim (check_overlay compiles validate env caller cat entity props) [
          | err e ↦ (err e, t)
          | ok (system, name) ↦
              answer (transact env (update_logged env caller entity system id props) t)
        ]

  -- Delete; the overlay that is returned is for the proofs, the program returns the error alone.
  unfoldable pub remove_overlay :
      Environment
      → Identity
      → Catalog
      → ℕ
      → ℕ
      → Table PropertyOverlay
      → Result ApiError PropertyOverlay × Table PropertyOverlay
  unfolding resolve_caller_system transact delete_logged
  remove_overlay env caller cat entity id t = elim (resolve_caller_system env caller cat) [
    | err e ↦ (err e, t)
    | ok (system, name) ↦ answer (transact env (delete_logged env caller entity system id) t)
  ]

-- assertSystemAccess
unfoldable assert_system_access : Identity → ℕ → Result ApiError (Unit {0})
assert_system_access caller system =
    if caller.is_platform_admin then ok tt else elim caller.active_system_id [
      | none ↦ err not_found
      | some own ↦ guard (own == system) not_found
    ]

-- GetByID
unfoldable get_overlay :
    Environment → Identity → ℕ → ℕ → Table PropertyOverlay → Result ApiError PropertyOverlay
unfolding query_row assert_system_access
get_overlay env caller entity id t =
    elim (query_row overlay_id env (λ o. env.pool_sees (some o.system_id)) id t.rows) [
      | err e ↦ err (to_api_error e)
      | ok o ↦ do
        _ ← guard (o.entity_id == entity) not_found
        _ ← assert_system_access caller o.system_id
        ok o
    ]

-- ORDER BY system_id, over the overlays of one entity that the pool shows.
unfoldable insert_by_system : PropertyOverlay → List PropertyOverlay → List PropertyOverlay
insert_by_system o [] = o ∷ []
insert_by_system o (p ∷ ps) =
    let rest = insert_by_system o ps in if leb o.system_id p.system_id then o ∷ p ∷ ps else p ∷ rest

unfoldable overlays_of : Environment → ℕ → List PropertyOverlay → List PropertyOverlay
unfolding insert_by_system
overlays_of env entity [] = []
overlays_of env entity (o ∷ os) =
    let rest = overlays_of env entity os in
    if (o.entity_id == entity) && env.pool_sees (some o.system_id)
    then insert_by_system o rest
    else rest

-- The loop of ListByEntity.
unfoldable only_system : ℕ → List PropertyOverlay → List PropertyOverlay
only_system system [] = []
only_system system (o ∷ os) =
    let rest = only_system system os in if o.system_id == system then o ∷ rest else rest

-- ListByEntity: a page and the total.
unfoldable pub list_overlays :
    Environment
    → Identity
    → Catalog
    → ℕ
    → ℤ
    → ℕ
    → Table PropertyOverlay
    → Result ApiError (List PropertyOverlay × ℕ)
unfolding resolve_entity overlays_of only_system clamp_limit
list_overlays env caller cat entity limit offset t = do
  _ ← resolve_entity env entity cat
  let found = overlays_of env entity t.rows
  let all = page (clamp_limit 25 100 limit) offset found
  elim caller.active_system_id [
    | some own ↦ let filtered = only_system own (page 2 0 found) in ok (filtered, length filtered)
    | none ↦ ok (all, length found)
  ]
