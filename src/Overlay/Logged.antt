-- ===== src/Overlay/Logged.antt =====
-- What the functions that internal/overlay/service.go runs in transactions do to the table.
use oad.Base.{
  ℕ, suc, ◌≡◌, refl, sym, ap, ◌∙◌, subst, not, ◌||◌, Option, none, some, List, [], ◌∷◌, ◌++◌,
  Bool-cases, Option-cases, Result-cases, inl, inr, Result, ok, err, ◌>>=◌,
}
use oad.Scim.Text.{Text}
use oad.Scim.Json.{Json}
use oad.Auth.{Identity}
use oad.Entity.{Entity}
use oad.Entity.Store.{Operation, op_create, op_update, op_delete, Environment, StoreError}
use oad.Entity.Service.{answer}
use oad.Table.{Table, transact, record_change, find_by_id, put_by_id, remove_by_id, has_clash}
use oad.Overlay.{PropertyOverlay, Catalog}
use oad.Overlay.Service.{
  same_place, overlay_id, in_scope, insert_overlay, written_row, update_overlay, delete_overlay,
  owned_overlay, insert_logged, update_logged, delete_logged,
}
use oad.Overlay.Owned.{
  find_by_id-id, Found, written_row-Found, Owned, owned_overlay-Owned, Named, Effect,
}

-- The effect of a function that runs in a transaction.
abbrev Does :
    Catalog
    → ℕ
    → Table PropertyOverlay
    → Result StoreError (PropertyOverlay × Table PropertyOverlay)
    → Type 0
Does cat system t (ok (o, t')) = Effect cat system t.rows t'.rows
Does cat system t (err e) = Unit

module _ (print_uuid : ℕ → Text) (env : Environment) (caller : Identity) (cat : Catalog)
    (system : ℕ) where
  recorded-Does :
      (op : Operation) (id : ℕ) (o : PropertyOverlay) (before after : Option PropertyOverlay)
      (t t' : Table PropertyOverlay)
      → Effect cat system t.rows t'.rows
      → Does cat system t
          (record_change print_uuid env caller op id before after t' >>= λ t₂. ok (o, t₂))
  unfolding record_change
  recorded-Does op id o before after t t' h = elim (Bool-cases env.audit_fails) [
    | inl f ↦ rw f tt
    | inr f ↦ rw f h
  ]

  pub insert_logged-Does :
      (o : PropertyOverlay) (t : Table PropertyOverlay)
      → o.system_id ≡ system
      → Named cat system o.properties
      → Does cat system t (insert_logged print_uuid env caller cat o t)
  unfolding insert_logged insert_overlay
  insert_logged-Does o t own named =
      elim (Bool-cases (env.writes_fail || not (in_scope env caller.active_system_id o))) [
        | inl w ↦ rw w tt
        | inr w ↦ elim (Bool-cases (has_clash same_place o t.rows)) [
          | inl h ↦ rw (w, h) tt
          | inr h ↦
              elim (Option-cases (find_by_id (λ (e : Entity). e.id) o.entity_id cat.entities)) [
                | inl n ↦ rw (w, h, n) tt
                | inr (e, n) ↦
                    let stored : PropertyOverlay = record o { id = t.next_id } in
                    let t₁ : Table PropertyOverlay = record t {
                      rows = t.rows ++ (stored ∷ []);
                      next_id = suc t.next_id;
                    } in
                    rw (w, h, n)
                      (recorded-Does op_create t.next_id stored none (some stored) t t₁
                        (Effect.added stored own named (has_clash-id t.next_id o t.rows ∙ h)))
              ]
        ]
      ]
    where
      has_clash-id :
          (n : ℕ) (o : PropertyOverlay) (rs : List PropertyOverlay)
          → has_clash same_place (record o { id = n }) rs ≡ has_clash same_place o rs
      has_clash-id n o [] = unfold has_clash in refl
      has_clash-id n o (s ∷ rs) = unfold has_clash in (rw (has_clash-id n o rs) refl)

  -- The row that is written is the one that the caller owns.
  written :
      (id entity key : ℕ) (t : Table PropertyOverlay) (existing row : PropertyOverlay)
      → owned_overlay env caller.active_system_id entity system id t ≡ ok existing
      → written_row env caller.active_system_id key t ≡ ok row
      → key ≡ id
      → (row.system_id ≡ system) × (find_by_id overlay_id row.id t.rows ≡ some row) × (row.id ≡ id)
  written id entity key t existing row h k e =
      let scope = caller.active_system_id in
      let (there, own) =
        subst (λ r. Owned system (find_by_id overlay_id id t.rows) r) h
          (owned_overlay-Owned env scope entity system id t) in
      let found : find_by_id overlay_id key t.rows ≡ some row =
        subst (λ r. Found (find_by_id overlay_id key t.rows) r) k
          (written_row-Found env scope key t) in
      let found' : find_by_id overlay_id id t.rows ≡ some row = rw e at found in
      let same_row : row ≡ existing = some_injective (sym found' ∙ there) in
      let row_id : row.id ≡ id = find_by_id-id id t.rows row found' in
      (
        ap (λ (o : PropertyOverlay). o.system_id) same_row ∙ own,
        ap (λ n. find_by_id overlay_id n t.rows) row_id ∙ found',
        row_id,
      )
    where
      some_injective : {a b : PropertyOverlay} → some a ≡ some b → a ≡ b
      some_injective h = cc

  pub update_logged-Does :
      (entity id : ℕ) (props : Json) (t : Table PropertyOverlay)
      → Named cat system props
      → Does cat system t (update_logged print_uuid env caller entity system id props t)
  unfolding update_logged update_overlay
  update_logged-Does entity id props t named =
      let scope = caller.active_system_id in
      elim (Result-cases (owned_overlay env scope entity system id t)) [
        | inr (e, h) ↦ rw h tt
        | inl (existing, h) ↦ elim (Result-cases (written_row env scope existing.id t)) [
          | inr (e, k) ↦ rw (h, k) tt
          | inl (row, k) ↦
              let there =
                (subst (λ r. Owned system (find_by_id overlay_id id t.rows) r) h
                  (owned_overlay-Owned env scope entity system id t)).0 in
              let (own, found, row_id) =
                written id entity existing.id t existing row h k
                  (find_by_id-id id t.rows existing there) in
              let after : PropertyOverlay = record existing { properties = props } in
              let t₁ : Table PropertyOverlay = record t {
                rows = put_by_id overlay_id (record row { properties = props }) t.rows;
              } in
              rw (h, k)
                (recorded-Does op_update existing.id after (some existing) (some after) t t₁
                  (Effect.changed row props own found named))
        ]
      ]

  pub delete_logged-Does :
      (entity id : ℕ) (t : Table PropertyOverlay)
      → Does cat system t (delete_logged print_uuid env caller entity system id t)
  unfolding delete_logged delete_overlay
  delete_logged-Does entity id t =
      let scope = caller.active_system_id in
      elim (Result-cases (owned_overlay env scope entity system id t)) [
        | inr (e, h) ↦ rw h tt
        | inl (existing, h) ↦ elim (Result-cases (written_row env scope id t)) [
          | inr (e, k) ↦ rw (h, k) tt
          | inl (row, k) ↦
              let (own, found, row_id) = written id entity id t existing row h k refl in
              let t₁ : Table PropertyOverlay = record t {
                rows = remove_by_id overlay_id id t.rows;
              } in
              rw (h, k)
                (recorded-Does op_delete id existing (some existing) none t t₁ (
                  subst (λ n. Effect cat system t.rows (remove_by_id overlay_id n t.rows)) row_id
                    (Effect.removed row own found)))
        ]
      ]

  pub transact-Effect :
      (run : Table PropertyOverlay → Result StoreError (PropertyOverlay × Table PropertyOverlay))
      (t : Table PropertyOverlay)
      → Does cat system t (run t)
      → Effect cat system t.rows (answer (transact env run t)).1.rows
  unfolding transact
  transact-Effect run t d = elim (Result-cases (run t)) [
    | inr (e, h) ↦ rw (transact, h) Effect.kept
    | inl ((o, t'), h) ↦ elim (Bool-cases env.commit_fails) [
      | inl f ↦ rw (transact, h, f) Effect.kept
      | inr f ↦ rw (transact, h, f) (subst (λ r. Does cat system t r) h d)
    ]
  ]
