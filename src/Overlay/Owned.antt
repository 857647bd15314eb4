-- ===== src/Overlay/Owned.antt =====
-- Which rows internal/overlay/service.go reads and writes, and what it may do to them.
use oad.Base.{
  ==_iff, ℕ, ◌≡◌, refl, sym, ap, ◌∙◌, subst, Bool, true, false, Option, some, List, [], ◌∷◌, ◌++◌,
  arith, ◌==◌, Bool-cases, Option-cases, Result-cases, inl, inr, Result, ok, err,
}
use oad.Scim.Text.{Text}
use oad.Scim.Json.{Json, null, obj}
use oad.Entity.Store.{Environment, StoreError}
use oad.Table.{Table, find_by_id, put_by_id, remove_by_id, query_row, has_clash}
use oad.Overlay.{PropertyOverlay, SystemRow, Catalog, prefix_of, all_prefixed}
use oad.Overlay.Service.{same_place, overlay_id, in_scope, written_row, owned_overlay}

-- Every top-level key has the prefix; null has no keys.
abbrev pub IsPrefixed : Text → Json → Type 0
IsPrefixed name (obj fs) = all_prefixed (prefix_of name) fs ≡ true
IsPrefixed name null = Unit
IsPrefixed name _ = ⊥

-- The properties have the name of a system in front, as the catalog has it.
abbrev pub Named : Catalog → ℕ → Json → Type 0
Named cat system props =
    (row : SystemRow) × (name : Text) × (find_by_id (λ (r : SystemRow). r.id) system cat.systems
      ≡ some row)
    × (row.name ≡ some name)
    × IsPrefixed name props

-- What a call of a caller in `system` does to the rows.
pub data Effect (cat : Catalog) (system : ℕ) (rows : List PropertyOverlay)
    : List PropertyOverlay → Type 0 where
  kept : Effect cat system rows rows
  added :
      (o : PropertyOverlay)
      → o.system_id ≡ system
      → Named cat system o.properties
      → has_clash same_place o rows ≡ false
      → Effect cat system rows (rows ++ (o ∷ []))
  changed :
      (o : PropertyOverlay) (props : Json)
      → o.system_id ≡ system
      → find_by_id overlay_id o.id rows ≡ some o
      → Named cat system props
      → Effect cat system rows (put_by_id overlay_id (record o { properties = props }) rows)
  removed :
      (o : PropertyOverlay)
      → o.system_id ≡ system
      → find_by_id overlay_id o.id rows ≡ some o
      → Effect cat system rows (remove_by_id overlay_id o.id rows)

-- A row that is found has the identifier that it was looked for by.
pub find_by_id-id :
    (id : ℕ) (rows : List PropertyOverlay) (o : PropertyOverlay)
    → find_by_id overlay_id id rows ≡ some o
    → o.id ≡ id
unfolding find_by_id
find_by_id-id id [] o h = cc
find_by_id-id id (p ∷ ps) o h = elim (Bool-cases (p.id == id)) [
  | inl e ↦
      let p' : p ≡ o = ground (arith, (rw e at h)) in ap overlay_id (sym p') ∙ (==_iff p.id id).0 e
  | inr e ↦ find_by_id-id id ps o (rw e at h)
]

abbrev pub Found : (Option PropertyOverlay) → Result StoreError PropertyOverlay → Type 0
Found row (ok o) = row ≡ some o
Found row (err e) = Unit

query_row-Found :
    (env : Environment) (sees : PropertyOverlay → Bool) (id : ℕ) (rows : List PropertyOverlay)
    → Found (find_by_id overlay_id id rows) (query_row overlay_id env sees id rows)
unfolding query_row
query_row-Found env sees id rows = elim (Bool-cases env.reads_fail) [
  | inl f ↦ rw f tt
  | inr f ↦ elim (Option-cases (find_by_id overlay_id id rows)) [
    | inl n ↦ rw (f, n) tt
    | inr (o, n) ↦ elim (Bool-cases (sees o)) [
      | inl s ↦ rw (f, n, s) refl
      | inr s ↦ rw (f, n, s) tt
    ]
  ]
]

pub written_row-Found :
    (env : Environment) (scope : Option ℕ) (id : ℕ) (t : Table PropertyOverlay)
    → Found (find_by_id overlay_id id t.rows) (written_row env scope id t)
unfolding written_row
written_row-Found env scope id t = elim (Bool-cases env.writes_fail) [
  | inl w ↦ rw w tt
  | inr w ↦
      rw w (query_row-Found (record env { reads_fail = false }) (in_scope env scope) id t.rows)
]

abbrev pub Owned : ℕ → (Option PropertyOverlay) → Result StoreError PropertyOverlay → Type 0
Owned system row (ok o) = (row ≡ some o) × (o.system_id ≡ system)
Owned system row (err e) = Unit

pub owned_overlay-Owned :
    (env : Environment) (scope : Option ℕ) (entity system id : ℕ) (t : Table PropertyOverlay)
    → Owned system (find_by_id overlay_id id t.rows) (owned_overlay env scope entity system id t)
unfolding owned_overlay
owned_overlay-Owned env scope entity system id t =
    elim (Result-cases (query_row overlay_id env (in_scope env scope) id t.rows)) [
      | inr (e, h) ↦ rw h tt
      | inl (o, h) ↦ elim (Bool-cases (o.entity_id == entity)) [
        | inr a ↦ rw (h, a) tt
        | inl a ↦ elim (Bool-cases (o.system_id == system)) [
          | inr b ↦ rw (h, a, b) tt
          | inl b ↦
              rw (h, a, b)
                (
                  subst (λ r. Found (find_by_id overlay_id id t.rows) r) h
                      (query_row-Found env (in_scope env scope) id t.rows),
                  (==_iff o.system_id system).0 b,
                )
        ]
      ]
    ]
