-- ===== src/Overlay/Managed.antt =====
-- What holds of the overlays that the service manages (internal/overlay/service.go).
use oad.Base.{
  ==_iff, ℕ, ◌≡◌, refl, sym, ap, ◌∙◌, subst, Bool, false, Option, some, List, [], ◌∷◌, All,
  All-append, arith, ◌==◌, Bool-cases, inl, inr,
}
use oad.Errors.{ApiError}
use oad.Scim.Text.{Text}
use oad.Scim.Json.{Json}
use oad.Auth.{Identity}
use oad.Entity.Store.{Environment}
use oad.Table.{Table, find_by_id}
use oad.Table.Rows.{
  NoDouble, NoDouble-append, NoDouble-remove, NoDouble-put, All-remove, All-put, find_by_id-append,
  find_by_id-put, find_by_id-remove,
}
use oad.Overlay.{PropertyOverlay, Catalog}
use oad.Overlay.Service.{same_place, overlay_id, create_overlay, change_overlay, remove_overlay}
use oad.Overlay.Owned.{Named, Effect, kept, added, changed, removed}
use oad.Overlay.Effects.{Acts, create_overlay-Acts, change_overlay-Acts, remove_overlay-Acts}

same_place_comm : (o p : PropertyOverlay) → same_place o p ≡ same_place p o
same_place_comm o p = ground arith

-- An overlay under the name of its system, and one overlay for an entity and a system.
abbrev pub IsManaged : Catalog → List PropertyOverlay → Type 0
IsManaged cat rows = All (λ o. Named cat o.system_id o.properties) rows × NoDouble same_place rows

Effect-IsManaged :
    (cat : Catalog) (s : ℕ) (rows rows' : List PropertyOverlay)
    → Effect cat s rows rows'
    → IsManaged cat rows
    → IsManaged cat rows'
Effect-IsManaged cat s rows _ kept g = g
Effect-IsManaged cat s rows _ (added o own named alone) (all, none_double) = (
  All-append (λ o. Named cat o.system_id o.properties) rows (o ∷ []) all
      (subst (λ n. Named cat n o.properties) (sym own) named, tt),
  NoDouble-append overlay_id same_place same_place_comm o rows none_double alone,
)
Effect-IsManaged cat s rows _ (changed o props own found named) (all, none_double) = (
  All-put overlay_id (λ o. Named cat o.system_id o.properties) (record o { properties = props })
      rows (subst (λ n. Named cat n props) (sym own) named) all,
  NoDouble-put overlay_id same_place same_place_comm (record o { properties = props }) o (λ r. refl)
      rows found none_double,
)
Effect-IsManaged cat s rows _ (removed o own found) (all, none_double) = (
  All-remove overlay_id (λ o. Named cat o.system_id o.properties) o.id rows all,
  NoDouble-remove overlay_id same_place same_place_comm o.id rows none_double,
)

-- What a caller owns is no row of another system.
other :
    (s id : ℕ) (rows : List PropertyOverlay) (o row : PropertyOverlay)
    → o.system_id ≡ s
    → find_by_id overlay_id o.id rows ≡ some o
    → (row.system_id == s) ≡ false
    → find_by_id overlay_id id rows ≡ some row
    → (o.id == id) ≡ false
other s id rows o row own found foreign there = elim (Bool-cases (o.id == id)) [
  | inr d ↦ d
  | inl e ↦
      let found' : find_by_id overlay_id id rows ≡ some o =
        subst (λ n. find_by_id overlay_id n rows ≡ some o) ((==_iff o.id id).0 e) found in
      let same_row : row ≡ o = some_injective (sym there ∙ found') in
      let own' : row.system_id ≡ s = ap (λ (p : PropertyOverlay). p.system_id) same_row ∙ own in
      cc ((==_iff row.system_id s).1 own', foreign)
]
  where
    some_injective : {a b : PropertyOverlay} → some a ≡ some b → a ≡ b
    some_injective h = cc

-- An overlay of another system stays as it is.
Effect-foreign :
    (cat : Catalog) (s : ℕ) (rows rows' : List PropertyOverlay) (id : ℕ) (row : PropertyOverlay)
    → Effect cat s rows rows'
    → (row.system_id == s) ≡ false
    → find_by_id overlay_id id rows ≡ some row
    → find_by_id overlay_id id rows' ≡ some row
Effect-foreign cat s rows _ id row kept foreign there = there
Effect-foreign cat s rows _ id row (added o own named alone) foreign there =
    find_by_id-append overlay_id id rows (o ∷ []) row there
Effect-foreign cat s rows _ id row (changed o props own found named) foreign there =
    find_by_id-put overlay_id id (record o { properties = props }) rows
      (other s id rows o row own found foreign there)
    ∙ there
Effect-foreign cat s rows _ id row (removed o own found) foreign there =
    find_by_id-remove overlay_id id o.id rows (other s id rows o row own found foreign there)
    ∙ there

module _ (print_uuid : ℕ → Text) (compiles : Json → Bool) (validate : Json → Json → Option ApiError)
    (cat : Catalog) where
  -- The tables that the service gets to by the calls of any callers, whatever fails meanwhile.
  pub data Curated (start : Table PropertyOverlay) : Table PropertyOverlay → Type 0 where
    unchanged : Curated start start
    by_create :
        {t : Table PropertyOverlay} (env : Environment) (caller : Identity) (entity : ℕ)
        (props : Option Json)
        → Curated start t
        → Curated start
            (create_overlay print_uuid compiles validate env caller cat entity props t).1
    by_update :
        {t : Table PropertyOverlay} (env : Environment) (caller : Identity) (entity id : ℕ)
        (props : Option Json)
        → Curated start t
        → Curated start
            (change_overlay print_uuid compiles validate env caller cat entity id props t).1
    by_delete :
        {t : Table PropertyOverlay} (env : Environment) (caller : Identity) (entity id : ℕ)
        → Curated start t
        → Curated start (remove_overlay print_uuid env caller cat entity id t).1

  Acts-IsManaged :
      (caller : Identity) (t t' : Table PropertyOverlay)
      → Acts compiles validate caller cat t t'
      → IsManaged cat t.rows
      → IsManaged cat t'.rows
  Acts-IsManaged caller t t' (inl same_rows) g = subst (IsManaged cat) (sym same_rows) g
  Acts-IsManaged caller t t' (inr (s, active, effect)) g =
      Effect-IsManaged cat s t.rows t'.rows effect g

  -- While the systems keep their names, every overlay that the service comes to store, whoever calls it and
  -- whatever fails, has only top-level keys that begin with the name of its system and a dot, and there are
  -- no two overlays of one system for one entity.
  pub Curated-IsManaged :
      (start t : Table PropertyOverlay)
      → IsManaged cat start.rows
      → Curated start t
      → IsManaged cat t.rows
  Curated-IsManaged start _ g unchanged = g
  Curated-IsManaged start _ g (by_create {t} env caller entity props h) =
      Acts-IsManaged caller t
        (create_overlay print_uuid compiles validate env caller cat entity props t).1
        (create_overlay-Acts compiles validate print_uuid env caller cat entity props t)
        (Curated-IsManaged start t g h)
  Curated-IsManaged start _ g (by_update {t} env caller entity id props h) =
      Acts-IsManaged caller t
        (change_overlay print_uuid compiles validate env caller cat entity id props t).1
        (change_overlay-Acts compiles validate print_uuid env caller cat entity id props t)
        (Curated-IsManaged start t g h)
  Curated-IsManaged start _ g (by_delete {t} env caller entity id h) =
      Acts-IsManaged caller t (remove_overlay print_uuid env caller cat entity id t).1
        (remove_overlay-Acts compiles validate print_uuid env caller cat entity id t)
        (Curated-IsManaged start t g h)

  module _ (env : Environment) (caller : Identity) (id : ℕ) (row : PropertyOverlay)
      (foreign : (s : ℕ) → caller.active_system_id ≡ some s → (row.system_id == s) ≡ false) where
    Acts-foreign :
        (t t' : Table PropertyOverlay)
        → Acts compiles validate caller cat t t'
        → find_by_id overlay_id id t.rows ≡ some row
        → find_by_id overlay_id id t'.rows ≡ some row
    Acts-foreign t t' (inl same_rows) there =
        subst (λ rs. find_by_id overlay_id id rs ≡ some row) (sym same_rows) there
    Acts-foreign t t' (inr (s, active, effect)) there =
        Effect-foreign cat s t.rows t'.rows id row effect (foreign s active) there

    -- An overlay is created, changed and deleted by callers whose active system is its own alone: one with
    -- another active system, or with none, leaves it as it is, platform admins included.
    pub overlay-isolated :
        (entity target : ℕ) (props : Option Json) (t : Table PropertyOverlay)
        → find_by_id overlay_id id t.rows ≡ some row
        → (find_by_id overlay_id id
              (create_overlay print_uuid compiles validate env caller cat entity props t).1.rows
            ≡ some row)
          × (find_by_id overlay_id id
                (change_overlay print_uuid compiles validate env caller cat entity target props
                  t).1.rows
              ≡ some row)
          × (find_by_id overlay_id id
                (remove_overlay print_uuid env caller cat entity target t).1.rows
              ≡ some row)
    overlay-isolated entity target props t there = (
      Acts-foreign t (create_overlay print_uuid compiles validate env caller cat entity props t).1
          (create_overlay-Acts compiles validate print_uuid env caller cat entity props t) there,
      Acts-foreign t
          (change_overlay print_uuid compiles validate env caller cat entity target props t).1
          (change_overlay-Acts compiles validate print_uuid env caller cat entity target props t)
          there,
      Acts-foreign t (remove_overlay print_uuid env caller cat entity target t).1
          (remove_overlay-Acts compiles validate print_uuid env caller cat entity target t) there,
    )
