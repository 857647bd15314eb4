-- ===== src/Overlay.antt =====
-- internal/overlay: the properties that a system adds to an entity, and what is checked before they are written
-- (model.go, service.go).
pub mod Service
pub mod Owned
mod Logged
pub mod Effects
pub mod Managed
mod Tests
use oad.Base.{
  ℕ, Bool, true, false, not, ◌&&◌, ◌||◌, Option, none, some, List, [], ◌∷◌, ◌++◌, ◌==◌,
  if◌then◌else◌, Result, ok, err, ◌>>=◌, ◌>>◌, guard,
}
use oad.Errors.{
  ApiError, bad_request, validation_failed, forbidden, not_found, unprocessable, internal,
}
use oad.Scim.Text.{Text, text, same}
use oad.Scim.Json.{Json, Fields, null, obj, end, field}
use oad.Auth.{Identity}
use oad.Auth.Middleware.{cut_prefix}
use oad.Entity.{Entity}
use oad.Entity.Store.{Environment}
use oad.Table.{find_by_id}

-- PropertyOverlay, less its two times.
pub record PropertyOverlay : Type 0 where
  pub id : ℕ
  pub entity_id : ℕ
  pub system_id : ℕ
  pub properties : Json

-- The columns of an entity of type System that resolveCallerSystem reads.
pub record SystemRow : Type 0 where
  pub id : ℕ
  pub name : Option Text
  pub active : Option Bool

-- A row of system_overlay_schema, of which overlaySchema is a part.
pub record OverlaySchema : Type 0 where
  pub id : ℕ
  pub system_id : ℕ
  pub entity_type_id : ℕ
  pub allowed_overlay_properties : Json

-- What the service reads.
pub record Catalog : Type 0 where
  pub systems : List SystemRow
  pub entities : List Entity
  pub schemas : List OverlaySchema

-- strings.HasPrefix
unfoldable pub has_prefix : Text → Text → Bool
has_prefix s [] = true
has_prefix [] (p ∷ ps) = false
has_prefix (c ∷ s) (p ∷ ps) = (c == p) && has_prefix s ps

abbrev pub prefix_of : Text → Text
prefix_of name = name ++ (b'.' ∷ [])

-- The loop of validateNamespacePrefix: no key is a violation.
unfoldable pub all_prefixed : Text → Fields → Bool
unfolding has_prefix
all_prefixed prefix end = true
all_prefixed prefix (field k v fs) = has_prefix k prefix && all_prefixed prefix fs

-- validateNamespacePrefix
unfoldable pub validate_namespace_prefix : Json → Text → Result ApiError (Unit {0})
unfolding all_prefixed
validate_namespace_prefix (obj fs) name = guard (all_prefixed (prefix_of name) fs) validation_failed
validate_namespace_prefix null name = ok tt
validate_namespace_prefix _ name = err bad_request

-- The columns of the system that is found: COALESCE(active, true), and a name that may be NULL.
abbrev pub named_system : ℕ → Option Bool → Option Text → Result ApiError (ℕ × Text)
named_system s (some false) name = err forbidden
named_system s (some true) none = err internal
named_system s (some true) (some name) = ok (s, name)
named_system s none none = err internal
named_system s none (some name) = ok (s, name)

module _ (env : Environment) where
  -- resolveCallerSystem
  unfoldable pub resolve_caller_system : Identity → Catalog → Result ApiError (ℕ × Text)
  unfolding find_by_id
  resolve_caller_system caller cat = elim caller.active_system_id [
    | none ↦ err forbidden
    | some s ↦
        if env.reads_fail
        then err internal
        else elim (find_by_id (λ (r : SystemRow). r.id) s cat.systems) [
          | none ↦ err forbidden
          | some row ↦ named_system s row.active row.name
        ]
  ]

  -- resolveEntity: the type of the entity.
  unfoldable pub resolve_entity : ℕ → Catalog → Result ApiError ℕ
  unfolding find_by_id
  resolve_entity id cat =
      if env.reads_fail
      then err internal
      else elim (find_by_id (λ (e : Entity). e.id) id cat.entities) [
        | none ↦ err not_found
        | some e ↦ if env.pool_sees e.system_id then ok e.type_id else err not_found
      ]

-- The query of resolveOverlaySchema; there is one schema for a system and a type.
unfoldable find_schema : ℕ → ℕ → List OverlaySchema → Option OverlaySchema
find_schema system type [] = none
find_schema system type (s ∷ ss) =
    if (s.system_id == system) && (s.entity_type_id == type)
    then some s
    else find_schema system type ss

-- resolveOverlaySchema
unfoldable pub resolve_overlay_schema :
    Environment → ℕ → ℕ → Catalog → Result ApiError OverlaySchema
unfolding find_schema
resolve_overlay_schema env system type cat =
    if env.reads_fail
    then err internal
    else elim (find_schema system type cat.schemas) [ none ↦ err unprocessable | some s ↦ ok s ]

-- Compile and ValidateRaw of internal/validation, over the JSON Schema library: whether a schema compiles, and
-- the error that an instance gets.
module _ (compiles : Json → Bool) (validate : Json → Json → Option ApiError) where
  -- validateOverlayProperties
  unfoldable pub validate_overlay_properties : Json → Text → Json → Result ApiError (Unit {0})
  unfolding validate_namespace_prefix
  validate_overlay_properties props name schema = do
    validate_namespace_prefix props name
    guard (compiles schema) internal
    elim (validate props schema) [ none ↦ ok tt | some e ↦ err e ]

  -- What Create and Update check before their transactions: the caller's system and its name.
  unfoldable pub check_overlay :
      Environment → Identity → Catalog → ℕ → Json → Result ApiError (ℕ × Text)
  unfolding resolve_caller_system resolve_entity resolve_overlay_schema validate_overlay_properties
  check_overlay env caller cat entity props = do
    (system, name) ← resolve_caller_system env caller cat
    type ← resolve_entity env entity cat
    schema ← resolve_overlay_schema env system type cat
    _ ← validate_overlay_properties props name schema.allowed_overlay_properties
    ok (system, name)
