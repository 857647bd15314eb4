-- ===== src/Entity.antt =====
-- internal/entity: the entities, the requests, and the checks before anything is written (model.go, service.go).
pub mod Store
pub mod Service
pub mod Steps
pub mod Audited
pub mod Isolated
pub mod Bulk
pub mod Created
mod Tests
use oad.Base.{
  ℕ, Bool, true, false, not, ◌&&◌, Option, none, some, List, [], ◌∷◌, ◌==◌, if◌then◌else◌, Result,
  ok, err, ◌>>=◌, ◌>>◌, guard,
}
use oad.Errors.{ApiError, bad_request, forbidden, internal}
use oad.Scim.Text.{Text, text, same}
use oad.Scim.Json.{Json, obj, end}
use oad.Auth.{Identity}

-- Entity, less its two times, which the database sets; a UUID is a number.
pub record Entity : Type 0 where
  pub id : ℕ
  pub type_id : ℕ
  pub type : Text
  pub external_id : Text
  pub properties : Json
  pub system_id : Option ℕ

-- CreateRequest
pub record CreateRequest : Type 0 where
  pub type : Text
  pub external_id : Text
  pub properties : Option Json
  pub system_id : Option ℕ

-- entityTypeDef
pub record EntityTypeDef : Type 0 where
  pub id : ℕ
  pub type_name : Text
  pub allowed_properties : Json
  pub scope : Text

-- validateCreateRequest
unfoldable pub validate_create_request : CreateRequest → Result ApiError (Unit {0})
unfolding same
validate_create_request req =
    guard (not (same req.type [])) bad_request >> guard (not (same req.external_id [])) bad_request

-- resolveEffectiveSystemID, for a caller that is in the context.
unfoldable pub resolve_effective_system_id : Identity → Option ℕ → Result ApiError (Option ℕ)
resolve_effective_system_id caller requested = elim caller.active_system_id [
  | none ↦ ok requested
  | some own ↦ elim requested [
    | none ↦ ok (some own)
    | some other ↦ if other == own then ok (some own) else err forbidden
  ]
]

abbrev pub is_given : Option ℕ → Bool
is_given none = false
is_given (some n) = true

-- validateScopeConstraints
unfoldable pub validate_scope_constraints : EntityTypeDef → Option ℕ → Result ApiError (Unit {0})
unfolding same
validate_scope_constraints def system =
    guard (not (same def.scope (text "system_scoped") && not (is_given system))) bad_request
    >> guard (not (same def.scope (text "global") && is_given system)) bad_request

-- The query of resolveType; a type name is unique.
unfoldable pub find_type : Text → List EntityTypeDef → Option EntityTypeDef
unfolding same
find_type name [] = none
find_type name (t ∷ ts) = if same t.type_name name then some t else find_type name ts

unfoldable pub resolve_type : Bool → Text → List EntityTypeDef → Result ApiError EntityTypeDef
unfolding find_type
resolve_type fails name types =
    if fails
    then err internal
    else elim (find_type name types) [ none ↦ err bad_request | some t ↦ ok t ]

abbrev empty_object : Json
empty_object = obj end

abbrev pub properties_or_empty : Option Json → Json
properties_or_empty none = empty_object
properties_or_empty (some props) = props

-- validateProperties, of the JSON Schema library: nothing, or the error that is answered.
module _ (validate : Json → Json → Option ApiError) where
  unfoldable pub validate_properties : Json → Json → Result ApiError (Unit {0})
  validate_properties props schema = elim (validate props schema) [ none ↦ ok tt | some e ↦ err e ]

  -- Create, up to its transaction; the identifier is given by the database. createOrUpdate makes the same checks.
  unfoldable pub prepare :
      Bool → Identity → List EntityTypeDef → CreateRequest → Result ApiError Entity
  unfolding validate_create_request resolve_type resolve_effective_system_id
      validate_scope_constraints validate_properties
  prepare fails caller types req = do
    validate_create_request req
    def ← resolve_type fails req.type types
    system ← resolve_effective_system_id caller req.system_id
    validate_scope_constraints def system
    validate_properties (properties_or_empty req.properties) def.allowed_properties
    ok (record {
      id = 0;
      type_id = def.id;
      type = def.type_name;
      external_id = req.external_id;
      properties = properties_or_empty req.properties;
      system_id = system;
    })
