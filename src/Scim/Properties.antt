-- ===== src/Scim/Properties.antt =====
-- entity.properties as the SCIM packages hold it: a decoded JSONB document, map[string]any in
-- internal/scim/users and internal/scim/groups.
use oad.Base.{
  ◌≡◌, refl, true, false, Option, none, some, List, [], ◌∷◌, if◌then◌else◌, Bool-cases, inl, inr,
}
use oad.Scim.Text.{Text, text, same, same→eq, same_refl}
use oad.Scim.Json.{Json}

-- The keys with their values.
abbrev pub Properties : Type 0
Properties = List (Text × Json)

unfoldable pub set_property : Text → Json → Properties → Properties
unfolding same
set_property k v [] = (k, v) ∷ []
set_property k v ((j, w) ∷ ps) = if same j k then (j, v) ∷ ps else (j, w) ∷ set_property k v ps

unfoldable pub get_property : Text → Properties → Option Json
unfolding same
get_property k [] = none
get_property k ((j, w) ∷ ps) = if same j k then some w else get_property k ps

-- delete(props, k)
unfoldable pub delete_property : Text → Properties → Properties
unfolding same
delete_property k [] = []
delete_property k ((j, w) ∷ ps) =
    if same j k then delete_property k ps else (j, w) ∷ delete_property k ps

abbrev pub user_name_key : Text
user_name_key = text "userName"

abbrev pub display_name_key : Text
display_name_key = text "displayName"

abbrev pub email_key : Text
email_key = text "email"

abbrev pub active_key : Text
active_key = text "active"

pub get_property-set_property :
    (k : Text) (v : Json) (ps : Properties) → get_property k (set_property k v ps) ≡ some v
unfolding get_property set_property
get_property-set_property k v [] = rw (same_refl k) refl
get_property-set_property k v ((j, w) ∷ ps) = elim (Bool-cases (same j k)) [
  | inl e ↦ rw (e, e) refl
  | inr e ↦ rw (e, e) (get_property-set_property k v ps)
]

same-differs : (j k i : Text) → same j k ≡ true → same k i ≡ false → same j i ≡ false
same-differs j k i e d = rw (same→eq j k e) d

pub get_property-set_property_other :
    (i k : Text) (v : Json) (ps : Properties)
    → same k i ≡ false
    → get_property i (set_property k v ps) ≡ get_property i ps
unfolding get_property set_property
get_property-set_property_other i k v [] d = rw d refl
get_property-set_property_other i k v ((j, w) ∷ ps) d = elim (Bool-cases (same j k)) [
  | inl e ↦ rw (e, same-differs j k i e d) refl
  | inr e ↦ elim (Bool-cases (same j i)) [
    | inl h ↦ rw (e, h) refl
    | inr h ↦ rw (e, h) (get_property-set_property_other i k v ps d)
  ]
]

get_property-delete_property :
    (k : Text) (ps : Properties) → get_property k (delete_property k ps) ≡ none
unfolding get_property delete_property
get_property-delete_property k [] = refl
get_property-delete_property k ((j, w) ∷ ps) = elim (Bool-cases (same j k)) [
  | inl e ↦ rw e (get_property-delete_property k ps)
  | inr e ↦ rw (e, e) (get_property-delete_property k ps)
]

pub get_property-delete_property_other :
    (i k : Text) (ps : Properties)
    → same k i ≡ false
    → get_property i (delete_property k ps) ≡ get_property i ps
unfolding get_property delete_property
get_property-delete_property_other i k [] d = refl
get_property-delete_property_other i k ((j, w) ∷ ps) d = elim (Bool-cases (same j k)) [
  | inl e ↦ rw (e, same-differs j k i e d) (get_property-delete_property_other i k ps d)
  | inr e ↦ elim (Bool-cases (same j i)) [
    | inl h ↦ rw (e, h) refl
    | inr h ↦ rw (e, h) (get_property-delete_property_other i k ps d)
  ]
]
