-- ===== src/Relation.antt =====
-- internal/relation: typed edges between entities, and what a type of entity allows (model.go, service.go,
-- repository.go).
pub mod Service
pub mod Graph
pub mod Declared
mod Tests
use oad.Base.{
  ℕ, Bool, true, false, not, ◌&&◌, Option, none, some, List, [], ◌∷◌, ◌==◌, if◌then◌else◌, Result,
  ok, err, ◌>>=◌, ◌>>◌, guard,
}
use oad.Errors.{ApiError, bad_request, internal}
use oad.Scim.Text.{Text, text, same}
use oad.Scim.Json.{Json, Items, Fields, null, str, arr, obj, nil, cons, end, field, names}

-- Relation, less the time of its creation; a UUID is a number, and uuid.Nil is 0.
pub record Relation : Type 0 where
  pub id : ℕ
  pub subject_entity_id : ℕ
  pub relation_type : Text
  pub target_entity_id : ℕ
  pub system_id : Option ℕ

-- CreateRequest
pub record RelationRequest : Type 0 where
  pub subject_entity_id : ℕ
  pub relation_type : Text
  pub target_entity_id : ℕ
  pub system_id : Option ℕ

-- subjectInfo, and the row of entity_type_definition that it is read from.
pub record TypeRow : Type 0 where
  pub id : ℕ
  pub type_name : Text
  pub allowed_relations : Json

-- json.Unmarshal into []string.
unfoldable decode_names : Items → Option (List Text)
decode_names nil = some []
decode_names (cons (str s) vs) = elim (decode_names vs) [ none ↦ none | some ss ↦ some (s ∷ ss) ]
decode_names (cons null vs) = elim (decode_names vs) [ none ↦ none | some ss ↦ some ([] ∷ ss) ]
decode_names (cons _ vs) = none

-- The field "target_types" of an allowedRelationEntry.
unfoldable target_names : Json → Option (List Text)
unfolding decode_names
target_names (arr vs) = decode_names vs
target_names null = some []
target_names _ = none

unfoldable entry_fields : Fields → List Text → Option (List Text)
unfolding target_names names
entry_fields end old = some old
entry_fields (field k v fs) old =
    if names k (text "target_types")
    then elim (target_names v) [ none ↦ none | some ts ↦ entry_fields fs ts ]
    else entry_fields fs old

-- json.Unmarshal into an allowedRelationEntry: its target types.
unfoldable decode_entry : Json → Option (List Text)
unfolding entry_fields
decode_entry (obj fs) = entry_fields fs []
decode_entry null = some []
decode_entry _ = none

unfoldable decode_relations : Fields → Option (List (Text × List Text))
unfolding decode_entry
decode_relations end = some []
decode_relations (field k v fs) = elim (decode_entry v) [
  | none ↦ none
  | some ts ↦ elim (decode_relations fs) [ none ↦ none | some rest ↦ some ((k, ts) ∷ rest) ]
]

-- allowedRelations[relationType]; of a key that is given twice the last value counts.
unfoldable find_entry : Text → List (Text × List Text) → Option (List Text)
unfolding same
find_entry name [] = none
find_entry name ((k, ts) ∷ rest) = elim (find_entry name rest) [
  | some found ↦ some found
  | none ↦ if same k name then some ts else none
]

unfoldable allowed_map : Json → Option (List (Text × List Text))
unfolding decode_relations
allowed_map (obj fs) = decode_relations fs
allowed_map null = some []
allowed_map _ = none

-- extractRelationEntry
unfoldable pub extract_relation_entry : TypeRow → Text → Result ApiError (List Text)
unfolding allowed_map find_entry
extract_relation_entry subject relation_type = elim (allowed_map subject.allowed_relations) [
  | none ↦ err internal
  | some entries ↦ elim (find_entry relation_type entries) [
    | none ↦ err bad_request
    | some targets ↦ ok targets
  ]
]

-- slices.Contains
unfoldable pub contains_text : List Text → Text → Bool
unfolding same
contains_text [] s = false
contains_text (t ∷ ts) s = if same t s then true else contains_text ts s

-- validateCreateRequest
unfoldable pub validate_relation_request : RelationRequest → Result ApiError (Unit {0})
unfolding same
validate_relation_request req = do
  guard (not (req.subject_entity_id == 0)) bad_request
  guard (not (same req.relation_type [])) bad_request
  guard (not (req.target_entity_id == 0)) bad_request
  guard (not (req.subject_entity_id == req.target_entity_id)) bad_request
