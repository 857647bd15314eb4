-- ===== src/Retrieval/Tests.antt =====
-- Runs of internal/retrieval.
use oad.Base.{ℕ, ◌≡◌, refl, true, false, Option, none, some, [], ◌∷◌, err}
use oad.Errors.{forbidden}
use oad.Scim.Text.{text, same}
use oad.Scim.Json.{null, str, number, obj, end, field}
use oad.Scim.Properties.{Properties, get_property}
use oad.Overlay.{has_prefix}
use oad.Auth.{Identity}
use oad.Config.Numbers.{pos}
use oad.Entity.Store.{Environment}
use oad.Relation.{Relation}
use oad.Retrieval.{encoded, document, panic, merge_json}
use oad.Retrieval.Nested.{Overlaid}
use oad.Retrieval.Merged.{merge_json-Overlaid}
use oad.Retrieval.Service.{Tables, answered, lookup_entity, list_changelog, export_entities}
use oad.Retrieval.Scoped.{Looked, Listed, Exported, retrieval-Within}

abbrev base : Properties
base = (text "email", str (text "a")) ∷ (text "credit", obj (field (text "id") null end)) ∷ []

abbrev limit_entry : Properties
limit_entry = (text "credit.limit", number (text "5")) ∷ []

-- The example of the comment of mergeJSON, with an object under the name.
merged :
    merge_json (obj (encoded base)) (obj (encoded limit_entry))
    ≡ document (
        obj (
          field (text "email") (str (text "a")) (
            field
              (text "credit")
              (obj (field (text "id") null (field (text "limit") (number (text "5")) end)))
              end)))
unfolding merge_json
merged = refl

-- A property that is null under the name of a system.
null-panics : merge_json (obj (field (text "credit") null end)) (obj (encoded limit_entry)) ≡ panic
unfolding merge_json
null-panics = refl

merge_json-Overlaid_example :
    Overlaid
      (text "credit")
      base
      limit_entry
      (merge_json (obj (encoded base)) (obj (encoded limit_entry)))
unfolding same has_prefix get_property
merge_json-Overlaid_example =
    merge_json-Overlaid (text "credit") (refl, refl) base [] (text "credit.limit")
      (number (text "5")) (refl, tt) (refl, tt)

abbrev open_environment : Environment
open_environment = record {
  pool_sees = λ s. true;
  scope_sees = λ s t. true;
  reads_fail = false;
  writes_fail = false;
  audit_fails = false;
  commit_fails = false;
}

abbrev caller : Identity
caller = record {
  subject = text "pdp";
  provider = [];
  entity_id = 0;
  groups = [];
  allowed_systems = 5 ∷ [];
  is_platform_admin = false;
  is_system_admin = false;
  active_system_id = some 5;
  auth_mode = [];
}

abbrev edge : ℕ → Option ℕ → Relation
edge id system = record {
  id = id;
  subject_entity_id = 7;
  relation_type = text "member";
  target_entity_id = 8;
  system_id = system;
}

abbrev tables : Tables
tables = record {
  entities =
      record {
        id = 7;
        type_id = 1;
        type = text "user";
        external_id = text "ann";
        properties = obj end;
        system_id = none;
      }
      ∷ [];
  relations = edge 1 none ∷ edge 2 (some 5) ∷ edge 3 (some 6) ∷ [];
  overlays = [];
  audit_log = [];
  retrieval_log = [];
}

other-forbidden :
    (lookup_entity open_environment caller (text "user") (text "ann") (some 6) tables).0
    ≡ answered (err forbidden)
unfolding lookup_entity
other-forbidden = refl

retrieval-Within_example :
    Looked 5 (lookup_entity open_environment caller (text "user") (text "ann") (some 5) tables).0
    × Listed 5 (list_changelog open_environment caller 0 (some 5) (pos 10) 0 tables)
    × Exported 5 (export_entities open_environment caller (text "user") none (pos 10) 0 tables)
retrieval-Within_example =
    retrieval-Within open_environment caller 5 refl (text "user") (text "ann") (some 5) 0 (pos 10) 0
      tables refl
