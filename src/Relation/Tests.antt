-- ===== src/Relation/Tests.antt =====
-- Runs of internal/relation.
use oad.Base.{ℕ, ◌≡◌, refl, true, false, none, [], ◌∷◌, err}
use oad.Errors.{bad_request, conflict}
use oad.Scim.Text.{Text, text}
use oad.Scim.Json.{null, str, arr, obj, nil, cons, end, field}
use oad.Auth.{Identity}
use oad.Entity.{Entity}
use oad.Entity.Store.{Environment}
use oad.Table.{Table}
use oad.Relation.{Relation, RelationRequest, TypeRow}
use oad.Relation.Service.{Directory, create_relation, remove_relation}
use oad.Relation.Declared.{IsGraph, Edited, Edited-IsGraph}

abbrev member_type : TypeRow
member_type = record {
  id = 1;
  type_name = text "user";
  allowed_relations = obj (
      field (text "member")
        (obj (field (text "target_types") (arr (cons (str (text "group")) nil)) end)) end);
}

abbrev group_type : TypeRow
group_type = record { id = 2; type_name = text "group"; allowed_relations = null }

abbrev thing : ℕ → ℕ → Entity
thing id type_id = record {
  id = id;
  type_id = type_id;
  type = [];
  external_id = [];
  properties = obj end;
  system_id = none;
}

abbrev directory : Directory
directory = record { entities = thing 7 1 ∷ thing 8 2 ∷ []; types = member_type ∷ group_type ∷ [] }

abbrev open_environment : Environment
open_environment = record {
  pool_sees = λ s. true;
  scope_sees = λ s t. true;
  reads_fail = false;
  writes_fail = false;
  audit_fails = false;
  commit_fails = false;
}

abbrev admin : Identity
admin = record {
  subject = text "root";
  provider = [];
  entity_id = 0;
  groups = [];
  allowed_systems = [];
  is_platform_admin = true;
  is_system_admin = false;
  active_system_id = none;
  auth_mode = [];
}

abbrev no_print : ℕ → Text
no_print n = []

abbrev joins : RelationRequest
joins = record {
  subject_entity_id = 7;
  relation_type = text "member";
  target_entity_id = 8;
  system_id = none;
}

abbrev empty_table : Table Relation
empty_table = record { rows = []; changes = []; next_id = 1 }

abbrev first_table : Table Relation
first_table = (create_relation no_print open_environment admin directory joins empty_table).1

-- The same edge again, and an edge in the other direction.
edges-refused :
    ((create_relation no_print open_environment admin directory joins first_table).0 ≡ err conflict)
    × ((create_relation no_print open_environment admin directory
          (record joins { subject_entity_id = 8; target_entity_id = 7 })
          first_table).0
        ≡ err bad_request)
unfolding create_relation
edges-refused = (refl, refl)

Edited-IsGraph_example :
    IsGraph directory
      (remove_relation no_print open_environment admin 4
        (create_relation no_print open_environment admin directory joins empty_table).1).1
Edited-IsGraph_example =
    Edited-IsGraph no_print directory empty_table (tt, tt) _
      (Edited.by_delete open_environment admin 4
        (Edited.by_create open_environment admin joins Edited.unchanged))
