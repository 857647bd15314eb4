-- ===== src/Entity/Tests.antt =====
-- Runs of internal/entity/service.go.
use oad.Base.{
  ℕ, ◌+◌, ◌≡◌, refl, Bool, true, false, Option, none, some, List, [], ◌∷◌, ◌==◌, ok, err,
}
use oad.Errors.{ApiError, bad_request}
use oad.Scim.Text.{Text, text}
use oad.Scim.Json.{Json, obj, end}
use oad.Auth.{Identity}
use oad.Entity.{Entity, CreateRequest, EntityTypeDef}
use oad.Entity.Store.{Database, Environment, find_row}
use oad.Entity.Service.{BulkResult, create, update, delete, bulk_create}
use oad.Entity.Audited.{Served, Audited, Served-Audited}
use oad.Entity.Isolated.{Lawful, service-isolated}
use oad.Entity.Created.{IsAdmitted, IsNew, create-IsAdmitted}

-- Everything is valid.
abbrev accept : Json → Json → Option ApiError
accept props schema = none

abbrev show_uuid : ℕ → Text
show_uuid n = (48 + n) ∷ []

abbrev sees_own : Option ℕ → Option ℕ → Bool
sees_own none row = true
sees_own (some s) none = true
sees_own (some s) (some t) = s == t

abbrev healthy : Environment
healthy = record {
  pool_sees = λ row. true;
  scope_sees = sees_own;
  reads_fail = false;
  writes_fail = false;
  audit_fails = false;
  commit_fails = false;
}

-- An editor who works in the system 5.
abbrev editor : Identity
editor = record {
  subject = text "ann";
  provider = text "idp";
  entity_id = 3;
  groups = text "oad:editor" ∷ [];
  allowed_systems = 5 ∷ [];
  is_platform_admin = false;
  is_system_admin = false;
  active_system_id = some 5;
  auth_mode = text "jwt";
}

abbrev doc_type : EntityTypeDef
doc_type = record {
  id = 1;
  type_name = text "doc";
  allowed_properties = obj end;
  scope = text "system_scoped";
}

-- A document of the system 7.
abbrev foreign : Entity
foreign = record {
  id = 8;
  type_id = 1;
  type = text "doc";
  external_id = text "a";
  properties = obj end;
  system_id = some 7;
}

abbrev sample_db : Database
sample_db = record { entities = foreign ∷ []; types = doc_type ∷ []; audit_log = []; next_id = 9 }

abbrev new_doc : CreateRequest
new_doc = record { type = text "doc"; external_id = text "b"; properties = none; system_id = none }

abbrev made : Entity
made = record {
  id = 9;
  type_id = 1;
  type = text "doc";
  external_id = text "b";
  properties = obj end;
  system_id = some 5;
}

abbrev db_with_doc : Database
db_with_doc = (create accept show_uuid healthy editor new_doc sample_db).1

sample-create : create accept show_uuid healthy editor new_doc sample_db ≡ (ok made, db_with_doc)
unfolding create
sample-create = refl

create-IsAdmitted_example :
    IsAdmitted accept editor (doc_type ∷ []) new_doc made × IsNew sample_db db_with_doc made
create-IsAdmitted_example =
    create-IsAdmitted accept show_uuid healthy editor new_doc made sample_db db_with_doc
      sample-create

-- A request without an identifier.
abbrev nameless : CreateRequest
nameless = record new_doc { external_id = [] }

nameless-create :
    create accept show_uuid healthy editor nameless sample_db
    ≡ (err bad_request, (create accept show_uuid healthy editor nameless sample_db).1)
unfolding create
nameless-create = refl

-- A document is created, and then deleted.
abbrev db_after : Database
db_after = (delete accept show_uuid healthy editor 9 db_with_doc).1

Served-Audited_example : Audited sample_db db_after
Served-Audited_example =
    Served-Audited accept show_uuid sample_db db_after
      (Served.by_delete healthy editor 9 (Served.by_create healthy editor new_doc Served.unchanged))

sample-Lawful : (i : ℕ) → Lawful 5 healthy
sample-Lawful i t = refl

foreign-found : find_row 8 sample_db.entities ≡ some foreign
unfolding find_row
foreign-found = refl

service-isolated_example :
    (find_row 8 (create accept show_uuid healthy editor new_doc sample_db).1.entities
      ≡ some foreign)
    × (find_row 8 (update accept show_uuid healthy editor 8 (some (obj end)) sample_db).1.entities
        ≡ some foreign)
    × (find_row 8 (delete accept show_uuid healthy editor 8 sample_db).1.entities ≡ some foreign)
    × (find_row 8
          (bulk_create accept show_uuid
            (λ i. healthy)
            editor
            (text "upsert")
            (new_doc ∷ [])
            sample_db).1.entities
        ≡ some foreign)
service-isolated_example =
    service-isolated accept show_uuid editor 5 refl 8 foreign 7 refl refl (λ i. healthy) new_doc 8
      (some (obj end)) (text "upsert") (new_doc ∷ []) sample_db sample-Lawful foreign-found

abbrev batch : List CreateRequest
batch = new_doc ∷ nameless ∷ []

abbrev batch_result : BulkResult
batch_result = record { total = 2; created = 1; updated = 0; errors = (1, bad_request) ∷ [] }

abbrev db_with_batch : Database
db_with_batch = (bulk_create accept show_uuid (λ i. healthy) editor [] batch sample_db).1

sample-bulk_create :
    bulk_create accept show_uuid (λ i. healthy) editor [] batch sample_db
    ≡ (ok batch_result, db_with_batch)
unfolding bulk_create
sample-bulk_create = refl
