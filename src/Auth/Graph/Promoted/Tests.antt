-- ===== src/Auth/Graph/Promoted/Tests.antt =====
-- A run of Replace of internal/scim/groups/service.go, and who is resolved after it (internal/auth/resolver.go).
use oad.Base.{ℕ, ◌-◌, ◌≡◌, refl, Bool, true, false, Option, none, some, [], ◌∷◌, ◌↔◌, ◌⊎◌, ok}
use oad.Scim.Text.{Text, text, same}
use oad.Scim.Json.{Json, str}
use oad.Scim.Properties.{Properties, display_name_key}
use oad.Scim.Store.{EntityRow, Tables, Conditions, row_id}
use oad.Scim.Groups.Repository.{GroupInput, StoredGroup}
use oad.Scim.Groups.Service.{parse_member_ids, replace_group}
use oad.Auth.{Identity, resolve}
use oad.Auth.Graph.{Query, starts_with_scim, resolver_repository}
use oad.Auth.Graph.Promoted.{graph_of, Elsewhere, replace_group-resolve}
use oad.Scim.Groups.Members.{contains}
use mathlib.Core.List.Memᴰ
use oad.Table.{find_by_id}

abbrev open_conditions : Conditions
open_conditions = record {
  now = 9;
  reads_fail = false;
  writes_fail = false;
  audit_fails = false;
  commit_fails = false;
}

abbrev one_digit : Text → Option ℕ
one_digit (c ∷ []) = some (c - b'0')
one_digit _ = none

abbrev entity : ℕ → Text → Text → Properties → EntityRow
entity id type_name external_id properties = record {
  id = id;
  type_name = type_name;
  external_id = external_id;
  properties = properties;
  is_builtin = false;
  created_at = 0;
  updated_at = 0;
}

abbrev no_cast : Json → Option Bool
no_cast v = none

abbrev never : Query → Bool
never q = false

-- Ann and a group without members, both of the provider okta.
abbrev tables : Tables
tables = record {
  types = text "User" ∷ text "Group" ∷ [];
  entities =
      entity 1 (text "User") (text "scim:okta:u1") []
      ∷ entity 2 (text "Group") (text "scim:okta:g1") ((display_name_key, str (text "Staff")) ∷ [])
      ∷ [];
  links =
      record { entity_id = 1; provider_name = text "okta"; external_subject = text "ann" }
      ∷ record { entity_id = 2; provider_name = text "okta"; external_subject = text "g1" }
      ∷ [];
  memberships = [];
  audit_log = [];
  next_id = 10;
}

abbrev payload : GroupInput
payload = record { external_id = []; display_name = text "oad-admin"; members = text "1" ∷ [] }

abbrev after_put : Tables
after_put = (replace_group one_digit open_conditions (text "okta") 2 payload tables).1

abbrev stored_group : StoredGroup
stored_group = record {
  entity_id = 2;
  properties = (display_name_key, str (text "oad-admin")) ∷ [];
  external_subject = text "g1";
  members = record { entity_id = 1; type_name = text "User"; display = none } ∷ [];
}

put-payload :
    replace_group one_digit open_conditions (text "okta") 2 payload tables
    ≡ (ok stored_group, after_put)
unfolding replace_group
put-payload = refl

parsed-members : parse_member_ids one_digit payload.members ≡ ok (1 ∷ [])
unfolding parse_member_ids
parsed-members = refl

found-group :
    find_by_id row_id 2 after_put.entities
    ≡ some
        (record (entity 2
          (text "Group")
          (text "scim:okta:g1")
          ((display_name_key, str (text "oad-admin")) ∷ [])) { updated_at = 9 })
unfolding find_by_id replace_group
found-group = refl

scim_prefix : starts_with_scim (text "scim:okta:g1") ≡ true
unfolding starts_with_scim same
scim_prefix = refl

abbrev promoted_ann : Identity
promoted_ann = record {
  subject = text "ann";
  provider = text "okta";
  entity_id = 1;
  groups = text "oad:admin" ∷ [];
  allowed_systems = [];
  is_platform_admin = true;
  is_system_admin = false;
  active_system_id = none;
  auth_mode = text "jwt";
}

resolve-promoted_ann :
    resolve (resolver_repository no_cast never (graph_of after_put [])) (text "okta") (text "ann")
    ≡ ok promoted_ann
unfolding resolve resolver_repository replace_group
resolve-promoted_ann = refl

replace_group-resolve_example :
    (true ≡ true) ↔ ((contains (1 ∷ []) 1 ≡ true) ⊎ Elsewhere (graph_of after_put []) 2 1)
replace_group-resolve_example =
    replace_group-resolve one_digit open_conditions (text "okta") no_cast never []
      (λ r m. absurd (Memᴰ.not-nil m)) 2 payload tables after_put stored_group (1 ∷ []) _
      (text "okta") (text "ann") promoted_ann put-payload parsed-members refl found-group refl
      scim_prefix resolve-promoted_ann
