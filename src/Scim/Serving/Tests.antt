-- ===== src/Scim/Serving/Tests.antt =====
-- Runs of internal/scim/users/service.go and internal/scim/groups/service.go.
use oad.Base.{ℕ, ◌≡◌, refl, true, false, Option, none, some, [], ◌∷◌, All, err}
use oad.Auth.Cache.{Cache, new_cache, store, cache_key}
use oad.Scim.Text.{Text, text, same}
use oad.Scim.Json.{str, bool, arr, obj, cons, nil, field, end}
use oad.Scim.Properties.{get_property, user_name_key, display_name_key, active_key}
use oad.Scim.Lexer.{next}
use oad.Scim.Filter.{parse}
use oad.Scim.Path.{parse_path, cut_unquoted}
use oad.Scim.Patch.{PatchOp}
use oad.Scim.Users.Mapper.{User}
use oad.Scim.Users.Service.{Server}
use oad.Scim.Users.Evicted.{Evicts, user_changes-Evict}
use oad.Scim.Users.Service.{replace_user, delete_user, patch_stored}
use oad.Scim.Groups.Repository.{GroupInput}
use oad.Scim.Groups.Service.{replace_group, parse_member_ids}
use oad.Scim.Groups.Service as GroupService
use oad.Scim.Groups.Replaced.{
  IsChanged, ByPayload, ByPatch, replace_group-IsChanged, patch_stored-IsChanged,
}
use oad.Scim.Store.{
  EntityRow, ExternalIdentity, MemberOf, Tables, Conditions, row_id, find_subject, invalid_member,
}
use oad.Scim.Store.Settled.{Settled}
use oad.Scim.Effects.{Fits}
use oad.Scim.Serving.{user_replace, user_delete, perform, begun, called, scim-isolated, Served-Fits}
use oad.Table.{find_by_id}

abbrev float_text : Text → Option Text
float_text s = some s

-- A UUID of one character.
abbrev parse_sample : Text → Option ℕ
parse_sample (c ∷ []) = some c
parse_sample _ = none

abbrev open_conditions : Conditions
open_conditions = record {
  now = 9;
  reads_fail = false;
  writes_fail = false;
  audit_fails = false;
  commit_fails = false;
}

abbrev okta : Text
okta = text "okta"

abbrev user_row : ℕ → Text → EntityRow
user_row id name = record {
  id = id;
  type_name = text "User";
  external_id = name;
  properties = (user_name_key, str name) ∷ (active_key, bool true) ∷ [];
  is_builtin = false;
  created_at = 0;
  updated_at = 0;
}

abbrev group_row : EntityRow
group_row = record {
  id = b'g';
  type_name = text "Group";
  external_id = text "scim:okta:g";
  properties = (display_name_key, str (text "Staff")) ∷ [];
  is_builtin = false;
  created_at = 0;
  updated_at = 0;
}

abbrev link : ℕ → Text → ExternalIdentity
link id subject = record { entity_id = id; provider_name = okta; external_subject = subject }

abbrev membership : ℕ → ℕ → MemberOf
membership x at = record { subject_entity_id = x; target_entity_id = b'g'; created_at = at }

-- Users a, b and c, of whom okta links a and b, and a group g of a.
abbrev tables : Tables
tables = record {
  types = text "User" ∷ text "Group" ∷ [];
  entities =
      user_row b'a' (text "ann")
      ∷ user_row b'b' (text "bob")
      ∷ user_row b'c' (text "cid")
      ∷ group_row
      ∷ [];
  links = link b'a' (text "a") ∷ link b'b' (text "b") ∷ link b'g' (text "g") ∷ [];
  memberships = membership b'a' 4 ∷ [];
  audit_log = [];
  next_id = 1000;
}

abbrev payload : GroupInput
payload = record {
  external_id = [];
  display_name = text "Team";
  members = text "b" ∷ text "a" ∷ [];
}

abbrev foreign_payload : GroupInput
foreign_payload = record payload { members = text "c" ∷ [] }

-- b joins at 9, and a stays since 4.
put-members :
    (replace_group parse_sample open_conditions okta b'g' payload tables).1.memberships
    ≡ membership b'a' 4 ∷ membership b'b' 9 ∷ []
unfolding replace_group
put-members = refl

-- A member that okta does not link is refused.
foreign-member :
    replace_group parse_sample open_conditions okta b'g' foreign_payload tables
    ≡ (err invalid_member, tables)
unfolding replace_group
foreign-member = refl

replace_group-IsChanged_example :
    Settled
      (IsChanged (ByPayload parse_sample payload) open_conditions okta b'g' tables)
      tables
      (replace_group parse_sample open_conditions okta b'g' payload tables)
replace_group-IsChanged_example =
    replace_group-IsChanged parse_sample open_conditions okta b'g' payload tables

abbrev add_b : PatchOp
add_b = record {
  op = text "add";
  path = text "members";
  value = some (arr (cons (obj (field (text "value") (str (text "b")) end)) nil));
}

patch-members :
    (GroupService.patch_stored parse_sample open_conditions okta float_text b'g'
      (add_b ∷ [])
      tables).1.memberships
    ≡ membership b'a' 4 ∷ membership b'b' 9 ∷ []
unfolding GroupService.patch_stored parse_path parse next cut_unquoted
patch-members = refl

patch_stored-IsChanged_example :
    Settled
      (IsChanged
        (ByPatch parse_sample open_conditions okta float_text (add_b ∷ []))
        open_conditions
        okta
        b'g'
        tables)
      tables
      (GroupService.patch_stored parse_sample open_conditions okta float_text b'g'
        (add_b ∷ [])
        tables)
patch_stored-IsChanged_example =
    patch_stored-IsChanged parse_sample open_conditions okta float_text b'g' add_b [] tables

-- The cache holds an identity of a.
abbrev cached : Cache
cached = store 5 60 (cache_key okta (text "a")) 0 1 new_cache

abbrev server : Server
server = record { tables = tables; cache = some cached }

abbrev sample_user : User
sample_user = record {
  user_name = text "anna";
  display_name = [];
  name = none;
  emails = [];
  active = none;
}

abbrev deactivate : PatchOp
deactivate = record { op = text "replace"; path = text "active"; value = some (bool false) }

user_changes-Evict_example :
    Evicts okta b'a' server (replace_user open_conditions okta b'a' sample_user server)
    × Evicts okta b'a' server
        (patch_stored open_conditions okta float_text b'a' (deactivate ∷ []) server)
    × Evicts okta b'a' server (delete_user open_conditions okta b'a' server)
user_changes-Evict_example =
    user_changes-Evict open_conditions okta float_text b'a' sample_user deactivate [] server

-- okta does not link c.
unlinked-c : find_subject b'c' okta tables.links ≡ none
unfolding find_subject
unlinked-c = refl

stored-c : find_by_id row_id b'c' tables.entities ≡ some (user_row b'c' (text "cid"))
unfolding find_by_id
stored-c = refl

scim-isolated_example :
    find_by_id row_id b'c'
      (perform parse_sample float_text open_conditions okta
        (user_delete b'c')
        server).tables.entities
    ≡ some (user_row b'c' (text "cid"))
scim-isolated_example =
    scim-isolated parse_sample float_text open_conditions okta (user_delete b'c') server b'c'
      (user_row b'c' (text "cid")) unlinked-c stored-c

tables-Fits : All Fits tables.entities
unfolding get_property same
tables-Fits = (
  (λ h. ((text "ann", refl), (true, refl))),
  (
    (λ h. ((text "bob", refl), (true, refl))),
    ((λ h. ((text "cid", refl), (true, refl))), ((λ h. cc), tt)),
  ),
)

abbrev served : Server
served = perform parse_sample float_text open_conditions okta (user_replace b'a' sample_user) server

Served-Fits_example : All Fits served.tables.entities
Served-Fits_example =
    Served-Fits parse_sample float_text server served tables-Fits
      (called open_conditions okta (user_replace b'a' sample_user) begun)
