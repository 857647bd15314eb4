-- ===== src/Scim/Groups.antt =====
-- internal/scim/groups/patch.go: PATCH on groups. A UUID is a number.
pub mod Members
pub mod Laws
pub mod Membership
pub mod Repository
pub mod Service
pub mod Changes
pub mod Joined
pub mod Reconciled
pub mod Rewritten
pub mod Replaced
mod Patching
mod Tests
use oad.Base.{
  ℕ, ◌+◌, Bool, true, false, not, ◌&&◌, ◌||◌, Option, none, some, List, [], ◌∷◌, ◌++◌, ◌==◌,
  if◌then◌else◌, Result, ok, err, ◌>>=◌,
}
use oad.Scim.Text.{Text, text, same}
use oad.Scim.Lexer.{CompareOp, eq}
use oad.Scim.Filter.{Value, Expr, compare}
use oad.Scim.Json.{
  Json, Items, Fields, null, str, arr, obj, nil, cons, end, field, as_string, names, string_field,
}
use oad.Scim.Path.{AttrPath}
use oad.Scim.Properties.{Properties, set_property, display_name_key}
use oad.Scim.Patch.{PatchOp, PatchFault, no_target, invalid_value, PatchError, set_at, apply_patch}
use Members.{merge_members, dedup_members, remove_member}

pub record PatchState : Type 0 where
  pub properties : Properties
  pub member_ids : List ℕ

-- setStringProp
unfoldable pub set_string_prop : Text → Option Json → PatchState → Result PatchFault PatchState
unfolding set_property as_string
set_string_prop key raw s = elim (as_string raw) [
  | none ↦ err invalid_value
  | some v ↦ ok (record s { properties = set_property key (str v) s.properties })
]

-- json.Unmarshal into a Member: its four fields are strings, and `Value` is what is used.
unfoldable member_fields : Fields → Text → Option Text
unfolding names
member_fields end value = some value
member_fields (field k v fs) value =
    if names k (text "value")
    then elim (string_field v value) [ none ↦ none | some w ↦ member_fields fs w ]
    else if names k (text "$ref") || (names k (text "type") || names k (text "display"))
    then elim (string_field v []) [ none ↦ none | some _ ↦ member_fields fs value ]
    else member_fields fs value

unfoldable pub decode_member : Json → Option Text
unfolding member_fields
decode_member (obj fs) = member_fields fs []
decode_member null = some []
decode_member _ = none

unfoldable pub decode_items : Items → Option (List Text)
decode_items nil = some []
decode_items (cons v vs) = elim (decode_member v) [
  | none ↦ none
  | some m ↦ elim (decode_items vs) [ none ↦ none | some ms ↦ some (m ∷ ms) ]
]

unfoldable decode_array : Json → Option (List Text)
unfolding decode_items decode_member
decode_array (arr vs) = decode_items vs
decode_array null = some []
decode_array _ = none

-- uuid.Parse, of github.com/google/uuid.
module _ (parse_uuid : Text → Option ℕ) where
  -- One member of the loop of membersToUUIDs, and the single member of decodeMembersValue.
  unfoldable member_uuid : Text → Result PatchFault ℕ
  unfolding same
  member_uuid value =
      if same value []
      then err invalid_value
      else elim (parse_uuid value) [ none ↦ err invalid_value | some id ↦ ok id ]

  unfoldable members_to_uuids : List Text → Result PatchFault (List ℕ)
  unfolding member_uuid
  members_to_uuids [] = ok []
  members_to_uuids (v ∷ vs) = do id ← member_uuid v; ids ← members_to_uuids vs; ok (id ∷ ids)

  unfoldable decode_single : Option Text → Result PatchFault (List ℕ)
  unfolding member_uuid
  decode_single none = err invalid_value
  decode_single (some v) = do id ← member_uuid v; ok (id ∷ [])

  unfoldable pub decode_members_value : Option Json → Result PatchFault (List ℕ)
  unfolding decode_array decode_member members_to_uuids decode_single
  decode_members_value none = err invalid_value
  decode_members_value (some raw) = elim (decode_array raw) [
    | some values ↦ members_to_uuids values
    | none ↦ decode_single (decode_member raw)
  ]

  module _ {F : Type 0} (parse_float : Text → Option F) where
    -- The guard that applyAdd and applyReplace share.
    unfoldable pub is_plain : AttrPath F → Bool
    unfolding same
    is_plain p = elim p.filter [ none ↦ same p.sub_attr [] | some _ ↦ false ]

    -- applyAdd, where the path is not empty.
    unfoldable pub add_attr : AttrPath F → Option Json → PatchState → Result PatchFault PatchState
    unfolding is_plain same set_string_prop decode_members_value merge_members
    add_attr p raw s =
        if not (is_plain p)
        then err no_target
        else if same p.attr (text "displayname")
        then set_string_prop display_name_key raw s
        else if same p.attr (text "members")
        then (do
          to_add ← decode_members_value raw
          ok (record s { member_ids = merge_members s.member_ids to_add }))
        else err no_target

    -- applyReplace, where the path is not empty.
    unfoldable pub replace_attr :
        AttrPath F → Option Json → PatchState → Result PatchFault PatchState
    unfolding is_plain same set_string_prop decode_members_value dedup_members
    replace_attr p raw s =
        if not (is_plain p)
        then err no_target
        else if same p.attr (text "displayname")
        then set_string_prop display_name_key raw s
        else if same p.attr (text "members")
        then (do next ← decode_members_value raw; ok (record s { member_ids = dedup_members next }))
        else err no_target

    -- memberValueFilter
    unfoldable pub member_value_filter : Expr F → Option ℕ
    unfolding same
    member_value_filter (compare attr eq (Value.string s)) =
        if same attr (text "value") then parse_uuid s else none
    member_value_filter _ = none

    unfoldable pub remove_filtered : Option (Expr F) → PatchState → Result PatchFault PatchState
    unfolding member_value_filter remove_member
    remove_filtered none s = ok (record s { member_ids = [] })
    remove_filtered (some e) s = elim (member_value_filter e) [
      | none ↦ err no_target
      | some target ↦ ok (record s { member_ids = remove_member s.member_ids target })
    ]

    -- applyRemove
    unfoldable pub remove_attr : AttrPath F → PatchState → Result PatchFault PatchState
    unfolding same remove_filtered
    remove_attr p s =
        if not (same p.attr (text "members")) || not (same p.sub_attr [])
        then err no_target
        else remove_filtered p.filter s

    -- ApplyPatch
    unfoldable pub patch_group : List PatchOp → PatchState → Result PatchError PatchState
    unfolding apply_patch set_at add_attr replace_attr remove_attr
    patch_group =
        apply_patch parse_float (set_at parse_float add_attr) (set_at parse_float replace_attr)
          remove_attr
