-- ===== src/Scim/Users.antt =====
-- internal/scim/users/patch.go: PATCH on users, and the emails of internal/scim/users/mapper.go.
pub mod Mapper
pub mod Service
pub mod Changes
pub mod Evicted
pub mod Patching
mod Tests
use oad.Base.{
  ℕ, Bool, true, false, not, ◌&&◌, ◌||◌, Option, none, some, List, [], ◌∷◌, if◌then◌else◌, Result,
  ok, err,
}
use oad.Scim.Text.{Text, text, same}
use oad.Scim.Lexer.{CompareOp, eq}
use oad.Scim.Filter.{Value, Expr, compare}
use oad.Scim.Json.{
  Json, Items, Fields, null, bool, str, arr, obj, nil, cons, end, field, as_string, as_bool, names,
  string_field, bool_field,
}
use oad.Scim.Path.{AttrPath}
use oad.Scim.Properties.{
  Properties, set_property, delete_property, user_name_key, display_name_key, email_key, active_key,
}
use oad.Scim.Patch.{PatchOp, PatchFault, no_target, invalid_value, PatchError, set_at, apply_patch}

-- Email, without its type, which nothing reads.
pub record Email : Type 0 where
  pub value : Text
  pub primary : Bool

-- The loop of pickPrimaryEmail.
unfoldable first_primary : List Email → Option Text
unfolding same
first_primary [] = none
first_primary (e ∷ es) =
    if e.primary && not (same e.value []) then some e.value else first_primary es

unfoldable pub pick_primary_email : List Email → Text
unfolding first_primary
pick_primary_email [] = []
pick_primary_email (e ∷ es) = elim (first_primary (e ∷ es)) [ some v ↦ v | none ↦ e.value ]

-- json.Unmarshal into an Email.
unfoldable email_fields : Fields → Email → Option Email
unfolding names
email_fields end e = some e
email_fields (field k v fs) e =
    if names k (text "value")
    then elim (string_field v e.value) [
      | none ↦ none
      | some w ↦ email_fields fs (record e { value = w })
    ]
    else if names k (text "primary")
    then elim (bool_field v e.primary) [
      | none ↦ none
      | some b ↦ email_fields fs (record e { primary = b })
    ]
    else if names k (text "type")
    then elim (string_field v []) [ none ↦ none | some _ ↦ email_fields fs e ]
    else email_fields fs e

unfoldable decode_email : Json → Option Email
unfolding email_fields
decode_email (obj fs) = email_fields fs (record { value = []; primary = false })
decode_email null = some (record { value = []; primary = false })
decode_email _ = none

unfoldable pub decode_items : Items → Option (List Email)
unfolding decode_email
decode_items nil = some []
decode_items (cons v vs) = elim (decode_email v) [
  | none ↦ none
  | some e ↦ elim (decode_items vs) [ none ↦ none | some es ↦ some (e ∷ es) ]
]

-- json.Unmarshal into []Email.
unfoldable decode_emails : Option Json → Option (List Email)
unfolding decode_items
decode_emails (some (arr vs)) = decode_items vs
decode_emails (some null) = some []
decode_emails _ = none

unfoldable pub set_string_prop : Text → Option Json → Properties → Result PatchFault Properties
unfolding set_property as_string
set_string_prop key raw props = elim (as_string raw) [
  | none ↦ err invalid_value
  | some s ↦ ok (set_property key (str s) props)
]

unfoldable pub set_bool_prop : Text → Option Json → Properties → Result PatchFault Properties
unfolding set_property as_bool
set_bool_prop key raw props = elim (as_bool raw) [
  | none ↦ err invalid_value
  | some b ↦ ok (set_property key (bool b) props)
]

-- The email that setEmailsFromValue stores: of a non-empty array, or of a single object.
unfoldable single_email : Option Json → Option Text
unfolding decode_email same
single_email none = none
single_email (some raw) = elim (decode_email raw) [
  | none ↦ none
  | some e ↦ if same e.value [] then none else some e.value
]

unfoldable pub chosen_email : Option Json → Option Text
unfolding decode_emails pick_primary_email single_email same
chosen_email raw = elim (decode_emails raw) [
  | some (e ∷ es) ↦
      let email = pick_primary_email (e ∷ es) in if same email [] then none else some email
  | some [] ↦ single_email raw
  | none ↦ single_email raw
]

-- setEmailsFromValue
unfoldable pub set_emails_from_value : Option Json → Properties → Result PatchFault Properties
unfolding chosen_email set_property
set_emails_from_value raw props = elim (chosen_email raw) [
  | none ↦ err invalid_value
  | some email ↦ ok (set_property email_key (str email) props)
]

module _ {F : Type 0} (parse_float : Text → Option F) where
  -- isPrimaryEqTrue
  unfoldable pub is_primary_eq_true : Option (Expr F) → Bool
  unfolding same
  is_primary_eq_true (some (compare attr eq (Value.bool b))) = same attr (text "primary") && b
  is_primary_eq_true _ = false

  unfoldable pub is_plain : AttrPath F → Bool
  unfolding same
  is_plain p = elim p.filter [ none ↦ same p.sub_attr [] | some _ ↦ false ]

  -- applyAdd, where the path is not empty.
  unfoldable pub add_attr : AttrPath F → Option Json → Properties → Result PatchFault Properties
  unfolding is_plain same set_string_prop set_bool_prop set_emails_from_value
  add_attr p raw props =
      if not (is_plain p)
      then err no_target
      else if same p.attr (text "displayname")
      then set_string_prop display_name_key raw props
      else if same p.attr (text "active")
      then set_bool_prop active_key raw props
      else if same p.attr (text "emails")
      then set_emails_from_value raw props
      else err no_target

  -- applyReplace, where the path is not empty.
  unfoldable pub replace_attr : AttrPath F → Option Json → Properties → Result PatchFault Properties
  unfolding is_plain is_primary_eq_true same set_string_prop set_bool_prop set_emails_from_value
  replace_attr p raw props =
      if same p.attr (text "emails")
        && (same p.sub_attr (text "value") && is_primary_eq_true p.filter)
      then set_string_prop email_key raw props
      else if not (is_plain p)
      then err no_target
      else if same p.attr (text "displayname")
      then set_string_prop display_name_key raw props
      else if same p.attr (text "username")
      then set_string_prop user_name_key raw props
      else if same p.attr (text "active")
      then set_bool_prop active_key raw props
      else if same p.attr (text "emails")
      then set_emails_from_value raw props
      else err no_target

  -- applyRemove
  unfoldable pub remove_attr : AttrPath F → Properties → Result PatchFault Properties
  unfolding same is_primary_eq_true delete_property
  remove_attr p props =
      if same p.attr (text "emails") && (same p.sub_attr [] && is_primary_eq_true p.filter)
      then ok (delete_property email_key props)
      else err no_target

  -- ApplyPatch; the copy of the map is what the operations work on.
  unfoldable pub patch_user : List PatchOp → Properties → Result PatchError Properties
  unfolding apply_patch set_at add_attr replace_attr remove_attr
  patch_user =
      apply_patch parse_float (set_at parse_float add_attr) (set_at parse_float replace_attr)
        remove_attr
