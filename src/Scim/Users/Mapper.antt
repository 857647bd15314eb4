-- ===== src/Scim/Users/Mapper.antt =====
-- internal/scim/users/mapper.go: a SCIM User as entity.properties, and back.
use oad.Base.{◌≡◌, refl, ap, ◌∙◌, Bool, true, Option, none, some, List, [], ◌∷◌, if◌then◌else◌}
use oad.Scim.Text.{Text, same}
use oad.Scim.Json.{Json, str, bool}
use oad.Scim.Properties.{
  Properties, get_property, set_property, user_name_key, display_name_key, email_key, active_key,
}
use oad.Scim.Users.{Email, pick_primary_email}
use oad.Scim.Users.Patching.{IsUser}

-- User, less the schemas, the identifiers and the metadata; `name` is Name.Formatted.
pub record User : Type 0 where
  pub user_name : Text
  pub display_name : Text
  pub name : Option Text
  pub emails : List Email
  pub active : Option Bool

-- pickDisplayName
unfoldable pick_display_name : User → Text
unfolding same
pick_display_name u =
    if same u.display_name []
    then elim u.name [ none ↦ [] | some formatted ↦ formatted ]
    else u.display_name

-- derefBoolDefault
abbrev deref_bool_default : Option Bool → Bool → Bool
deref_bool_default none def = def
deref_bool_default (some b) def = b

-- `if v := …; v != "" { props[key] = v }`
unfoldable set_unless_empty : Text → Text → Properties → Properties
unfolding same set_property
set_unless_empty key v ps = if same v [] then ps else set_property key (str v) ps

-- ToProperties
unfoldable pub to_properties : User → Properties
unfolding set_unless_empty pick_display_name pick_primary_email
to_properties u =
    let required =
      (user_name_key, str u.user_name)
      ∷ (active_key, bool (deref_bool_default u.active true))
      ∷ [] in
    let named = set_unless_empty display_name_key (pick_display_name u) required in
    set_unless_empty email_key (pick_primary_email u.emails) named

-- asString
unfoldable string_of : Option Json → Text
string_of (some (str s)) = s
string_of _ = []

unfoldable bool_of : Option Json → Option Bool
bool_of (some (bool b)) = some b
bool_of _ = none

-- FromStored
unfoldable pub from_stored : Properties → User
unfolding string_of bool_of get_property same
from_stored ps =
    let email = string_of (get_property email_key ps) in
    record {
      user_name = string_of (get_property user_name_key ps);
      display_name = string_of (get_property display_name_key ps);
      name = none;
      emails = if same email [] then [] else record { value = email; primary = true } ∷ [];
      active = bool_of (get_property active_key ps);
    }

-- The user that is answered: what the properties keep of the one that came in.
unfoldable pub kept : User → User
unfolding same pick_display_name pick_primary_email
kept u =
    let email = pick_primary_email u.emails in
    record {
      user_name = u.user_name;
      display_name = pick_display_name u;
      name = none;
      emails = if same email [] then [] else record { value = email; primary = true } ∷ [];
      active = some (deref_bool_default u.active true);
    }

-- to_properties on the four values that it stores.
stored : Text → Text → Text → Bool → Properties
unfolding set_unless_empty
stored name shown email active = set_unless_empty email_key email (
    set_unless_empty display_name_key shown
      ((user_name_key, str name) ∷ (active_key, bool active) ∷ []))

abbrev with_email : Text → Text → Text → Bool → User
unfolding same
with_email name shown email active = record {
  user_name = name;
  display_name = shown;
  name = none;
  emails = if same email [] then [] else record { value = email; primary = true } ∷ [];
  active = some active;
}

from_stored-stored :
    (name shown email : Text) (active : Bool)
    → from_stored (stored name shown email active) ≡ with_email name shown email active
unfolding from_stored stored
from_stored-stored name [] [] active = refl
from_stored-stored name [] (e ∷ email) active = refl
from_stored-stored name (d ∷ shown) [] active = refl
from_stored-stored name (d ∷ shown) (e ∷ email) active = refl

to_properties-with_email :
    (name shown email : Text) (active : Bool)
    → to_properties (with_email name shown email active) ≡ stored name shown email active
unfolding to_properties stored
to_properties-with_email name [] [] active = refl
to_properties-with_email name [] (e ∷ email) active = refl
to_properties-with_email name (d ∷ shown) [] active = refl
to_properties-with_email name (d ∷ shown) (e ∷ email) active = refl

stored-IsUser : (name shown email : Text) (active : Bool) → IsUser (stored name shown email active)
unfolding stored get_property same
stored-IsUser name [] [] active = ((name, refl), (active, refl))
stored-IsUser name [] (e ∷ email) active = ((name, refl), (active, refl))
stored-IsUser name (d ∷ shown) [] active = ((name, refl), (active, refl))
stored-IsUser name (d ∷ shown) (e ∷ email) active = ((name, refl), (active, refl))

pub from_stored-to_properties :
    (u : User) → IsUser (to_properties u) × (from_stored (to_properties u) ≡ kept u)
unfolding to_properties stored kept
from_stored-to_properties u = (
  stored-IsUser u.user_name (pick_display_name u) (pick_primary_email u.emails)
      (deref_bool_default u.active true),
  from_stored-stored u.user_name (pick_display_name u) (pick_primary_email u.emails)
      (deref_bool_default u.active true),
)

-- Storing again the user that was answered changes nothing.
to_properties-from_stored :
    (u : User) → to_properties (from_stored (to_properties u)) ≡ to_properties u
unfolding kept stored to_properties
to_properties-from_stored u =
    ap to_properties ((from_stored-to_properties u).1)
    ∙ to_properties-with_email u.user_name (pick_display_name u) (pick_primary_email u.emails)
        (deref_bool_default u.active true)
