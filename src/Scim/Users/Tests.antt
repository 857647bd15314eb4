-- ===== src/Scim/Users/Tests.antt =====
-- Runs of the PATCH of users and of the mapper (internal/scim/users/patch.go, internal/scim/users/mapper.go).
use oad.Base.{◌≡◌, refl, true, false, Option, none, some, List, [], ◌∷◌, ok}
use oad.Scim.Text.{Text, text}
use oad.Scim.Lexer.{next}
use oad.Scim.Filter.{parse}
use oad.Scim.Json.{str, bool}
use oad.Scim.Path.{parse_path, cut_unquoted}
use oad.Scim.Patch.{PatchOp}
use oad.Scim.Properties.{Properties, get_property, user_name_key, email_key, active_key}
use oad.Scim.Users.{patch_user}
use oad.Scim.Users.Patching.{IsUser, IsOther, patch_user-keeps}
use oad.Scim.Users.Mapper.{User}

abbrev float_text : Text → Option Text
float_text s = some s

abbrev sample : Properties
sample =
    (user_name_key, str (text "ann")) ∷ (active_key, bool true) ∷ (email_key, str (text "a@x")) ∷ []

abbrev sample_ops : List PatchOp
sample_ops =
    record {
      op = text "replace";
      path = text "emails[primary eq true].value";
      value = some (str (text "b@x"));
    }
    ∷ record { op = text "replace"; path = text "active"; value = some (bool false) }
    ∷ []

abbrev patched : Properties
patched =
    (user_name_key, str (text "ann"))
    ∷ (active_key, bool false)
    ∷ (email_key, str (text "b@x"))
    ∷ []

sample-patch_user : patch_user float_text sample_ops sample ≡ ok patched
unfolding patch_user parse_path parse next cut_unquoted
sample-patch_user = refl

sample-IsUser : IsUser sample
unfolding get_property
sample-IsUser = ((text "ann", refl), (true, refl))

patch_user-keeps_example :
    IsUser patched × ((k : Text) → IsOther k → get_property k patched ≡ get_property k sample)
patch_user-keeps_example =
    patch_user-keeps float_text sample_ops sample patched sample-IsUser sample-patch_user

-- Two emails, of which the second is the primary one.
abbrev sample_user : User
sample_user = record {
  user_name = text "ann";
  display_name = [];
  name = some (text "Ann");
  emails =
      record { value = text "a@x"; primary = false }
      ∷ record { value = text "b@x"; primary = true }
      ∷ [];
  active = none;
}

abbrev answered : User
answered = record {
  user_name = text "ann";
  display_name = text "Ann";
  name = none;
  emails = record { value = text "b@x"; primary = true } ∷ [];
  active = some true;
}
