-- ===== src/Scim/Users/Patching.antt =====
-- What a PATCH of a user keeps (internal/scim/users/patch.go): the types of userName and active, and the keys
-- that no attribute of the schema names.
use oad.Base.{
  ◌≡◌, refl, ◌∙◌, subst, Bool, true, false, not, ◌&&◌, Option, some, List, [], Option-cases, inl,
  inr, if◌then◌else◌, Result, ok,
}
use oad.Scim.Text.{Text, text, same}
use oad.Scim.Json.{Json, str, bool, as_string, as_bool}
use oad.Scim.Path.{AttrPath}
use oad.Scim.Properties.{
  Properties, get_property, set_property, delete_property, user_name_key, display_name_key,
  email_key, active_key, get_property-set_property, get_property-set_property_other,
  get_property-delete_property_other,
}
use oad.Scim.Patch.{PatchOp, PatchFault, set_at}
use oad.Scim.Patch.Steps.{Steps, set_at-Steps, apply_patch-Steps}
use oad.Scim.Users.{
  set_string_prop, set_bool_prop, chosen_email, set_emails_from_value, is_primary_eq_true, is_plain,
  add_attr, replace_attr, remove_attr, patch_user,
}

-- The properties of a user have a userName, which is a string, and an active flag, which is a bool.
abbrev pub IsUser : Properties → Type 0
IsUser ps =
    ((s : Text) × (get_property user_name_key ps ≡ some (str s)))
    × ((b : Bool) × (get_property active_key ps ≡ some (bool b)))

-- None of the four keys that internal/scim/users reads and writes.
abbrev pub IsOther : Text → Type 0
IsOther k =
    (same user_name_key k ≡ false)
    × (same display_name_key k ≡ false)
    × (same email_key k ≡ false)
    × (same active_key k ≡ false)

abbrev Keeps : Properties → Properties → Type 0
Keeps s t = (IsUser s → IsUser t) × ((k : Text) → IsOther k → get_property k t ≡ get_property k s)

Keeps-reflexive : (s : Properties) → Keeps s s
Keeps-reflexive s = ((λ u. u), (λ k d. refl))

Keeps-transitive : (s t u : Properties) → Keeps s t → Keeps t u → Keeps s u
Keeps-transitive s t u (f, g) (f', g') = ((λ d. f' (f d)), (λ k d. g' k d ∙ g k d))

user_name-Keeps : (s : Text) (ps : Properties) → Keeps ps (set_property user_name_key (str s) ps)
unfolding same
user_name-Keeps s ps = (
  (λ u. (
    (s, get_property-set_property user_name_key (str s) ps),
    (u.1.0, get_property-set_property_other active_key user_name_key (str s) ps refl ∙ u.1.1),
  )),
  (λ k d. get_property-set_property_other k user_name_key (str s) ps d.0),
)

active-Keeps : (b : Bool) (ps : Properties) → Keeps ps (set_property active_key (bool b) ps)
unfolding same
active-Keeps b ps = (
  (λ u. (
    (u.0.0, get_property-set_property_other user_name_key active_key (bool b) ps refl ∙ u.0.1),
    (b, get_property-set_property active_key (bool b) ps),
  )),
  (λ k d. get_property-set_property_other k active_key (bool b) ps d.3),
)

display_name-Keeps :
    (s : Text) (ps : Properties) → Keeps ps (set_property display_name_key (str s) ps)
unfolding same
display_name-Keeps s ps = (
  (λ u. (
    (u.0.0, get_property-set_property_other user_name_key display_name_key (str s) ps refl ∙ u.0.1),
    (u.1.0, get_property-set_property_other active_key display_name_key (str s) ps refl ∙ u.1.1),
  )),
  (λ k d. get_property-set_property_other k display_name_key (str s) ps d.1),
)

email-Keeps : (s : Text) (ps : Properties) → Keeps ps (set_property email_key (str s) ps)
unfolding same
email-Keeps s ps = (
  (λ u. (
    (u.0.0, get_property-set_property_other user_name_key email_key (str s) ps refl ∙ u.0.1),
    (u.1.0, get_property-set_property_other active_key email_key (str s) ps refl ∙ u.1.1),
  )),
  (λ k d. get_property-set_property_other k email_key (str s) ps d.2),
)

no_email-Keeps : (ps : Properties) → Keeps ps (delete_property email_key ps)
unfolding same
no_email-Keeps ps = (
  (λ u. (
    (u.0.0, get_property-delete_property_other user_name_key email_key ps refl ∙ u.0.1),
    (u.1.0, get_property-delete_property_other active_key email_key ps refl ∙ u.1.1),
  )),
  (λ k d. get_property-delete_property_other k email_key ps d.2),
)

set_string_prop-Keeps :
    (key : Text) (raw : Option Json) (ps : Properties)
    → ((s : Text) → Keeps ps (set_property key (str s) ps))
    → Steps Keeps ps (set_string_prop key raw ps)
unfolding set_string_prop
set_string_prop-Keeps key raw ps h = elim (Option-cases (as_string raw)) [
  | inl e ↦ rw (e, set_string_prop) tt
  | inr (s, e) ↦ rw (e, set_string_prop) (h s)
]

set_active-Keeps :
    (raw : Option Json) (ps : Properties) → Steps Keeps ps (set_bool_prop active_key raw ps)
unfolding set_bool_prop
set_active-Keeps raw ps = elim (Option-cases (as_bool raw)) [
  | inl e ↦ rw (e, set_bool_prop) tt
  | inr (b, e) ↦ rw (e, set_bool_prop) (active-Keeps b ps)
]

set_emails-Keeps :
    (raw : Option Json) (ps : Properties) → Steps Keeps ps (set_emails_from_value raw ps)
unfolding set_emails_from_value
set_emails-Keeps raw ps = elim (Option-cases (chosen_email raw)) [
  | inl e ↦ rw (e, set_emails_from_value) tt
  | inr (s, e) ↦ rw (e, set_emails_from_value) (email-Keeps s ps)
]

if-Steps :
    (b : Bool) (ps : Properties) (r q : Result PatchFault Properties)
    → Steps Keeps ps r
    → Steps Keeps ps q
    → Steps Keeps ps (if b then r else q)
if-Steps true ps r q h k = h
if-Steps false ps r q h k = k

module _ {F : Type 0} (parse_float : Text → Option F) where
  add_attr-Keeps :
      (p : AttrPath F) (v : Option Json) (ps : Properties)
      → Steps Keeps ps (add_attr parse_float p v ps)
  unfolding add_attr
  add_attr-Keeps p v ps = if-Steps (not (is_plain parse_float p)) ps _ _ tt (
      if-Steps (same p.attr (text "displayname")) ps _ _
        (set_string_prop-Keeps display_name_key v ps (λ s. display_name-Keeps s ps))
        (if-Steps (same p.attr (text "active")) ps _ _ (set_active-Keeps v ps)
          (if-Steps (same p.attr (text "emails")) ps _ _ (set_emails-Keeps v ps) tt)))

  replace_attr-Keeps :
      (p : AttrPath F) (v : Option Json) (ps : Properties)
      → Steps Keeps ps (replace_attr parse_float p v ps)
  unfolding replace_attr
  replace_attr-Keeps p v ps =
      if-Steps
        (same p.attr (text "emails")
          && (same p.sub_attr (text "value") && is_primary_eq_true parse_float p.filter))
        ps _ _ (set_string_prop-Keeps email_key v ps (λ s. email-Keeps s ps))
        (if-Steps (not (is_plain parse_float p)) ps _ _ tt (
          if-Steps (same p.attr (text "displayname")) ps _ _
            (set_string_prop-Keeps display_name_key v ps (λ s. display_name-Keeps s ps))
            (if-Steps (same p.attr (text "username")) ps _ _
              (set_string_prop-Keeps user_name_key v ps (λ s. user_name-Keeps s ps))
              (if-Steps (same p.attr (text "active")) ps _ _ (set_active-Keeps v ps)
                (if-Steps (same p.attr (text "emails")) ps _ _ (set_emails-Keeps v ps) tt)))))

  remove_attr-Keeps :
      (p : AttrPath F) (ps : Properties) → Steps Keeps ps (remove_attr parse_float p ps)
  unfolding remove_attr
  remove_attr-Keeps p ps =
      if-Steps
        (same p.attr (text "emails")
          && (same p.sub_attr [] && is_primary_eq_true parse_float p.filter))
        ps _ _ (no_email-Keeps ps) tt

  patch_user-Keeps :
      (os : List PatchOp) (s : Properties) → Steps Keeps s (patch_user parse_float os s)
  unfolding patch_user
  patch_user-Keeps os s =
      apply_patch-Steps Keeps Keeps-reflexive Keeps-transitive parse_float
        (set_at parse_float (add_attr parse_float)) (set_at parse_float (replace_attr parse_float))
        (remove_attr parse_float)
        (set_at-Steps Keeps Keeps-reflexive Keeps-transitive parse_float (add_attr parse_float)
          add_attr-Keeps)
        (set_at-Steps Keeps Keeps-reflexive Keeps-transitive parse_float (replace_attr parse_float)
          replace_attr-Keeps)
        remove_attr-Keeps os s

  -- Whatever the operations are, a PATCH of a user that succeeds leaves a userName that is a string
  -- and an active flag that is a bool, if both were so before, and leaves every key as it was but
  -- userName, displayName, email and active.
  pub patch_user-keeps :
      (os : List PatchOp) (s t : Properties)
      → IsUser s
      → patch_user parse_float os s ≡ ok t
      → IsUser t × ((k : Text) → IsOther k → get_property k t ≡ get_property k s)
  patch_user-keeps os s t u h =
      let kept = subst (λ r. Steps Keeps s r) h (patch_user-Keeps os s) in (kept.0 u, kept.1)
