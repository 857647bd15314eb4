-- ===== src/Auth/Roles.antt =====
-- The hierarchy of roles (internal/auth/identity.go), and the roles of a certificate (internal/auth/mtls.go).
use oad.Base.{
  ℕ, ◌≤◌, ◌≡◌, refl, sym, ap, ◌∙◌, Bool, true, false, ◌||◌, Option, none, some, List, [], ◌∷◌, ◌++◌,
  arith, leb, ◌&&◌, if◌then◌else◌, Bool-cases, inl, inr,
}
use oad.Scim.Text.{Text, text, same, same→eq}
use oad.Auth.{Identity, has_group, has_role, add_units, build_mtls_identity}

-- The level of a role: each level includes the levels below it.
unfoldable pub level : Text → Option ℕ
unfolding same
level role =
    if same role (text "viewer")
    then some 0
    else if same role (text "editor")
    then some 1
    else if same role (text "system-admin")
    then some 2
    else if same role (text "admin")
    then some 3
    else none

-- The levels that the flags and the groups of an identity give it.
unfoldable pub grants : Identity → ℕ → Bool
grants id n =
    (leb n 3 && id.is_platform_admin)
    || ((leb n 2 && id.is_system_admin)
        || ((leb n 1 && has_group id.groups (text "oad:editor"))
            || (leb n 0 && has_group id.groups (text "oad:viewer"))))

at_level : Identity → Option ℕ → Bool
unfolding grants
at_level id none = false
at_level id (some n) = grants id n

-- `has_role` on a role that has a name, by cases of what the identity is given.
has_role-level : (id : Identity) (role : Text) → has_role id role ≡ at_level id (level role)
unfolding level at_level grants has_role
has_role-level id role = elim (Bool-cases (same role (text "admin"))) [
  | inl e ↦ rw (same→eq role (text "admin") e) (ground arith)
  | inr e ↦ elim (Bool-cases (same role (text "system-admin"))) [
    | inl e₁ ↦ rw (same→eq role (text "system-admin") e₁) (ground arith)
    | inr e₁ ↦ elim (Bool-cases (same role (text "editor"))) [
      | inl e₂ ↦ rw (same→eq role (text "editor") e₂) (ground arith)
      | inr e₂ ↦ elim (Bool-cases (same role (text "viewer"))) [
        | inl e₃ ↦ rw (same→eq role (text "viewer") e₃) (ground arith)
        | inr e₃ ↦ rw (e, e₁, e₂, e₃) refl
      ]
    ]
  ]
]

grants_down : (id : Identity) (m n : ℕ) → m ≤ n → grants id n ≡ true → grants id m ≡ true
unfolding grants
grants_down id m n h g = ground arith

-- A role includes the roles below it: whoever has a role has each role whose level is no higher.
has_role-descends :
    (id : Identity) (role below : Text) (m n : ℕ)
    → level below ≡ some m
    → level role ≡ some n
    → m ≤ n
    → has_role id role ≡ true
    → has_role id below ≡ true
unfolding at_level
has_role-descends id role below m n e f h g =
    (has_role-level id below ∙ ap (at_level id) e)
    ∙ grants_down id m n h (sym (has_role-level id role ∙ ap (at_level id) f) ∙ g)

has_group-append :
    (gs hs : List Text) (name : Text)
    → has_group (gs ++ hs) name ≡ (has_group gs name || has_group hs name)
unfolding has_group
has_group-append [] hs name = refl
has_group-append (g ∷ gs) hs name = ground (arith, has_group-append gs hs name)

-- What the units give, beside what the identity has.
abbrev Adds : List Text → Identity → Identity → Type 0
Adds ous id id' =
    (id'.is_platform_admin ≡ (id.is_platform_admin || has_group ous (text "admin")))
    × (id'.is_system_admin ≡ id.is_system_admin)
    × (has_group id'.groups (text "oad:editor")
        ≡ (has_group id.groups (text "oad:editor") || has_group ous (text "editor")))
    × (has_group id'.groups (text "oad:viewer")
        ≡ (has_group id.groups (text "oad:viewer") || has_group ous (text "viewer")))

or_false : (b : Bool) → b ≡ (b || false)
or_false true = refl
or_false false = refl

or_true : (b c : Bool) → (true || c) ≡ (b || (true || c))
or_true true c = refl
or_true false c = refl

with_group :
    (gs : List Text) (added name : Text) (b c : Bool)
    → same added name ≡ b
    → (has_group (gs ++ (added ∷ [])) name || c) ≡ (has_group gs name || (b || c))
unfolding has_group
with_group gs added name b c e = ground (arith, has_group-append gs (added ∷ []) name)

add_units-Adds : (ous : List Text) (id : Identity) → Adds ous id (add_units ous id)
unfolding add_units has_group
add_units-Adds [] id = (or_false _, refl, or_false _, or_false _)
add_units-Adds (ou ∷ ous) id = elim (Bool-cases (same ou (text "admin"))) [
  | inl e ↦
      let (a, s, ed, v) = add_units-Adds ous (record id { is_platform_admin = true }) in
      rw (same→eq ou (text "admin") e)
        (a ∙ or_true id.is_platform_admin (has_group ous (text "admin")), s, ed, v)
  | inr e ↦ elim (Bool-cases (same ou (text "editor"))) [
    | inl e₁ ↦
        let (a, s, ed, v) =
          add_units-Adds ous (record id { groups = id.groups ++ (text "oad:editor" ∷ []) }) in
        rw (same→eq ou (text "editor") e₁) (
          a,
          s,
          ed
              ∙ with_group id.groups (text "oad:editor") (text "oad:editor") true
                  (has_group ous (text "editor")) refl,
          v
              ∙ with_group id.groups (text "oad:editor") (text "oad:viewer") false
                  (has_group ous (text "viewer")) refl,
        )
    | inr e₁ ↦ elim (Bool-cases (same ou (text "viewer"))) [
      | inl e₂ ↦
          let (a, s, ed, v) =
            add_units-Adds ous (record id { groups = id.groups ++ (text "oad:viewer" ∷ []) }) in
          rw (same→eq ou (text "viewer") e₂) (
            a,
            s,
            ed
                ∙ with_group id.groups (text "oad:viewer") (text "oad:editor") false
                    (has_group ous (text "editor")) refl,
            v
                ∙ with_group id.groups (text "oad:viewer") (text "oad:viewer") true
                    (has_group ous (text "viewer")) refl,
          )
      | inr e₂ ↦ rw (e, e₁, e₂) (add_units-Adds ous id)
    ]
  ]
]

-- The roles of a certificate: admin is for the unit "admin" alone, no unit makes a system admin, and
-- the groups oad:editor and oad:viewer are there exactly if the units "editor" and "viewer" are.
build_mtls_identity-roles :
    (cn : Text) (ous : List Text)
    → ((build_mtls_identity cn ous).is_platform_admin ≡ has_group ous (text "admin"))
      × ((build_mtls_identity cn ous).is_system_admin ≡ false)
      × (has_group (build_mtls_identity cn ous).groups (text "oad:editor")
          ≡ has_group ous (text "editor"))
      × (has_group (build_mtls_identity cn ous).groups (text "oad:viewer")
          ≡ has_group ous (text "viewer"))
unfolding build_mtls_identity has_group
build_mtls_identity-roles cn ous = add_units-Adds ous _
