-- ===== src/Auth/Graph/Standing.antt =====
-- Which memberships make an admin, by the queries of internal/auth/resolver.go.
use oad.Base.{
  ℕ, ◌≡◌, refl, sym, ap, ◌∙◌, subst, Bool, true, false, ◌&&◌, Option, none, some, List, ==_iff,
  arith, Bool-cases, Option-cases, inl, inr, ◌↔◌, ◌⊎◌,
}
use mathlib.Core.List.{Memᴰ}
use oad.Scim.Text.{Text, text, same, same→eq, same_refl}
use oad.Scim.Json.{Json, null, bool, number, str, arr, obj}
use oad.Scim.Properties.{get_property, display_name_key}
use oad.Scim.Store.{EntityRow, row_id}
use oad.Auth.Graph.{
  Edge, Graph, starts_with_scim, displayed_as, is_edge, typed_row, group_name, group_names,
}
use oad.Auth.{has_group}
use oad.Auth.Graph.Named.{Joins, group_names_iff}
use oad.Table.{find_by_id}

-- The entity is the subject of a member_of to a group of some kind.
abbrev pub Belongs : Graph → ℕ → (EntityRow → Type 0) → Type 0
Belongs g x P =
    (r : Edge) × (e : EntityRow) × Memᴰ r g.edges
    × (r.subject_entity_id ≡ x)
    × (r.relation_type ≡ text "member_of")
    × (find_by_id row_id r.target_entity_id g.entities ≡ some e)
    × (e.type_name ≡ text "Group")
    × P e

-- A group stands for a role by its external identifier, or by its display name if SCIM has made it.
abbrev pub StandsFor : Text → Text → EntityRow → Type 0
StandsFor name display e =
    (e.external_id ≡ name)
    ⊎ ((starts_with_scim e.external_id ≡ true)
        × (get_property display_name_key e.properties ≡ some (str display)))

displayed_as-str :
    (name : Text) (v : Option Json) → displayed_as name v ≡ true → v ≡ some (str name)
unfolding displayed_as
displayed_as-str name (some (str s)) h = ap (λ t. some (str t)) (same→eq s name h)
displayed_as-str name none h = let bad : false ≡ true = h in cc
displayed_as-str name (some null) h = let bad : false ≡ true = h in cc
displayed_as-str name (some (bool b)) h = let bad : false ≡ true = h in cc
displayed_as-str name (some (number t)) h = let bad : false ≡ true = h in cc
displayed_as-str name (some (arr xs)) h = let bad : false ≡ true = h in cc
displayed_as-str name (some (obj fs)) h = let bad : false ≡ true = h in cc

-- Whether the CASE gives the role of a display name.
abbrev renames : EntityRow → Text → Bool
renames e display =
    starts_with_scim e.external_id
    && displayed_as display (get_property display_name_key e.properties)

renames-StandsFor :
    (e : EntityRow) (name display : Text) → renames e display ≡ true → StandsFor name display e
renames-StandsFor e name display h = inr (
  ground arith,
  displayed_as-str display (get_property display_name_key e.properties) (ground arith),
)

differs : (s t : Text) → same s t ≡ false → s ≡ t → ⊥
differs s t d e =
    let bad : true ≡ false = sym (same_refl t) ∙ subst (λ u. same u t ≡ false) e d in cc

group_name-StandsFor_admin :
    (e : EntityRow)
    → group_name e ≡ text "oad:admin"
    → StandsFor (text "oad:admin") (text "oad-admin") e
unfolding group_name same
group_name-StandsFor_admin e h = elim (Bool-cases (renames e (text "oad-admin"))) [
  | inl a ↦ renames-StandsFor e (text "oad:admin") (text "oad-admin") a
  | inr a ↦ elim (Bool-cases (renames e (text "oad-system-admin"))) [
    | inl b ↦ absurd (differs (text "oad:system-admin") (text "oad:admin") refl (rw (a, b) at h))
    | inr b ↦ elim (Bool-cases (renames e (text "oad-editor"))) [
      | inl c ↦ absurd (differs (text "oad:editor") (text "oad:admin") refl (rw (a, b, c) at h))
      | inr c ↦ elim (Bool-cases (renames e (text "oad-viewer"))) [
        | inl d ↦
            absurd (differs (text "oad:viewer") (text "oad:admin") refl (rw (a, b, c, d) at h))
        | inr d ↦ inl (rw (a, b, c, d) at h)
      ]
    ]
  ]
]

StandsFor-group_name_admin :
    (e : EntityRow)
    → StandsFor (text "oad:admin") (text "oad-admin") e
    → group_name e ≡ text "oad:admin"
unfolding group_name starts_with_scim displayed_as same
StandsFor-group_name_admin e (inl h) = rw h refl
StandsFor-group_name_admin e (inr (s, d)) = rw (s, d) refl

group_name-StandsFor_system_admin :
    (e : EntityRow)
    → group_name e ≡ text "oad:system-admin"
    → StandsFor (text "oad:system-admin") (text "oad-system-admin") e
unfolding group_name same
group_name-StandsFor_system_admin e h = elim (Bool-cases (renames e (text "oad-admin"))) [
  | inl a ↦ absurd (differs (text "oad:admin") (text "oad:system-admin") refl (rw a at h))
  | inr a ↦ elim (Bool-cases (renames e (text "oad-system-admin"))) [
    | inl b ↦ renames-StandsFor e (text "oad:system-admin") (text "oad-system-admin") b
    | inr b ↦ elim (Bool-cases (renames e (text "oad-editor"))) [
      | inl c ↦
          absurd (differs (text "oad:editor") (text "oad:system-admin") refl (rw (a, b, c) at h))
      | inr c ↦ elim (Bool-cases (renames e (text "oad-viewer"))) [
        | inl d ↦
            absurd
              (differs (text "oad:viewer") (text "oad:system-admin") refl (rw (a, b, c, d) at h))
        | inr d ↦ inl (rw (a, b, c, d) at h)
      ]
    ]
  ]
]

StandsFor-group_name_system_admin :
    (e : EntityRow)
    → StandsFor (text "oad:system-admin") (text "oad-system-admin") e
    → group_name e ≡ text "oad:system-admin"
unfolding group_name starts_with_scim displayed_as same
StandsFor-group_name_system_admin e (inl h) = rw h refl
StandsFor-group_name_system_admin e (inr (s, d)) = rw (s, d) refl

pub typed_row-found :
    (type_name : Text) (id : ℕ) (es : List EntityRow) (e : EntityRow)
    → typed_row type_name id es ≡ some e
    → (find_by_id row_id id es ≡ some e) × (e.type_name ≡ type_name)
unfolding typed_row
typed_row-found type_name id es e h = elim (Option-cases (find_by_id row_id id es)) [
  | inl n ↦ let bad : none ≡ some e = rw n at h in cc
  | inr (f, n) ↦ elim (Bool-cases (same f.type_name type_name)) [
    | inr t ↦ let bad : none ≡ some e = rw (n, t) at h in cc
    | inl t ↦
        let q : some f ≡ some e = rw (n, t) at h in
        let q' : f ≡ e = cc in
        (
          n ∙ q,
          subst (λ (u : EntityRow). u.type_name ≡ type_name) q' (same→eq f.type_name type_name t),
        )
  ]
]

pub found-typed_row :
    (type_name : Text) (id : ℕ) (es : List EntityRow) (e : EntityRow)
    → find_by_id row_id id es ≡ some e
    → e.type_name ≡ type_name
    → typed_row type_name id es ≡ some e
unfolding typed_row
found-typed_row type_name id es e h t = rw (h, t, same_refl type_name) refl

Joins-Belongs :
    (g : Graph) (x : ℕ) (name : Text)
    → Joins g.entities g.edges x name
    → Belongs g x (λ e. group_name e ≡ name)
unfolding is_edge
Joins-Belongs g x name (r, e, m, i, t, n) =
    let (found, kind) = typed_row-found (text "Group") r.target_entity_id g.entities e t in
    (
      r,
      e,
      m,
      (==_iff r.subject_entity_id x).0 (ground arith),
      same→eq r.relation_type (text "member_of") (ground arith),
      found,
      kind,
      n,
    )

Belongs-Joins :
    (g : Graph) (x : ℕ) (name : Text)
    → Belongs g x (λ e. group_name e ≡ name)
    → Joins g.entities g.edges x name
unfolding is_edge
Belongs-Joins g x name (r, e, m, s, k, found, kind, n) =
    let subject = (==_iff r.subject_entity_id x).1 s in
    (
      r,
      e,
      m,
      rw (subject, k, same_refl (text "member_of")) refl,
      found-typed_row (text "Group") r.target_entity_id g.entities e found kind,
      n,
    )

Belongs-map :
    (g : Graph) (x : ℕ) (P Q : EntityRow → Type 0)
    → ((e : EntityRow) → P e → Q e)
    → Belongs g x P
    → Belongs g x Q
Belongs-map g x P Q f (r, e, m, s, k, found, kind, n) = (r, e, m, s, k, found, kind, f e n)

module _ (g : Graph) (x : ℕ) where
  pub names_iff :
      (name : Text)
      → (has_group (group_names g.entities x g.edges) name ≡ true)
        ↔ Belongs g x (λ e. group_name e ≡ name)
  names_iff name = (
    λ h. Joins-Belongs g x name ((group_names_iff g.entities g.edges x name).0 h),
    λ b. (group_names_iff g.entities g.edges x name).1 (Belongs-Joins g x name b),
  )

  pub admin_iff :
      (has_group (group_names g.entities x g.edges) (text "oad:admin") ≡ true)
      ↔ Belongs g x (StandsFor (text "oad:admin") (text "oad-admin"))
  admin_iff = (
    λ h. Belongs-map g x _ _ group_name-StandsFor_admin ((names_iff (text "oad:admin")).0 h),
    λ b. (names_iff (text "oad:admin")).1 (Belongs-map g x _ _ StandsFor-group_name_admin b),
  )

  pub system_admin_iff :
      (has_group (group_names g.entities x g.edges) (text "oad:system-admin") ≡ true)
      ↔ Belongs g x (StandsFor (text "oad:system-admin") (text "oad-system-admin"))
  system_admin_iff = (
    λ h.
        Belongs-map g x _ _ group_name-StandsFor_system_admin
          ((names_iff (text "oad:system-admin")).0 h),
    λ b.
        (names_iff (text "oad:system-admin")).1
          (Belongs-map g x _ _ StandsFor-group_name_system_admin b),
  )
