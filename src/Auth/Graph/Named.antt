-- ===== src/Auth/Graph/Named.antt =====
-- Which names of groups the query of Groups gives (internal/auth/resolver.go).
use oad.Base.{
  ℕ, ◌≡◌, refl, subst, Bool, true, false, ◌||◌, some, List, [], ◌∷◌, Bool-cases, Option-cases, inl,
  inr, ◌↔◌,
}
use mathlib.Core.List.Memᴰ
use mathlib.Core.List.{Memᴰ}
use oad.Scim.Text.{Text, text, same, same→eq, same_refl}
use oad.Scim.Store.{EntityRow}
use oad.Auth.{has_group}
use oad.Auth.Graph.{Edge, is_edge, typed_row, group_name, group_names}

-- A membership of an entity in a group that goes by a name.
abbrev pub Joins : List EntityRow → List Edge → ℕ → Text → Type 0
Joins es rs x name =
    (r : Edge) × (g : EntityRow) × Memᴰ r rs
    × (is_edge r x (text "member_of") ≡ true)
    × (typed_row (text "Group") r.target_entity_id es ≡ some g)
    × (group_name g ≡ name)

or_true : (b : Bool) → (b || true) ≡ true
or_true true = refl
or_true false = refl

Joins-more :
    (es : List EntityRow) (rs : List Edge) (s : Edge) (x : ℕ) (name : Text)
    → Joins es rs x name
    → Joins es (s ∷ rs) x name
Joins-more es rs s x name (r, g, m, e, t, n) = (r, g, Memᴰ.tail m, e, t, n)

group_names-Joins :
    (es : List EntityRow) (rs : List Edge) (x : ℕ) (name : Text)
    → has_group (group_names es x rs) name ≡ true
    → Joins es rs x name
unfolding group_names has_group
group_names-Joins es [] x name h = let bad : false ≡ true = h in cc
group_names-Joins es (r ∷ rs) x name h =
    elim (Option-cases (typed_row (text "Group") r.target_entity_id es)) [
      | inl t ↦ Joins-more es rs r x name (group_names-Joins es rs x name (rw (has_group, t) at h))
      | inr (g, t) ↦ elim (Bool-cases (is_edge r x (text "member_of"))) [
        | inr e ↦
            Joins-more es rs r x name (group_names-Joins es rs x name (rw (has_group, t, e) at h))
        | inl e ↦ elim (Bool-cases (same (group_name g) name)) [
          | inl n ↦ (r, g, Memᴰ.head refl, e, t, same→eq (group_name g) name n)
          | inr n ↦
              Joins-more es rs r x name
                (group_names-Joins es rs x name (rw (has_group, t, e, n) at h))
        ]
      ]
    ]

Joins-group_names :
    (es : List EntityRow) (rs : List Edge) (x : ℕ) (name : Text)
    → Joins es rs x name
    → has_group (group_names es x rs) name ≡ true
unfolding group_names has_group
Joins-group_names es [] x name (r, g, m, e, t, n) = absurd (Memᴰ.not-nil m)
Joins-group_names es (s ∷ rs) x name (r, g, Memᴰ.head q, e, t, n) =
    let t' : typed_row (text "Group") s.target_entity_id es ≡ some g =
      subst (λ (u : Edge). typed_row (text "Group") u.target_entity_id es ≡ some g) q t in
    let e' : is_edge s x (text "member_of") ≡ true =
      subst (λ (u : Edge). is_edge u x (text "member_of") ≡ true) q e in
    rw (has_group, t', e', n, same_refl name) refl
Joins-group_names es (s ∷ rs) x name (r, g, Memᴰ.tail m, e, t, n) =
    let ih = Joins-group_names es rs x name (r, g, m, e, t, n) in
    elim (Option-cases (typed_row (text "Group") s.target_entity_id es)) [
      | inl u ↦ rw (has_group, u) ih
      | inr (h, u) ↦ elim (Bool-cases (is_edge s x (text "member_of"))) [
        | inr f ↦ rw (has_group, u, f) ih
        | inl f ↦ rw (has_group, u, f, ih) (or_true (same (group_name h) name))
      ]
    ]

pub group_names_iff :
    (es : List EntityRow) (rs : List Edge) (x : ℕ) (name : Text)
    → (has_group (group_names es x rs) name ≡ true) ↔ Joins es rs x name
group_names_iff es rs x name = (group_names-Joins es rs x name, Joins-group_names es rs x name)
