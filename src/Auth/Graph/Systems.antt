-- ===== src/Auth/Graph/Systems.antt =====
-- Which systems the queries of AllowedSystems give (internal/auth/resolver.go).
use oad.Base.{
  ℕ, ◌≡◌, refl, sym, ◌∙◌, subst, Bool, true, false, not, ◌&&◌, ◌||◌, some, List, [], ◌∷◌, ◌==◌,
  ==_iff, arith, if◌then◌else◌, Bool-cases, Option-cases, inl, inr, ◌↔◌, ◌⊎◌,
}
use mathlib.Core.List.Memᴰ
use mathlib.Core.List.{Memᴰ}
use oad.Scim.Text.{Text, text, same, same→eq, same_refl}
use oad.Scim.Groups.Members.{contains}
use oad.Scim.Store.{EntityRow, row_id}
use oad.Table.{find_by_id}
use oad.Auth.{has_group}
use oad.Auth.Graph.{Edge, Graph, typed_row, ids_named, systems_of}
use oad.Auth.Graph.Standing.{typed_row-found, found-typed_row}

-- A role of one of the subjects in a system.
abbrev Grants : List EntityRow → List Edge → List ℕ → ℕ → Type 0
Grants es rs subjects system =
    (r : Edge) × (e : EntityRow) × Memᴰ r rs
    × (same r.relation_type (text "has_role_in") ≡ true)
    × (contains subjects r.subject_entity_id ≡ true)
    × (typed_row (text "System") r.target_entity_id es ≡ some e)
    × (r.target_entity_id ≡ system)

Grants-more :
    (es : List EntityRow) (s : Edge) (rs : List Edge) (subjects : List ℕ) (system : ℕ)
    → Grants es rs subjects system
    → Grants es (s ∷ rs) subjects system
Grants-more es s rs subjects system (r, e, m, k, c, t, q) = (r, e, Memᴰ.tail m, k, c, t, q)

-- Without regard to DISTINCT: whether a row grants a role in the system to one of the subjects.
abbrev grants : List ℕ → ℕ → Edge → Bool
grants subjects system r =
    same r.relation_type (text "has_role_in")
    && (contains subjects r.subject_entity_id && (r.target_entity_id == system))

distinct :
    (xs : List ℕ) (x y : ℕ)
    → contains (if not (contains xs x) then x ∷ xs else xs) y ≡ (contains xs y || (x == y))
unfolding contains
distinct xs x y = elim (Bool-cases (contains xs x)) [
  | inr n ↦ rw n (ground arith)
  | inl h ↦ rw h (elim (Bool-cases (x == y)) [
    | inr e ↦ rw e (ground arith)
    | inl e ↦
        let h' : contains xs y ≡ true = subst (λ z. contains xs z ≡ true) ((==_iff x y).0 e) h in
        rw h' refl
  ])
]

contains-systems_of :
    (es : List EntityRow) (r : Edge) (rs : List Edge) (subjects : List ℕ) (system : ℕ)
    (e : EntityRow)
    → typed_row (text "System") r.target_entity_id es ≡ some e
    → contains (systems_of es subjects (r ∷ rs)) system
      ≡ (contains (systems_of es subjects rs) system || grants subjects system r)
unfolding systems_of
contains-systems_of es r rs subjects system e t =
    elim (Bool-cases (same r.relation_type (text "has_role_in"))) [
      | inr k ↦ rw (contains, t, k) (ground arith)
      | inl k ↦ elim (Bool-cases (contains subjects r.subject_entity_id)) [
        | inr c ↦ rw (contains, t, k, c) (ground arith)
        | inl c ↦
            rw (contains, t, k, c) (distinct (systems_of es subjects rs) r.target_entity_id system)
      ]
    ]

systems_of-Grants :
    (es : List EntityRow) (rs : List Edge) (subjects : List ℕ) (system : ℕ)
    → contains (systems_of es subjects rs) system ≡ true
    → Grants es rs subjects system
unfolding systems_of contains
systems_of-Grants es [] subjects system h = let bad : false ≡ true = h in cc
systems_of-Grants es (r ∷ rs) subjects system h =
    elim (Option-cases (typed_row (text "System") r.target_entity_id es)) [
      | inl t ↦
          Grants-more es r rs subjects system
            (systems_of-Grants es rs subjects system (rw (contains, t) at h))
      | inr (e, t) ↦
          let h' = sym (contains-systems_of es r rs subjects system e t) ∙ h in
          elim (Bool-cases (contains (systems_of es subjects rs) system)) [
            | inl m ↦
                Grants-more es r rs subjects system (systems_of-Grants es rs subjects system m)
            | inr m ↦
                let g : grants subjects system r ≡ true = rw m at h' in
                (
                  r,
                  e,
                  Memᴰ.head refl,
                  ground arith,
                  ground arith,
                  t,
                  (==_iff r.target_entity_id system).0 (ground arith),
                )
          ]
    ]

Grants-systems_of :
    (es : List EntityRow) (rs : List Edge) (subjects : List ℕ) (system : ℕ)
    → Grants es rs subjects system
    → contains (systems_of es subjects rs) system ≡ true
unfolding systems_of contains
Grants-systems_of es [] subjects system (r, e, m, k, c, t, q) = absurd (Memᴰ.not-nil m)
Grants-systems_of es (s ∷ rs) subjects system (r, e, Memᴰ.head p, k, c, t, q) =
    let t' = subst (λ (u : Edge). typed_row (text "System") u.target_entity_id es ≡ some e) p t in
    let k' = subst (λ (u : Edge). same u.relation_type (text "has_role_in") ≡ true) p k in
    let c' = subst (λ (u : Edge). contains subjects u.subject_entity_id ≡ true) p c in
    let q' =
      (==_iff s.target_entity_id system).1
        (subst (λ (u : Edge). u.target_entity_id ≡ system) p q) in
    contains-systems_of es s rs subjects system e t' ∙ rw (k', c', q') (ground arith)
Grants-systems_of es (s ∷ rs) subjects system (r, e, Memᴰ.tail m, k, c, t, q) =
    let ih = Grants-systems_of es rs subjects system (r, e, m, k, c, t, q) in
    elim (Option-cases (typed_row (text "System") s.target_entity_id es)) [
      | inl u ↦ rw (contains, u) ih
      | inr (d, u) ↦ contains-systems_of es s rs subjects system d u ∙ rw ih refl
    ]

-- An entity of any type whose external identifier is one of the names.
abbrev IsNamed : List EntityRow → List Text → ℕ → Type 0
IsNamed es names i =
    (e : EntityRow) × Memᴰ e es × (has_group names e.external_id ≡ true) × (e.id ≡ i)

IsNamed-more :
    (es : List EntityRow) (d : EntityRow) (names : List Text) (i : ℕ)
    → IsNamed es names i
    → IsNamed (d ∷ es) names i
IsNamed-more es d names i (e, m, h, q) = (e, Memᴰ.tail m, h, q)

ids_named-IsNamed :
    (es : List EntityRow) (names : List Text) (i : ℕ)
    → contains (ids_named names es) i ≡ true
    → IsNamed es names i
unfolding ids_named contains
ids_named-IsNamed [] names i h = let bad : false ≡ true = h in cc
ids_named-IsNamed (e ∷ es) names i h = elim (Bool-cases (has_group names e.external_id)) [
  | inr k ↦ IsNamed-more es e names i (ids_named-IsNamed es names i (rw (contains, k) at h))
  | inl k ↦ elim (Bool-cases (e.id == i)) [
    | inl q ↦ (e, Memᴰ.head refl, k, (==_iff e.id i).0 q)
    | inr q ↦ IsNamed-more es e names i (ids_named-IsNamed es names i (rw (contains, k, q) at h))
  ]
]

IsNamed-ids_named :
    (es : List EntityRow) (names : List Text) (i : ℕ)
    → IsNamed es names i
    → contains (ids_named names es) i ≡ true
unfolding ids_named contains
IsNamed-ids_named [] names i (e, m, h, q) = absurd (Memᴰ.not-nil m)
IsNamed-ids_named (d ∷ es) names i (e, Memᴰ.head p, h, q) =
    let h' = subst (λ (u : EntityRow). has_group names u.external_id ≡ true) p h in
    let q' = (==_iff d.id i).1 (subst (λ (u : EntityRow). u.id ≡ i) p q) in
    rw (contains, h', q') refl
IsNamed-ids_named (d ∷ es) names i (e, Memᴰ.tail m, h, q) =
    let ih = IsNamed-ids_named es names i (e, m, h, q) in
    elim (Bool-cases (has_group names d.external_id)) [
      | inr k ↦ rw (contains, k) ih
      | inl k ↦ rw (contains, k, ih) (ground arith)
    ]

-- A role in a system of an entity, or of one that has one of the names as its external identifier.
abbrev pub GrantsTo : Graph → ℕ → List Text → ℕ → Type 0
GrantsTo g id names s =
    (r : Edge) × (e : EntityRow) × Memᴰ r g.edges
    × (r.relation_type ≡ text "has_role_in")
    × ((id ≡ r.subject_entity_id) ⊎ IsNamed g.entities names r.subject_entity_id)
    × (find_by_id row_id r.target_entity_id g.entities ≡ some e)
    × (e.type_name ≡ text "System")
    × (r.target_entity_id ≡ s)

module _ (g : Graph) where
  Grants-GrantsTo :
      (id : ℕ) (names : List Text) (s : ℕ)
      → Grants g.entities g.edges (id ∷ ids_named names g.entities) s
      → GrantsTo g id names s
  unfolding contains
  Grants-GrantsTo id names s (r, e, m, k, c, t, q) =
      let k' = same→eq r.relation_type (text "has_role_in") k in
      let (found, kind) = typed_row-found (text "System") r.target_entity_id g.entities e t in
      elim (Bool-cases (id == r.subject_entity_id)) [
        | inl i ↦ (r, e, m, k', inl ((==_iff id r.subject_entity_id).0 i), found, kind, q)
        | inr i ↦
            let named =
              ids_named-IsNamed g.entities names r.subject_entity_id (rw (contains, i) at c) in
            (r, e, m, k', inr named, found, kind, q)
      ]

  named-contains :
      (id : ℕ) (names : List Text) (x : ℕ)
      → (id ≡ x) ⊎ IsNamed g.entities names x
      → contains (id ∷ ids_named names g.entities) x ≡ true
  unfolding contains
  named-contains id names x (inl i) = rw ((==_iff id x).1 i) refl
  named-contains id names x (inr n) = rw (IsNamed-ids_named g.entities names x n) (ground arith)

  GrantsTo-Grants :
      (id : ℕ) (names : List Text) (s : ℕ)
      → GrantsTo g id names s
      → Grants g.entities g.edges (id ∷ ids_named names g.entities) s
  GrantsTo-Grants id names s (r, e, m, k, c, found, kind, q) = (
    r,
    e,
    m,
    rw k (same_refl (text "has_role_in")),
    named-contains id names r.subject_entity_id c,
    found-typed_row (text "System") r.target_entity_id g.entities e found kind,
    q,
  )

  pub contains_iff :
      (id : ℕ) (names : List Text) (s : ℕ)
      → (contains (systems_of g.entities (id ∷ ids_named names g.entities) g.edges) s ≡ true)
        ↔ GrantsTo g id names s
  contains_iff id names s =
      let subjects = id ∷ ids_named names g.entities in
      (
        λ c. Grants-GrantsTo id names s (systems_of-Grants g.entities g.edges subjects s c),
        λ t. Grants-systems_of g.entities g.edges subjects s (GrantsTo-Grants id names s t),
      )
