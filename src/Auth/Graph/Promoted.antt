-- ===== src/Auth/Graph/Promoted.antt =====
-- How a PUT of a SCIM group (internal/scim/groups/service.go) decides who is resolved as an admin
-- (internal/auth/resolver.go).
mod Tests
use oad.Base.{
  ℕ, ◌≡◌, refl, sym, ap, ◌∙◌, subst, Bool, true, false, ◌&&◌, Option, none, some, List, [], ◌∷◌,
  ◌==◌, ==_iff, arith, if◌then◌else◌, Bool-cases, Option-cases, inl, inr, ◌↔◌, ◌⊎◌, Result, ok,
}
use mathlib.Core.List.Memᴰ
use mathlib.Core.List.{Memᴰ}
use oad.Scim.Text.{Text, text, same, same_refl}
use oad.Scim.Json.{Json, str}
use oad.Scim.Properties.{get_property, display_name_key}
use oad.Scim.Groups.Members.{contains}
use oad.Scim.Groups.Membership.{joined_at, is_some}
use oad.Scim.Groups.Repository.{GroupInput, StoredGroup, group_properties}
use oad.Scim.Groups.Service.{parse_member_ids, replace_group}
use oad.Scim.Groups.Replaced.{IsChanged, ByPayload, replace_group-IsChanged}
use oad.Scim.Store.{ScimError, EntityRow, MemberOf, Tables, Conditions, row_id}
use oad.Scim.Store.Settled.{Settled}
use oad.Auth.{Identity, resolve}
use oad.Auth.Graph.{Edge, Graph, Query, starts_with_scim, resolver_repository}
use oad.Auth.Graph.Standing.{Belongs, StandsFor}
use oad.Auth.Graph.Granted.{resolve-IsGranted}
use oad.Table.{find_by_id}

-- The rows of relation: the memberships, and others.
abbrev membership_edge : MemberOf → Edge
membership_edge m = record {
  subject_entity_id = m.subject_entity_id;
  relation_type = text "member_of";
  target_entity_id = m.target_entity_id;
}

abbrev edges_of : List MemberOf → List Edge → List Edge
edges_of [] others = others
edges_of (m ∷ ms) others = membership_edge m ∷ edges_of ms others

abbrev pub graph_of : Tables → List Edge → Graph
graph_of t others = record {
  entities = t.entities;
  links = t.links;
  edges = edges_of t.memberships others;
}

-- A member_of of an entity to a group.
abbrev IsMembership : ℕ → ℕ → Edge → Type 0
IsMembership group x r =
    (r.subject_entity_id ≡ x) × (r.relation_type ≡ text "member_of") × (r.target_entity_id ≡ group)

joined_at-edge :
    (group x : ℕ) (ms : List MemberOf) (others : List Edge)
    → is_some (joined_at group x ms) ≡ true
    → (r : Edge) × Memᴰ r (edges_of ms others) × IsMembership group x r
unfolding joined_at
joined_at-edge group x [] others h = let bad : false ≡ true = h in cc
joined_at-edge group x (m ∷ ms) others h =
    elim (Bool-cases ((m.subject_entity_id == x) && (m.target_entity_id == group))) [
      | inl e ↦ (
        membership_edge m,
        Memᴰ.head refl,
        (
          (==_iff m.subject_entity_id x).0 (ground arith),
          refl,
          (==_iff m.target_entity_id group).0 (ground arith),
        ),
      )
      | inr e ↦ let (r, k, i) = joined_at-edge group x ms others (rw e at h) in (r, Memᴰ.tail k, i)
    ]

edge-joined_at :
    (group x : ℕ) (ms : List MemberOf) (others : List Edge) (r : Edge)
    → ((s : Edge) → Memᴰ s others → same s.relation_type (text "member_of") ≡ false)
    → Memᴰ r (edges_of ms others)
    → IsMembership group x r
    → is_some (joined_at group x ms) ≡ true
unfolding joined_at
edge-joined_at group x [] others r no_others m (s, k, t) =
    let bad : true ≡ false =
      sym (same_refl (text "member_of"))
      ∙ subst (λ u. same u (text "member_of") ≡ false) k (no_others r m) in
    cc
edge-joined_at group x (m ∷ ms) others r no_others (Memᴰ.head q) (s, k, t) =
    let s' =
      (==_iff m.subject_entity_id x).1 (ap (λ (u : Edge). u.subject_entity_id) (sym q) ∙ s) in
    let t' =
      (==_iff m.target_entity_id group).1 (ap (λ (u : Edge). u.target_entity_id) (sym q) ∙ t) in
    rw (s', t') refl
edge-joined_at group x (m ∷ ms) others r no_others (Memᴰ.tail d) i =
    elim (Bool-cases ((m.subject_entity_id == x) && (m.target_entity_id == group))) [
      | inl e ↦ rw e refl
      | inr e ↦ rw e (edge-joined_at group x ms others r no_others d i)
    ]

-- A membership in another group that stands for the role of a platform admin.
abbrev pub Elsewhere : Graph → ℕ → ℕ → Type 0
Elsewhere g group x =
    (r : Edge) × (e : EntityRow) × Memᴰ r g.edges
    × (r.subject_entity_id ≡ x)
    × (r.relation_type ≡ text "member_of")
    × ((r.target_entity_id == group) ≡ false)
    × (find_by_id row_id r.target_entity_id g.entities ≡ some e)
    × (e.type_name ≡ text "Group")
    × StandsFor (text "oad:admin") (text "oad-admin") e

is_some-if : (b : Bool) (n : ℕ) → is_some (if b then some n else none) ≡ b
is_some-if true n = refl
is_some-if false n = refl

module _ (g : Graph) (group : ℕ) (row : EntityRow) (x : ℕ)
    (found : find_by_id row_id group g.entities ≡ some row) (kind : row.type_name ≡ text "Group")
    (stands : StandsFor (text "oad:admin") (text "oad-admin") row) where
  -- Who belongs to a group of admins belongs to this one or to another one.
  Belongs_iff :
      Belongs g x (StandsFor (text "oad:admin") (text "oad-admin"))
      ↔ (((r : Edge) × Memᴰ r g.edges × IsMembership group x r) ⊎ Elsewhere g group x)
  Belongs_iff = (
    λ (r, e, m, s, k, f, t, n). elim (Bool-cases (r.target_entity_id == group)) [
      | inl h ↦ inl (r, m, (s, k, (==_iff r.target_entity_id group).0 h))
      | inr h ↦ inr (r, e, m, s, k, h, f, t, n)
    ],
    back,
  )
    where
      back :
          ((r : Edge) × Memᴰ r g.edges × IsMembership group x r) ⊎ Elsewhere g group x
          → Belongs g x (StandsFor (text "oad:admin") (text "oad-admin"))
      back (inl (r, m, (s, k, t))) = (
        r,
        row,
        m,
        s,
        k,
        subst (λ n. find_by_id row_id n g.entities ≡ some row) (sym t) found,
        kind,
        stands,
      )
      back (inr (r, e, m, s, k, h, f, t, n)) = (r, e, m, s, k, f, t, n)

some_injective : {a b : EntityRow} → some a ≡ some b → a ≡ b
some_injective h = cc

ok_injective :
    {ids ids' : List ℕ} → ◌≡◌ {A = Result ScimError (List ℕ)} (ok ids) (ok ids') → ids ≡ ids'
ok_injective h = cc

displayed :
    (in_group : GroupInput) (row : EntityRow)
    → row.properties ≡ group_properties in_group
    → in_group.display_name ≡ text "oad-admin"
    → get_property display_name_key row.properties ≡ some (str (text "oad-admin"))
unfolding group_properties get_property same
displayed in_group row p n = ap (get_property display_name_key) p ∙ ap (λ t. some (str t)) n

module _ (parse_uuid : Text → Option ℕ) (env : Conditions) (provider : Text)
    (cast_boolean : Json → Option Bool) (fails : Query → Bool) (others : List Edge)
    (no_others : (r : Edge) → Memᴰ r others → same r.relation_type (text "member_of") ≡ false) where
  -- After a PUT that succeeds and gives a group of SCIM the display name oad-admin: who is resolved is a platform admin
  -- exactly if the payload names its entity as a member, or if it is a member of another group that stands for that
  -- role. All rows of relation with member_of are taken to be memberships that the tables hold.
  pub replace_group-resolve :
      (id : ℕ) (in_group : GroupInput) (t t' : Tables) (stored : StoredGroup) (wanted : List ℕ)
      (row : EntityRow) (token_provider subject : Text) (who : Identity)
      → replace_group parse_uuid env provider id in_group t ≡ (ok stored, t')
      → parse_member_ids parse_uuid in_group.members ≡ ok wanted
      → in_group.display_name ≡ text "oad-admin"
      → find_by_id row_id id t'.entities ≡ some row
      → row.type_name ≡ text "Group"
      → starts_with_scim row.external_id ≡ true
      → resolve (resolver_repository cast_boolean fails (graph_of t' others)) token_provider subject
        ≡ ok who
      → (who.is_platform_admin ≡ true)
        ↔ ((contains wanted who.entity_id ≡ true) ⊎ Elsewhere (graph_of t' others) id who.entity_id)
  replace_group-resolve id in_group t t' stored wanted row token_provider subject who h members name
        found kind scim resolved =
      let g = graph_of t' others in
      let x = who.entity_id in
      let admin =
        (resolve-IsGranted cast_boolean fails g token_provider subject who resolved).admin in
      let (before, props, wanted', read, (props_are, wanted_are), replaced, logged) : IsChanged
          (ByPayload parse_uuid in_group) env provider id t stored t' =
        subst
          (λ (r : Result _ StoredGroup × Tables).
            Settled (IsChanged (ByPayload parse_uuid in_group) env provider id t) t r)
          h (replace_group-IsChanged parse_uuid env provider id in_group t) in
      let same_wanted : wanted' ≡ wanted = ok_injective (sym wanted_are ∙ members) in
      let joined : is_some (joined_at id x t'.memberships) ≡ contains wanted x =
        ap is_some (replaced.members.0 x)
        ∙ (is_some-if (contains wanted' x) _ ∙ ap (λ ids. contains ids x) same_wanted) in
      let (row', found', stored_props) = replaced.stored in
      let same_row : row ≡ row' = some_injective (sym found ∙ found') in
      let props_of_row : row.properties ≡ group_properties in_group =
        ap (λ (r : EntityRow). r.properties) same_row ∙ (stored_props ∙ props_are) in
      let stands = inr (scim, displayed in_group row props_of_row name) in
      let belongs = Belongs_iff g id row x found kind stands in
      (
        λ a. elim (belongs.0 (admin.0 a)) [
          | inl (r, m, i) ↦
              inl (sym joined ∙ edge-joined_at id x t'.memberships others r no_others m i)
          | inr e ↦ inr e
        ],
        λ c. admin.1 (
            belongs.1 (elim c [
              | inl w ↦ inl (joined_at-edge id x t'.memberships others (joined ∙ w))
              | inr e ↦ inr e
            ])),
      )
