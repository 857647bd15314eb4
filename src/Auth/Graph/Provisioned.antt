-- ===== src/Auth/Graph/Provisioned.antt =====
-- What IdentityResolver.Resolve answers when no query fails (internal/auth/resolver.go).
use oad.Base.{
  ℕ, ◌≡◌, refl, sym, ◌∙◌, Bool, true, false, Option, none, some, List, [], ◌∷◌, ◌↔◌, Option-cases,
  Result-cases, inl, inr, ◌⊎◌, Result, ok, err,
}
use oad.Scim.Text.{Text, text}
use oad.Scim.Json.{Json}
use oad.Scim.Properties.{get_property, active_key}
use oad.Scim.Store.{EntityRow, row_id}
use oad.Auth.{AuthError, not_provisioned, disabled, failed, Identity, resolve, mark_admin}
use oad.Auth.Graph.{
  Graph, Query, linked_entity, active_flag, find_entity_id, is_active, groups_of, group_ids,
  allowed_systems_of, resolver_repository, group_names, ids_named, systems_of,
}
use oad.Auth.Graph.Linked.{
  Unambiguous, Reads, HasAccount, linked_entity-IsLinked, linked_entity_iff, active_flag-Reads,
  Reads-active_flag, active_flag-failed,
}
use oad.Auth.Graph.Granted.{IsActive, resolve-IsGranted}
use oad.Table.{find_by_id}

-- Before the groups are looked at.
abbrev unmarked : Text → Text → ℕ → List Text → List ℕ → Identity
unmarked provider subject x groups systems = record {
  subject = subject;
  provider = provider;
  entity_id = x;
  groups = groups;
  allowed_systems = systems;
  is_platform_admin = false;
  is_system_admin = false;
  active_system_id = none;
  auth_mode = text "jwt";
}

module _ (cast_boolean : Json → Option Bool) (fails : Query → Bool) (g : Graph) where
  -- When no query fails.
  module _ (succeed : (q : Query) → fails q ≡ false) where
    group_ids-ok :
        (names : List Text) → (ids : List ℕ) × (group_ids cast_boolean fails g names ≡ ok ids)
    unfolding group_ids
    group_ids-ok [] = ([], refl)
    group_ids-ok (name ∷ names) = (ids_named (name ∷ names) g.entities, rw succeed refl)

    allowed_systems_of-ok :
        (id : ℕ) (names : List Text)
        → (systems : List ℕ) × (allowed_systems_of cast_boolean fails g id names ≡ ok systems)
    unfolding allowed_systems_of
    allowed_systems_of-ok id names =
        let (ids, h) = group_ids-ok names in
        (systems_of g.entities (id ∷ ids) g.edges, rw (h, succeed) refl)

    find_entity_id-ok :
        (provider subject : Text) (x : ℕ)
        → linked_entity provider subject g.links ≡ some x
        → find_entity_id cast_boolean fails g provider subject ≡ ok x
    unfolding find_entity_id
    find_entity_id-ok provider subject x h = rw (succeed, h) refl

    is_active-ok : (x : ℕ) → IsActive cast_boolean g x → is_active cast_boolean fails g x ≡ ok true
    unfolding is_active
    is_active-ok x (e, f, a) = rw (succeed, f, a) refl

    groups_of-ok :
        (x : ℕ) → groups_of cast_boolean fails g x ≡ ok (group_names g.entities x g.edges)
    unfolding groups_of
    groups_of-ok x = rw succeed refl

    resolve-returns :
        (provider subject : Text) (x : ℕ)
        → linked_entity provider subject g.links ≡ some x
        → IsActive cast_boolean g x
        → (id : Identity) × (resolve (resolver_repository cast_boolean fails g) provider subject
            ≡ ok id)
    unfolding resolve resolver_repository
    resolve-returns provider subject x h a =
        let groups = group_names g.entities x g.edges in
        let (systems, s) = allowed_systems_of-ok x groups in
        (
          mark_admin groups (unmarked provider subject x groups systems),
          rw (find_entity_id-ok provider subject x h, is_active-ok x a, groups_of-ok x, s) refl,
        )

    module _ (provider subject : Text) where
      abbrev Resolves : Result AuthError Identity → Type 0
      Resolves r = resolve (resolver_repository cast_boolean fails g) provider subject ≡ r

      unlinked : linked_entity provider subject g.links ≡ none → Resolves (err not_provisioned)
      unfolding resolve resolver_repository find_entity_id
      unlinked h = rw (succeed, h) refl

      missing :
          (x : ℕ)
          → linked_entity provider subject g.links ≡ some x
          → find_by_id row_id x g.entities ≡ none
          → Resolves (err not_provisioned)
      unfolding resolve resolver_repository is_active
      missing x h n = rw (find_entity_id-ok provider subject x h, is_active, succeed, n) refl

      -- The entity that a subject is linked to.
      module _ (x : ℕ) (e : EntityRow) (h : linked_entity provider subject g.links ≡ some x)
          (found : find_by_id row_id x g.entities ≡ some e) where
        abbrev Flag : Result AuthError Bool → Type 0
        Flag r = active_flag cast_boolean (get_property active_key e.properties) ≡ r

        unreadable : (q : AuthError) → Flag (err q) → Resolves (err failed)
        unfolding resolve resolver_repository is_active
        unreadable q k =
            let kind = active_flag-failed cast_boolean _ q k in
            rw (find_entity_id-ok provider subject x h, is_active, succeed, found, k, kind) refl

        inactive : Flag (ok false) → Resolves (err disabled)
        unfolding resolve resolver_repository is_active
        inactive k = rw (find_entity_id-ok provider subject x h, is_active, succeed, found, k) refl

        -- Its flag tells the answer.
        told :
            (r : Result AuthError Identity)
            → Resolves r
            → ((id : Identity) × (r ≡ ok id))
              ⊎ ((r ≡ err disabled) × Flag (ok false))
              ⊎ (r ≡ err failed)
        told r h' =
            elim (Result-cases (active_flag cast_boolean (get_property active_key e.properties))) [
              | inr (q, k) ↦ inr (inr (sym h' ∙ unreadable q k))
              | inl (false, k) ↦ inr (inl (sym h' ∙ inactive k, k))
              | inl (true, k) ↦
                  let (id, r_id) = resolve-returns provider subject x h (e, found, k) in
                  inl (id, sym h' ∙ r_id)
            ]

      -- There is no account, or one.
      account :
          (Resolves (err not_provisioned))
          ⊎ ((x : ℕ) × (e : EntityRow) × (linked_entity provider subject g.links ≡ some x)
              × (find_by_id row_id x g.entities ≡ some e))
      account = elim (Option-cases (linked_entity provider subject g.links)) [
        | inl n ↦ inl (unlinked n)
        | inr (x, h) ↦ elim (Option-cases (find_by_id row_id x g.entities)) [
          | inl n ↦ inl (missing x h n)
          | inr (e, found) ↦ inr (x, e, h, found)
        ]
      ]

      not_provisioned-lacks :
          Unambiguous g.links
          → Resolves (err not_provisioned)
          → HasAccount cast_boolean g provider subject (λ flag. Unit)
          → ⊥
      not_provisioned-lacks one h (x, e, l, found, u) =
          elim (told x e ((linked_entity_iff provider subject g.links x one).1 l) found _ h) [
            | inl (id, bad) ↦ cc
            | inr (inl (bad, k)) ↦ cc
            | inr (inr bad) ↦ cc
          ]

      lacks-not_provisioned :
          (HasAccount cast_boolean g provider subject (λ flag. Unit) → ⊥)
          → Resolves (err not_provisioned)
      lacks-not_provisioned nobody = elim account [
        | inl h ↦ h
        | inr (x, e, h, found) ↦
            absurd (nobody (x, e, linked_entity-IsLinked provider subject g.links x h, found, tt))
      ]

      disabled-Reads :
          Resolves (err disabled)
          → HasAccount cast_boolean g provider subject (Reads cast_boolean false)
      disabled-Reads r = elim account [
        | inl h ↦ let bad : err not_provisioned ≡ err disabled = sym h ∙ r in cc
        | inr (x, e, h, found) ↦ elim (told x e h found _ r) [
          | inl (id, bad) ↦ cc
          | inr (inl (_, k)) ↦ (
            x,
            e,
            linked_entity-IsLinked provider subject g.links x h,
            found,
            active_flag-Reads cast_boolean false _ k,
          )
          | inr (inr bad) ↦ cc
        ]
      ]

    -- When no query fails and no two links of the same provider and subject lead to different entities, a token's
    -- subject is resolved exactly if a link under its provider leads to an entity that is there and whose active flag
    -- is absent, null, true, or of another kind and read as true by the database; it is reported as not provisioned
    -- exactly if no link leads to an entity that is there, and as disabled exactly if the flag of one is false, or
    -- of another kind and read as false. The groups and the systems of the entity do not matter.
    pub resolve_iff :
        (provider subject : Text)
        → Unambiguous g.links
        → (((id : Identity) × (resolve (resolver_repository cast_boolean fails g) provider subject
                ≡ ok id))
            ↔ HasAccount cast_boolean g provider subject (Reads cast_boolean true))
          × ((resolve (resolver_repository cast_boolean fails g) provider subject
                ≡ err not_provisioned)
              ↔ (HasAccount cast_boolean g provider subject (λ flag. Unit) → ⊥))
          × ((resolve (resolver_repository cast_boolean fails g) provider subject ≡ err disabled)
              ↔ HasAccount cast_boolean g provider subject (Reads cast_boolean false))
    resolve_iff provider subject one =
        let link = λ (x : ℕ). linked_entity_iff provider subject g.links x one in
        (
          (
            λ (id, h).
                let granted = resolve-IsGranted cast_boolean fails g provider subject id h in
                let (e, found, flag) = granted.active in
                (
                  id.entity_id,
                  e,
                  (link id.entity_id).0 granted.linked,
                  found,
                  active_flag-Reads cast_boolean true _ flag,
                ),
            λ (x, e, l, found, flag).
                resolve-returns provider subject x ((link x).1 l)
                  (e, found, Reads-active_flag cast_boolean true _ flag),
          ),
          (not_provisioned-lacks provider subject one, lacks-not_provisioned provider subject),
          (
            disabled-Reads provider subject,
            λ (x, e, l, found, flag).
                inactive provider subject x e ((link x).1 l) found
                  (Reads-active_flag cast_boolean false _ flag),
          ),
        )
