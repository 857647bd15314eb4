-- ===== src/Auth/Graph/Granted.antt =====
-- Who is resolved by all queries (internal/auth/resolver.go).
use oad.Base.{
  ℕ, ◌≡◌, refl, sym, ◌∙◌, ap, subst, Bool, true, Option, some, List, [], ◌∷◌, Bool-cases,
  Option-cases, inl, inr, ◌↔◌, ok, err, Yields, >>=-Yields,
}
use oad.Scim.Text.{Text, text}
use oad.Scim.Json.{Json}
use oad.Scim.Groups.Members.{contains}
use oad.Scim.Store.{EntityRow, row_id}
use oad.Scim.Properties.{get_property, active_key}
use oad.Table.{find_by_id}
use oad.Auth.{Identity, has_group, resolve, failed, not_provisioned}
use oad.Auth.Resolving.{resolve-IsResolved}
use oad.Auth.Graph.{
  Graph, Query, entity_id_query, groups_query, group_ids_query, systems_query, group_names,
  group_name, ids_named, systems_of, linked_entity, active_flag, active_query, is_active,
  find_entity_id, groups_of, group_ids, allowed_systems_of, resolver_repository,
}
use oad.Auth.Graph.Systems.{GrantsTo, contains_iff}
use oad.Auth.Graph.Standing.{Belongs, StandsFor, names_iff, admin_iff, system_admin_iff}

-- An entity with the id whose flag reads as active.
abbrev pub IsActive : (Json → Option Bool) → Graph → ℕ → Type 0
IsActive cast_boolean g id =
    (e : EntityRow) × (find_by_id row_id id g.entities ≡ some e)
    × (active_flag cast_boolean (get_property active_key e.properties) ≡ ok true)

-- What the queries answer for a user who is linked to an entity.
pub record IsGranted (cast_boolean : Json → Option Bool) (g : Graph) (provider subject : Text)
    (id : Identity) : Type 0 where
  pub token : (id.provider ≡ provider) × (id.subject ≡ subject)
  pub linked : linked_entity provider subject g.links ≡ some id.entity_id
  pub active : IsActive cast_boolean g id.entity_id
  pub named :
      (name : Text)
      → (has_group id.groups name ≡ true) ↔ Belongs g id.entity_id (λ e. group_name e ≡ name)
  pub admin :
      (id.is_platform_admin ≡ true)
      ↔ Belongs g id.entity_id (StandsFor (text "oad:admin") (text "oad-admin"))
  pub system_admin :
      (id.is_system_admin ≡ true)
      ↔ Belongs g id.entity_id (StandsFor (text "oad:system-admin") (text "oad-system-admin"))
  pub systems :
      (s : ℕ) → (contains id.allowed_systems s ≡ true) ↔ GrantsTo g id.entity_id id.groups s

module _ (cast_boolean : Json → Option Bool) (fails : Query → Bool) (g : Graph) where
  find_entity_id-linked :
      (provider subject : Text)
      → Yields
          (λ id. linked_entity provider subject g.links ≡ some id)
          (find_entity_id cast_boolean fails g provider subject)
  unfolding find_entity_id
  find_entity_id-linked provider subject = elim (Bool-cases (fails entity_id_query)) [
    | inl f ↦ rw f tt
    | inr f ↦ elim (Option-cases (linked_entity provider subject g.links)) [
      | inl n ↦ rw (f, n) tt
      | inr (id, n) ↦ rw (f, n) refl
    ]
  ]

  is_active-IsActive :
      (id : ℕ) → is_active cast_boolean fails g id ≡ ok true → IsActive cast_boolean g id
  unfolding is_active
  is_active-IsActive id h = elim (Bool-cases (fails active_query)) [
    | inl f ↦ let bad : err failed ≡ ok true = rw f at h in cc
    | inr f ↦ elim (Option-cases (find_by_id row_id id g.entities)) [
      | inl n ↦ let bad : err not_provisioned ≡ ok true = rw (f, n) at h in cc
      | inr (e, n) ↦ (e, n, rw (f, n) at h)
    ]
  ]

  groups_of-names :
      (id : ℕ)
      → Yields
          (λ names. names ≡ group_names g.entities id g.edges)
          (groups_of cast_boolean fails g id)
  unfolding groups_of
  groups_of-names id = elim (Bool-cases (fails groups_query)) [
    | inl f ↦ rw f tt
    | inr f ↦ rw f refl
  ]

  ids_named-nil : (es : List EntityRow) → ids_named [] es ≡ []
  unfolding ids_named has_group
  ids_named-nil [] = refl
  ids_named-nil (e ∷ es) = ids_named-nil es

  group_ids-named :
      (names : List Text)
      → Yields (λ ids. ids ≡ ids_named names g.entities) (group_ids cast_boolean fails g names)
  unfolding group_ids
  group_ids-named [] = sym (ids_named-nil g.entities)
  group_ids-named (name ∷ names) = elim (Bool-cases (fails group_ids_query)) [
    | inl f ↦ rw f tt
    | inr f ↦ rw f refl
  ]

  -- What the last two queries answer.
  abbrev Answers : ℕ → List Text → List ℕ → Type 0
  Answers id names systems =
      systems ≡ systems_of g.entities (id ∷ ids_named names g.entities) g.edges

  allowed_systems_of-Answers :
      (id : ℕ) (names : List Text)
      → Yields (Answers id names) (allowed_systems_of cast_boolean fails g id names)
  unfolding allowed_systems_of
  allowed_systems_of-Answers id names =
      >>=-Yields (Answers id names) (group_ids cast_boolean fails g names) _ (λ ids h.
        let ids_eq =
          subst (Yields (λ js. js ≡ ids_named names g.entities)) h (group_ids-named names) in
        elim (Bool-cases (fails systems_query)) [ inl f ↦ rw f tt | inr f ↦ rw (f, ids_eq) refl ])

  -- Over all queries: who is resolved has the provider and the subject of the token; is linked under them to an
  -- entity whose active flag is absent, null or reads as true; has the names of the groups that the entity is a
  -- member of; is an admin of the platform, or of systems, exactly by a group with the role's name or by one that
  -- SCIM has made with the role's display name; and may act in exactly the systems in which the entity, or an
  -- entity of whatever type with the name of one of the groups as its external identifier, has a role.
  pub resolve-IsGranted :
      (provider subject : Text) (id : Identity)
      → resolve (resolver_repository cast_boolean fails g) provider subject ≡ ok id
      → IsGranted cast_boolean g provider subject id
  unfolding resolver_repository
  resolve-IsGranted provider subject id h =
      let (found, active, groups, systems, admin, system_admin, none_active, sub, prov) =
        resolve-IsResolved (resolver_repository cast_boolean fails g) provider subject id h in
      let names : id.groups ≡ group_names g.entities id.entity_id g.edges =
        subst (Yields (λ names. names ≡ group_names g.entities id.entity_id g.edges)) groups
          (groups_of-names id.entity_id) in
      let link : linked_entity provider subject g.links ≡ some id.entity_id =
        subst (Yields (λ e. linked_entity provider subject g.links ≡ some e)) found
          (find_entity_id-linked provider subject) in
      let answers =
        subst (Yields (Answers id.entity_id id.groups)) systems
          (allowed_systems_of-Answers id.entity_id id.groups) in
      record {
        token = (prov, sub);
        linked = link;
        active = is_active-IsActive id.entity_id active;
        named = λ name.
            subst
              (λ gs. (has_group gs name ≡ true) ↔ Belongs g id.entity_id (λ e. group_name e ≡ name))
              (sym names) (names_iff g id.entity_id name);
        admin =
            subst
              (λ b.
                (b ≡ true)
                ↔ Belongs g id.entity_id (StandsFor (text "oad:admin") (text "oad-admin")))
              (sym (admin ∙ ap (λ gs. has_group gs (text "oad:admin")) names))
              (admin_iff g id.entity_id);
        system_admin =
            subst
              (λ b.
                (b ≡ true)
                ↔ Belongs g id.entity_id
                    (StandsFor (text "oad:system-admin") (text "oad-system-admin")))
              (sym (system_admin ∙ ap (λ gs. has_group gs (text "oad:system-admin")) names))
              (system_admin_iff g id.entity_id);
        systems = λ s.
            subst (λ xs. (contains xs s ≡ true) ↔ GrantsTo g id.entity_id id.groups s) (sym answers)
              (contains_iff g id.entity_id id.groups s);
      }
