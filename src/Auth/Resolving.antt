-- ===== src/Auth/Resolving.antt =====
-- What IdentityResolver.Resolve returns (internal/auth/resolver.go).
use oad.Base.{
  ◌≡◌, refl, subst, Bool, true, false, ◌||◌, none, List, [], ◌∷◌, Bool-cases, inl, inr, Result, ok,
  err, Result-cases,
}
use oad.Scim.Text.{Text, text, same, same→eq}
use oad.Auth.{Identity, has_group, ResolverRepository, AuthError, mark_admin, resolve}

-- An identity with further flags.
abbrev flagged : Identity → Bool → Bool → Identity
flagged id admin system_admin = record id {
  is_platform_admin = id.is_platform_admin || admin;
  is_system_admin = id.is_system_admin || system_admin;
}

or_false : (b : Bool) → b ≡ (b || false)
or_false true = refl
or_false false = refl

or_true : (b c : Bool) → (true || c) ≡ (b || (true || c))
or_true true c = refl
or_true false c = refl

mark_admin-flagged :
    (gs : List Text) (id : Identity)
    → mark_admin gs id
      ≡ flagged id (has_group gs (text "oad:admin")) (has_group gs (text "oad:system-admin"))
unfolding mark_admin has_group
mark_admin-flagged [] id = rw (← or_false id.is_platform_admin, ← or_false id.is_system_admin) refl
mark_admin-flagged (g ∷ gs) id = elim (Bool-cases (same g (text "oad:admin"))) [
  | inl e ↦
      rw
        (
          same→eq g (text "oad:admin") e,
          mark_admin-flagged gs (record id { is_platform_admin = true }),
          ← or_true id.is_platform_admin (has_group gs (text "oad:admin")),
        )
        refl
  | inr e ↦ elim (Bool-cases (same g (text "oad:system-admin"))) [
    | inl e₁ ↦
        rw
          (
            same→eq g (text "oad:system-admin") e₁,
            mark_admin-flagged gs (record id { is_system_admin = true }),
            ← or_true id.is_system_admin (has_group gs (text "oad:system-admin")),
          )
          refl
    | inr e₁ ↦ rw (e, e₁) (mark_admin-flagged gs id)
  ]
]

module _ (repo : ResolverRepository) (provider sub : Text) where
  -- The answers of the repository that an identity comes from.
  abbrev IsResolved : Identity → Type 0
  IsResolved id =
      (repo.find_entity_id provider sub ≡ ok id.entity_id)
      × (repo.is_active id.entity_id ≡ ok true)
      × (repo.groups_of id.entity_id ≡ ok id.groups)
      × (repo.allowed_systems_of id.entity_id id.groups ≡ ok id.allowed_systems)
      × (id.is_platform_admin ≡ has_group id.groups (text "oad:admin"))
      × (id.is_system_admin ≡ has_group id.groups (text "oad:system-admin"))
      × (id.active_system_id ≡ none)
      × (id.subject ≡ sub)
      × (id.provider ≡ provider)

  abbrev Returned : Result AuthError Identity → Type 0
  Returned (ok id) = IsResolved id
  Returned (err e) = Unit

  resolve-Returned : Returned (resolve repo provider sub)
  unfolding resolve
  resolve-Returned = elim (Result-cases (repo.find_entity_id provider sub)) [
    | inr (e, h) ↦ rw h tt
    | inl (entity, h) ↦ elim (Result-cases (repo.is_active entity)) [
      | inr (e, h₁) ↦ rw (h, h₁) tt
      | inl (false, h₁) ↦ rw (h, h₁) tt
      | inl (true, h₁) ↦ elim (Result-cases (repo.groups_of entity)) [
        | inr (e, h₂) ↦ rw (h, h₁, h₂) tt
        | inl (groups, h₂) ↦ elim (Result-cases (repo.allowed_systems_of entity groups)) [
          | inr (e, h₃) ↦ rw (h, h₁, h₂, h₃) tt
          | inl (systems, h₃) ↦
              rw (h, h₁, h₂, h₃, mark_admin-flagged) (h, h₁, h₂, h₃, refl, refl, refl, refl, refl)
        ]
      ]
    ]
  ]

  -- Whoever is resolved is linked to an entity that is active, has that entity's groups and systems, is
  -- an admin exactly by the groups oad:admin and oad:system-admin, and starts without an active system.
  pub resolve-IsResolved : (id : Identity) → resolve repo provider sub ≡ ok id → IsResolved id
  resolve-IsResolved id h = subst Returned h resolve-Returned
