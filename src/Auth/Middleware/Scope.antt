-- ===== src/Auth/Middleware/Scope.antt =====
-- The active system of a request (internal/api/middleware/auth.go), and what it is checked against.
use oad.Base.{
  ℕ, ◌≡◌, refl, subst, Bool, true, false, not, ◌&&◌, ◌||◌, Option, some, [], ==_refl, Bool-cases,
  Option-cases, inl, inr, Result, ok, err,
}
use oad.Scim.Text.{Text, same}
use oad.Errors.{ApiError}
use oad.Auth.{Identity, ResolverRepository}
use oad.Auth.Middleware.{
  Request, Server, set_heap, system_in_allowed, identify, set_active_system, authenticate,
}

either : (a b : Bool) → (not a && not b) ≡ false → (a || b) ≡ true
either true b h = refl
either false true h = refl
either false false h = cc

module _ (parse_uuid : Text → Option ℕ) where
  -- The identity that a pointer leads to has the header's system active, and may do so.
  abbrev pub IsScoped : Text → ℕ → Server → Type 0
  IsScoped header a s =
      (system : ℕ) × (id : Identity) × (parse_uuid header ≡ some system)
      × (s.heap a ≡ some id)
      × (id.active_system_id ≡ some system)
      × ((id.is_platform_admin || system_in_allowed system id.allowed_systems) ≡ true)

module _ (parse_uuid : Text → Option ℕ) (authenticate_raw : Text → Option (Text × Text))
    (repo : ResolverRepository) (capacity ttl : ℕ) where
  abbrev Passes : Text → Result ApiError ℕ × Server → Type 0
  Passes header (ok a, s) = IsScoped parse_uuid header a s
  Passes header (err e, s) = Unit

  set_active_system-Passes :
      (header : Text) (a : ℕ) (s : Server)
      → same header [] ≡ false
      → Passes header (set_active_system parse_uuid authenticate_raw repo capacity ttl header a s)
  unfolding set_active_system set_heap
  set_active_system-Passes header a s given = elim (Option-cases (parse_uuid header)) [
    | inl h ↦ rw (given, h) tt
    | inr (system, h) ↦ elim (Option-cases (s.heap a)) [
      | inl n ↦ rw (given, h, n) tt
      | inr (id, n) ↦
          elim (Bool-cases
            (not id.is_platform_admin && not (system_in_allowed system id.allowed_systems))) [
              | inl refused ↦ rw (given, h, n, refused) tt
              | inr passed ↦
                  rw (given, h, n, passed)
                    (
                      system,
                      record id { active_system_id = some system },
                      h,
                      rw (==_refl a) refl,
                      refl,
                      either id.is_platform_admin _ passed,
                    )
            ]
    ]
  ]

  authenticate-Passes :
      (mode : Text) (has_mtls : Bool) (r : Request) (s : Server)
      → same r.system_header [] ≡ false
      → Passes r.system_header
          (authenticate parse_uuid authenticate_raw repo capacity ttl mode has_mtls r s)
  unfolding authenticate
  authenticate-Passes mode has_mtls r s given =
      elim (Option-cases
        (identify parse_uuid authenticate_raw repo capacity ttl mode has_mtls r s)) [
          | inl h ↦ rw (authenticate, h) tt
          | inr ((err e, s₁), h) ↦ rw (authenticate, h) tt
          | inr ((ok a, s₁), h) ↦
              rw (authenticate, h) (set_active_system-Passes r.system_header a s₁ given)
        ]

  -- A request with the header X-OAD-System-Id that passes authentication, in whatever mode, goes on with an
  -- identity whose active system is the one that the header names, and that system is one of the
  -- identity's, unless the identity is a platform admin.
  pub authenticate-IsScoped :
      (mode : Text) (has_mtls : Bool) (r : Request) (s s' : Server) (a : ℕ)
      → same r.system_header [] ≡ false
      → authenticate parse_uuid authenticate_raw repo capacity ttl mode has_mtls r s ≡ (ok a, s')
      → IsScoped parse_uuid r.system_header a s'
  authenticate-IsScoped mode has_mtls r s s' a given h =
      subst (λ q. Passes r.system_header q) h (authenticate-Passes mode has_mtls r s given)
