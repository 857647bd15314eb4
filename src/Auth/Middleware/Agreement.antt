-- ===== src/Auth/Middleware/Agreement.antt =====
-- The two checks of a system against an identity: that of the header X-OAD-System-Id
-- (internal/api/middleware/auth.go), and that of a path parameter (internal/api/middleware/authz.go).
use oad.Base.{
  ℕ, ◌≡◌, refl, false, Option, some, [], ==_refl, Bool-cases, Option-cases, inl, inr, Result, ok,
  err,
}
use oad.Scim.Text.{Text, same}
use oad.Errors.{ApiError}
use oad.Auth.{Identity, ResolverRepository}
use oad.Auth.Middleware.{
  Server, set_heap, system_in_allowed, set_active_system, require_path_system, require_system_scope,
  is_some, found,
}

-- The answer without the pointer.
abbrev pub answered : Result ApiError ℕ → Result ApiError (Unit {0})
answered (ok a) = ok tt
answered (err e) = err e

-- What the checks that follow say of the identity behind the pointer.
abbrev pub Follows : (Text → Option ℕ) → Text → Result ApiError ℕ × Server → Type 0
Follows parse_uuid header (ok a, s) =
    (require_path_system parse_uuid header (s.heap a) ≡ ok tt)
    × (require_system_scope (s.heap a) ≡ ok tt)
Follows parse_uuid header (err e, s) = Unit

module _ (parse_uuid : Text → Option ℕ) (authenticate_raw : Text → Option (Text × Text))
    (repo : ResolverRepository) (capacity ttl : ℕ) where
  -- On an identity, a header that is not empty gets the answer that RequirePathSystemInScope gives
  -- to a path parameter of the same text, the errors included; where it is accepted, the identity that goes on
  -- passes RequirePathSystemInScope for that text, and RequireSystemScope.
  pub set_active_system-require_path_system :
      (header : Text) (a : ℕ) (s : Server) (id : Identity)
      → same header [] ≡ false
      → s.heap a ≡ some id
      → (answered (set_active_system parse_uuid authenticate_raw repo capacity ttl header a s).0
          ≡ require_path_system parse_uuid header (some id))
        × Follows parse_uuid header
            (set_active_system parse_uuid authenticate_raw repo capacity ttl header a s)
  unfolding set_active_system set_heap require_path_system require_system_scope is_some found
  set_active_system-require_path_system header a s id given n =
      elim (Option-cases (parse_uuid header)) [
        | inl h ↦ rw (given, h) (refl, tt)
        | inr (system, h) ↦ elim (Bool-cases id.is_platform_admin) [
          | inl p ↦ rw (given, h, n, p, ==_refl a) (refl, (rw h refl, refl))
          | inr p ↦ elim (Bool-cases (system_in_allowed system id.allowed_systems)) [
            | inl q ↦ rw (given, h, n, p, q, ==_refl a) (refl, (rw (h, q) refl, refl))
            | inr q ↦ rw (given, h, n, p, q) (refl, tt)
          ]
        ]
      ]
