-- ===== src/Auth/Middleware.antt =====
-- internal/api/middleware: authentication of a request (auth.go), and the checks of roles and systems that
-- follow it (authz.go). Identities live on a heap: the cache and the request share the pointer.
pub mod Scope
pub mod Agreement
pub mod Shared
use oad.Base.{
  ℕ, suc, Bool, true, false, not, ◌&&◌, ◌||◌, Option, none, some, List, [], ◌∷◌, ◌==◌,
  if◌then◌else◌, Result, ok, err, ◌>>=◌, ◌>>◌, guard,
}
use oad.Errors.{ApiError, bad_request, unauthorized, forbidden, service_unavailable, internal}
use oad.Scim.Text.{Text, text, same}
use oad.Auth.{
  Identity, has_role, has_any_role, AuthError, not_provisioned, disabled, failed,
  ResolverRepository, resolve, Certificate, authenticate_mtls,
}
use oad.Auth.Cache.{Cache, cache_key, lookup, store}

-- What of a request is read, and the times at which its clock is.
pub record Request : Type 0 where
  pub authorization : Text
  pub certificate : Option Certificate
  pub certificate_header : Text
  pub system_header : Text
  pub asked_at : ℕ
  pub stored_at : ℕ

pub record Server : Type 0 where
  pub cache : Cache
  pub heap : ℕ → Option Identity
  pub next_address : ℕ

unfoldable pub set_heap : (ℕ → Option Identity) → ℕ → Identity → ℕ → Option Identity
set_heap heap a id x = if a == x then some id else heap x

-- `&Identity{…}`
unfoldable allocate : Identity → Server → ℕ × Server
unfolding set_heap
allocate id s = (
  s.next_address,
  record s { heap = set_heap s.heap s.next_address id; next_address = suc s.next_address },
)

-- systemInAllowed, and slices.Contains
unfoldable pub system_in_allowed : ℕ → List ℕ → Bool
system_in_allowed id [] = false
system_in_allowed id (a ∷ rest) = (a == id) || system_in_allowed id rest

-- strings.CutPrefix
unfoldable pub cut_prefix : Text → Text → Option Text
cut_prefix s [] = some s
cut_prefix [] (p ∷ ps) = none
cut_prefix (c ∷ s) (p ∷ ps) = let rest = cut_prefix s ps in if c == p then rest else none

-- uuid.Parse, JWTAuthenticator.AuthenticateRaw, and the queries of the resolver.
module _ (parse_uuid : Text → Option ℕ) (authenticate_raw : Text → Option (Text × Text))
    (repo : ResolverRepository) (capacity ttl : ℕ) where
  -- IdentityCache.Resolve
  unfoldable pub cached_resolve : Request → Text → Text → Server → Result AuthError ℕ × Server
  unfolding cache_key lookup store resolve allocate
  cached_resolve r provider sub s =
      let key = cache_key provider sub in
      let (hit, looked) = lookup key r.asked_at s.cache in
      let s₁ : Server = record s { cache = looked } in
      elim hit [
        | some a ↦ (ok a, s₁)
        | none ↦ elim (resolve repo provider sub) [
          | err e ↦ (err e, s₁)
          | ok id ↦
              let (a, s₂) = allocate id s₁ in
              (ok a, record s₂ { cache = store capacity ttl key a r.stored_at s₂.cache })
        ]
      ]

  -- resolveJWT
  unfoldable pub resolve_jwt : Request → Server → Result AuthError ℕ × Server
  unfolding cut_prefix cached_resolve same
  resolve_jwt r s =
      if same r.authorization []
      then (err failed, s)
      else elim (cut_prefix r.authorization (text "Bearer ")) [
        | none ↦ (err failed, s)
        | some token ↦ elim (authenticate_raw token) [
          | none ↦ (err failed, s)
          | some (provider, sub) ↦ cached_resolve r provider sub s
        ]
      ]

  unfoldable resolve_mtls : Request → Server → Result AuthError ℕ × Server
  unfolding authenticate_mtls allocate
  resolve_mtls r s = elim (authenticate_mtls r.certificate r.certificate_header) [
    | err e ↦ (err e, s)
    | ok id ↦ let (a, s₁) = allocate id s in (ok a, s₁)
  ]

  -- mTLS, where a JWT has failed and there is an authenticator for certificates.
  unfoldable fall_back : Bool → Request → Result AuthError ℕ × Server → Result AuthError ℕ × Server
  unfolding resolve_mtls
  fall_back has_mtls r (ok a, s) = (ok a, s)
  fall_back has_mtls r (err e, s) = if has_mtls then resolve_mtls r s else (err e, s)

  -- The switch on the mode; `none` for a mode that is not supported.
  unfoldable pub identify : Text → Bool → Request → Server → Option (Result AuthError ℕ × Server)
  unfolding same resolve_jwt resolve_mtls fall_back
  identify mode has_mtls r s =
      if same mode (text "jwt")
      then some (resolve_jwt r s)
      else if same mode (text "mtls")
      then some (resolve_mtls r s)
      else if same mode (text "both")
      then some (fall_back has_mtls r (resolve_jwt r s))
      else none

  -- The answer to an error of authentication.
  unfoldable pub answer : AuthError → ApiError
  answer not_provisioned = service_unavailable
  answer disabled = forbidden
  answer failed = unauthorized

  -- The header X-OAD-System-Id: the active system is set on the identity that the pointer leads to.
  unfoldable pub set_active_system : Text → ℕ → Server → Result ApiError ℕ × Server
  unfolding same system_in_allowed set_heap
  set_active_system header a s = if same header [] then (ok a, s) else elim (parse_uuid header) [
    | none ↦ (err bad_request, s)
    | some system ↦ elim (s.heap a) [
      | none ↦ (err internal, s)
      | some id ↦
          if not id.is_platform_admin && not (system_in_allowed system id.allowed_systems)
          then (err forbidden, s)
          else (
            ok a,
            record s { heap = set_heap s.heap a (record id { active_system_id = some system }) },
          )
    ]
  ]

  -- Authentication: the address of the identity that the next handler gets, or the answer.
  unfoldable pub authenticate : Text → Bool → Request → Server → Result ApiError ℕ × Server
  unfolding identify answer set_active_system
  authenticate mode has_mtls r s = elim (identify mode has_mtls r s) [
    | none ↦ (err internal, s)
    | some (err e, s₁) ↦ (err (answer e), s₁)
    | some (ok a, s₁) ↦ set_active_system r.system_header a s₁
  ]

-- The middlewares of authz.go, on the identity in the context: an answer, or the next handler.
unfoldable pub found : Option Identity → Result ApiError Identity
found none = err unauthorized
found (some id) = ok id

-- RequireRole
unfoldable require_role : Text → Option Identity → Result ApiError (Unit {0})
unfolding found has_role
require_role role caller = do id ← found caller; guard (has_role id role) forbidden

-- RequireAnyRole
unfoldable require_any_role : List Text → Option Identity → Result ApiError (Unit {0})
unfolding found has_any_role
require_any_role roles caller = do id ← found caller; guard (has_any_role id roles) forbidden

-- RequirePlatformAdmin
unfoldable require_platform_admin : Option Identity → Result ApiError (Unit {0})
unfolding found
require_platform_admin caller = do id ← found caller; guard id.is_platform_admin forbidden

-- RequirePathSystemInScope, on the path parameter.
unfoldable pub require_path_system :
    (Text → Option ℕ) → Text → Option Identity → Result ApiError (Unit {0})
unfolding found system_in_allowed
require_path_system parse_uuid raw caller = do
  id ← found caller
  elim (parse_uuid raw) [
    | none ↦ err bad_request
    | some system ↦
        if id.is_platform_admin
        then ok tt
        else guard (system_in_allowed system id.allowed_systems) forbidden
  ]

unfoldable pub is_some {ℓ} : {A : Type ℓ} → Option A → Bool
is_some none = false
is_some (some a) = true

-- RequireSystemScope
unfoldable pub require_system_scope : Option Identity → Result ApiError (Unit {0})
unfolding found is_some
require_system_scope caller = do id ← found caller; guard (is_some id.active_system_id) bad_request
