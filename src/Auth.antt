-- ===== src/Auth.antt =====
-- internal/auth: the caller's identity, its roles, and how it is resolved (identity.go, resolver.go, mtls.go).
pub mod Cache
pub mod Middleware
mod Roles
pub mod Graph
pub mod Resolving
mod Tests
use oad.Base.{
  ℕ, Bool, true, false, not, ◌&&◌, ◌||◌, Option, none, some, List, [], ◌∷◌, ◌++◌, if◌then◌else◌,
  Result, ok, err, ◌>>=◌, guard,
}
use oad.Scim.Text.{Text, text, same}

-- Identity; a UUID is a number, 0 for the zero UUID.
pub record Identity : Type 0 where
  pub subject : Text
  pub provider : Text
  pub entity_id : ℕ
  pub groups : List Text
  pub allowed_systems : List ℕ
  pub is_platform_admin : Bool
  pub is_system_admin : Bool
  pub active_system_id : Option ℕ
  pub auth_mode : Text

-- slices.Contains(id.Groups, externalID)
unfoldable pub has_group : List Text → Text → Bool
unfolding same
has_group [] name = false
has_group (g ∷ gs) name = same g name || has_group gs name

-- HasRole
unfoldable pub has_role : Identity → Text → Bool
unfolding same has_group
has_role id role =
    let admin = id.is_platform_admin in
    let system_admin = admin || id.is_system_admin in
    let editor = system_admin || has_group id.groups (text "oad:editor") in
    let viewer = editor || has_group id.groups (text "oad:viewer") in
    if same role (text "admin")
    then admin
    else if same role (text "system-admin")
    then system_admin
    else if same role (text "editor")
    then editor
    else if same role (text "viewer")
    then viewer
    else false

-- HasAnyRole
unfoldable pub has_any_role : Identity → List Text → Bool
unfolding has_role
has_any_role id [] = false
has_any_role id (role ∷ roles) = has_role id role || has_any_role id roles

-- ErrNotProvisioned, ErrDisabled, and any other error.
pub data AuthError : Type 0 where
  not_provisioned disabled failed : AuthError

-- ResolverRepository, which queries PostgreSQL.
pub record ResolverRepository : Type 0 where
  pub find_entity_id : Text → Text → Result AuthError ℕ
  pub is_active : ℕ → Result AuthError Bool
  pub groups_of : ℕ → Result AuthError (List Text)
  pub allowed_systems_of : ℕ → List Text → Result AuthError (List ℕ)

-- The loop over the groups at the end of Resolve.
unfoldable pub mark_admin : List Text → Identity → Identity
unfolding same
mark_admin [] id = id
mark_admin (g ∷ gs) id =
    if same g (text "oad:admin")
    then mark_admin gs (record id { is_platform_admin = true })
    else if same g (text "oad:system-admin")
    then mark_admin gs (record id { is_system_admin = true })
    else mark_admin gs id

-- IdentityResolver.Resolve
unfoldable pub resolve : ResolverRepository → Text → Text → Result AuthError Identity
unfolding mark_admin
resolve repo provider sub = do
  entity_id ← repo.find_entity_id provider sub
  active ← repo.is_active entity_id
  _ ← guard active disabled
  groups ← repo.groups_of entity_id
  allowed_systems ← repo.allowed_systems_of entity_id groups
  ok (
      mark_admin groups (record {
        subject = sub;
        provider = provider;
        entity_id = entity_id;
        groups = groups;
        allowed_systems = allowed_systems;
        is_platform_admin = false;
        is_system_admin = false;
        active_system_id = none;
        auth_mode = text "jwt";
      }))

-- The loop of buildMTLSIdentity.
unfoldable pub add_units : List Text → Identity → Identity
unfolding same
add_units [] id = id
add_units (ou ∷ ous) id =
    if same ou (text "admin")
    then add_units ous (record id { is_platform_admin = true })
    else if same ou (text "editor")
    then add_units ous (record id { groups = id.groups ++ (text "oad:editor" ∷ []) })
    else if same ou (text "viewer")
    then add_units ous (record id { groups = id.groups ++ (text "oad:viewer" ∷ []) })
    else add_units ous id

-- buildMTLSIdentity
unfoldable pub build_mtls_identity : Text → List Text → Identity
unfolding add_units
build_mtls_identity cn ous = add_units ous (record {
  subject = cn;
  provider = text "mtls";
  entity_id = 0;
  groups = [];
  allowed_systems = [];
  is_platform_admin = false;
  is_system_admin = false;
  active_system_id = none;
  auth_mode = text "mtls";
})

-- The leaf certificate of a TLS connection.
pub record Certificate : Type 0 where
  common_name : Text
  organizational_units : List Text

-- MTLSAuthenticator.Authenticate, on the certificate and the header of the load balancer.
unfoldable pub authenticate_mtls : Option Certificate → Text → Result AuthError Identity
unfolding build_mtls_identity same
authenticate_mtls (some cert) header =
    ok (build_mtls_identity cert.common_name cert.organizational_units)
authenticate_mtls none header =
    if same header [] then err failed else ok (build_mtls_identity header [])
