-- ===== src/Auth/Graph/Tests.antt =====
-- Runs of the queries of internal/auth/resolver.go.
use oad.Base.{
  ℕ, ◌≡◌, refl, sym, ap, ◌∙◌, Bool, true, false, Option, none, some, [], ◌∷◌, if◌then◌else◌, ◌↔◌,
  Result, ok, err,
}
use mathlib.Core.List.Memᴰ
use mathlib.Core.List.{Memᴰ}
use oad.Scim.Text.{Text, text, same}
use oad.Scim.Json.{Json, str}
use oad.Scim.Properties.{Properties, display_name_key, active_key}
use oad.Scim.Store.{EntityRow, ExternalIdentity}
use oad.Auth.{AuthError, Identity, not_provisioned, disabled, failed, resolve}
use oad.Auth.Graph.{Edge, Graph, Query, systems_query, ids_named, resolver_repository}
use oad.Auth.Graph.Granted.{IsGranted, resolve-IsGranted}
use oad.Auth.Graph.Linked.{Unambiguous, Reads, HasAccount}
use oad.Auth.Graph.Provisioned.{resolve_iff}

-- The texts that PostgreSQL casts to true, of those that are used here.
abbrev sample_cast : Json → Option Bool
unfolding same
sample_cast (str s) = if same s (text "on") then some true else none
sample_cast _ = none

abbrev entity : ℕ → Text → Text → Properties → EntityRow
entity id type_name external_id properties = record {
  id = id;
  type_name = type_name;
  external_id = external_id;
  properties = properties;
  is_builtin = false;
  created_at = 0;
  updated_at = 0;
}

abbrev admins : EntityRow
admins =
    entity 2 (text "Group") (text "scim:okta:g1") ((display_name_key, str (text "oad-admin")) ∷ [])

abbrev edge : ℕ → Text → ℕ → Edge
edge subject relation_type target = record {
  subject_entity_id = subject;
  relation_type = relation_type;
  target_entity_id = target;
}

-- Ann is a member of the group that an identity provider calls oad-admin, and of an entity that is no group. The group
-- has a role in the system 3, the built-in group of the name oad:admin in 4, Ann in 5 and twice in 3.
abbrev sample_graph : Graph
sample_graph = record {
  entities =
      entity 1 (text "User") (text "scim:okta:u1") ((active_key, str (text "on")) ∷ [])
      ∷ admins
      ∷ entity 3 (text "System") (text "crm") []
      ∷ entity 4 (text "System") (text "erp") []
      ∷ entity 5 (text "System") (text "hr") []
      ∷ entity 6 (text "Group") (text "oad:admin") []
      ∷ entity 7 (text "Team") (text "oad:system-admin") []
      ∷ [];
  links = record { entity_id = 1; provider_name = text "okta"; external_subject = text "ann" } ∷ [];
  edges =
      edge 1 (text "member_of") 2
      ∷ edge 1 (text "member_of") 7
      ∷ edge 2 (text "has_role_in") 3
      ∷ edge 6 (text "has_role_in") 4
      ∷ edge 1 (text "has_role_in") 5
      ∷ edge 1 (text "has_role_in") 5
      ∷ edge 1 (text "owns") 3
      ∷ [];
}

abbrev never : Query → Bool
never q = false

-- The role of the group 2 in the system 3 is not found, since the group goes by the name of the group 6.
abbrev ann : Identity
ann = record {
  subject = text "ann";
  provider = text "okta";
  entity_id = 1;
  groups = text "oad:admin" ∷ [];
  allowed_systems = 4 ∷ 5 ∷ [];
  is_platform_admin = true;
  is_system_admin = false;
  active_system_id = none;
  auth_mode = text "jwt";
}

resolve-ann :
    resolve (resolver_repository sample_cast never sample_graph) (text "okta") (text "ann") ≡ ok ann
unfolding resolve resolver_repository
resolve-ann = refl

resolve-IsGranted_example : IsGranted sample_cast sample_graph (text "okta") (text "ann") ann
resolve-IsGranted_example =
    resolve-IsGranted sample_cast never sample_graph (text "okta") (text "ann") ann resolve-ann

-- There is one link.
sample-Unambiguous : Unambiguous sample_graph.links
sample-Unambiguous provider subject x y (l, Memᴰ.head p, h1, h2, h) (m, Memᴰ.head q, k1, k2, k) =
    sym h ∙ (ap (λ (n : ExternalIdentity). n.entity_id) (p ∙ sym q) ∙ k)
sample-Unambiguous provider subject x y (l, Memᴰ.tail i, h1, h2, h) second = absurd (Memᴰ.not-nil i)
sample-Unambiguous provider subject x y (l, Memᴰ.head p, h1, h2, h) (m, Memᴰ.tail j, k1, k2, k) =
    absurd (Memᴰ.not-nil j)

abbrev resolved : Text → Result AuthError Identity
resolved subject =
    resolve (resolver_repository sample_cast never sample_graph) (text "okta") subject

abbrev AccountOf : Text → (Option Json → Type 0) → Type 0
AccountOf subject P = HasAccount sample_cast sample_graph (text "okta") subject P

resolve_iff_example :
    (((id : Identity) × (resolved (text "ann") ≡ ok id))
      ↔ AccountOf (text "ann") (Reads sample_cast true))
    × ((resolved (text "ann") ≡ err not_provisioned) ↔ (AccountOf (text "ann") (λ flag. Unit) → ⊥))
    × ((resolved (text "ann") ≡ err disabled) ↔ AccountOf (text "ann") (Reads sample_cast false))
resolve_iff_example =
    resolve_iff sample_cast never sample_graph (λ q. refl) (text "okta") (text "ann")
      sample-Unambiguous

resolve_unknown :
    resolve (resolver_repository sample_cast never sample_graph) (text "okta") (text "bob")
    ≡ err not_provisioned
unfolding resolve resolver_repository
resolve_unknown = refl

-- The last query fails.
abbrev last : Query → Bool
last systems_query = true
last _ = false

resolve_failed :
    resolve (resolver_repository sample_cast last sample_graph) (text "okta") (text "ann")
    ≡ err failed
unfolding resolve resolver_repository
resolve_failed = refl

-- An entity of any type lends its roles to the members of a group with its external identifier.
ids_named-any_type :
    ids_named (text "oad:editor" ∷ []) (
      entity 8 (text "Group") (text "oad:editor") []
      ∷ entity 9 (text "Document") (text "oad:editor") []
      ∷ [])
    ≡ 8 ∷ 9 ∷ []
unfolding ids_named
ids_named-any_type = refl
