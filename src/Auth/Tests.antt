-- ===== src/Auth/Tests.antt =====
-- Runs of internal/auth and of the authentication middleware.
use oad.Base.{
  ℕ, ◌+◌, ◌-◌, ◌≤◌, ◌<◌, ◌≡◌, refl, arith, true, false, Option, none, some, List, [], ◌∷◌, length,
  ok, err,
}
use oad.Errors.{forbidden}
use oad.Scim.Text.{Text, text, same}
use oad.Auth.{Identity, has_role, ResolverRepository, resolve}
use oad.Auth.Roles.{level}
use oad.Auth.Cache.{Cache, new_cache, lookup, store}
use oad.Auth.Cache.Invariant.{WellFormed}
use oad.Auth.Cache.History.{Event, Reachable, latest, Reachable-WellFormed, lookup-latest}
use oad.Auth.Cache.Bound.{Reachable-length}
use oad.Auth.Middleware.{
  Request, Server, cut_prefix, authenticate, set_active_system, require_path_system,
}
use oad.Auth.Middleware.Agreement.{answered, Follows, set_active_system-require_path_system}
use oad.Auth.Middleware.Scope.{IsScoped, authenticate-IsScoped}
use oad.Auth.Middleware.Shared.{authenticate_shared}

-- One user, an editor with access to the system 5.
abbrev sample_repo : ResolverRepository
sample_repo = record {
  find_entity_id = λ provider sub. ok 9;
  is_active = λ e. ok true;
  groups_of = λ e. ok (text "oad:editor" ∷ []);
  allowed_systems_of = λ e gs. ok (5 ∷ []);
}

abbrev sample_identity : Identity
sample_identity = record {
  subject = text "ann";
  provider = text "idp";
  entity_id = 9;
  groups = text "oad:editor" ∷ [];
  allowed_systems = 5 ∷ [];
  is_platform_admin = false;
  is_system_admin = false;
  active_system_id = none;
  auth_mode = text "jwt";
}

sample-resolve : resolve sample_repo (text "idp") (text "ann") ≡ ok sample_identity
unfolding resolve
sample-resolve = refl

level-viewer : level (text "viewer") ≡ some 0
unfolding level
level-viewer = refl

level-editor : level (text "editor") ≡ some 1
unfolding level
level-editor = refl

sample-editor : has_role sample_identity (text "editor") ≡ true
unfolding has_role
sample-editor = refl

abbrev sample_key : Text
sample_key = text "idp:ann"

-- A cache with room for two, and ten units of time, in which identity 0 was stored at time 3.
abbrev sample_cache : Cache
sample_cache = store 2 10 sample_key 0 3 new_cache

abbrev sample_history : List Event
sample_history = Event.stored sample_key 0 3 ∷ []

sample_Reachable : Reachable 2 10 sample_history sample_cache
sample_Reachable = Reachable.has_stored sample_key 0 3 Reachable.started

sample-lookup : (lookup sample_key 12 sample_cache).0 ≡ some 0
unfolding lookup store
sample-lookup = refl

lookup-latest_example : (t : ℕ) × (latest sample_key sample_history ≡ some (0, t)) × (12 < t + 10)
lookup-latest_example =
    lookup-latest sample_history sample_cache sample_key 12 0 sample_Reachable sample-lookup

Reachable-WellFormed_example : WellFormed sample_cache
Reachable-WellFormed_example = Reachable-WellFormed sample_Reachable

Reachable-length_example : length sample_cache.lru ≤ 2
Reachable-length_example = Reachable-length sample_Reachable

abbrev parse_sample : Text → Option ℕ
parse_sample (c ∷ []) = some (c - 48)
parse_sample _ = none

-- The token is "t", of the subject "ann".
abbrev sample_token : Text → Option (Text × Text)
sample_token s = some (text "idp", text "ann")

abbrev empty_server : Server
empty_server = record { cache = new_cache; heap = λ a. none; next_address = 0 }

abbrev request_with : Text → ℕ → Request
request_with header now = record {
  authorization = text "Bearer t";
  certificate = none;
  certificate_header = [];
  system_header = header;
  asked_at = now;
  stored_at = now;
}

-- The server after the first request, which names the system 5.
abbrev second_server : Server
second_server =
    (authenticate parse_sample sample_token sample_repo 2 10 (text "jwt") false
      (request_with (text "5") 3) empty_server).1

first-passes :
    authenticate parse_sample sample_token sample_repo 2 10
      (text "jwt")
      false
      (request_with (text "5") 3)
      empty_server
    ≡ (ok 0, second_server)
unfolding authenticate lookup store resolve cut_prefix
first-passes = refl

authenticate-IsScoped_example : IsScoped parse_sample (text "5") 0 second_server
unfolding same
authenticate-IsScoped_example =
    authenticate-IsScoped parse_sample sample_token sample_repo 2 10 (text "jwt") false
      (request_with (text "5") 3) empty_server second_server 0 refl first-passes

-- The second request names no system, and finds the system 5 active.
still-active : second_server.heap 0 ≡ some (record sample_identity { active_system_id = some 5 })
unfolding authenticate lookup store resolve cut_prefix
still-active = refl

-- The token's part of each request.
has_token :
    (token : Text) × (same (text "Bearer t") [] ≡ false)
    × (cut_prefix (text "Bearer t") (text "Bearer ") ≡ some token)
    × (sample_token token ≡ some (text "idp", text "ann"))
unfolding cut_prefix same
has_token = (text "t", refl, refl, refl)

authenticate_shared_example :
    (s₂ : Server) × (authenticate parse_sample sample_token sample_repo 2 10
        (text "jwt")
        false
        (request_with [] 4)
        second_server
      ≡ (ok 0, s₂))
    × IsScoped parse_sample (text "5") 0 s₂
unfolding lookup same
authenticate_shared_example =
    authenticate_shared parse_sample sample_token sample_repo 2 10 (text "idp") (text "ann") false
      (request_with (text "5") 3) (request_with [] 4) empty_server second_server 0 has_token
      has_token refl (omega arith) refl refl first-passes

-- A server on whose heap the sample is at 0.
abbrev sample_server : Server
sample_server = record { cache = new_cache; heap = λ a. some sample_identity; next_address = 1 }

-- The system 7 is none of the sample's: both checks refuse it.
sample-refused : require_path_system parse_sample (text "7") (some sample_identity) ≡ err forbidden
unfolding require_path_system
sample-refused = refl

set_active_system-require_path_system_example :
    (answered
        (set_active_system parse_sample sample_token sample_repo 2 10 (text "5") 0 sample_server).0
      ≡ require_path_system parse_sample (text "5") (some sample_identity))
    × Follows parse_sample
        (text "5")
        (set_active_system parse_sample sample_token sample_repo 2 10 (text "5") 0 sample_server)
unfolding same
set_active_system-require_path_system_example =
    set_active_system-require_path_system parse_sample sample_token sample_repo 2 10 (text "5") 0
      sample_server sample_identity refl refl
