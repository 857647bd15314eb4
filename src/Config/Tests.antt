-- ===== src/Config/Tests.antt =====
-- Runs of internal/config/loader.go.
use oad.Base.{◌≡◌, refl, Option, none, some, [], ◌∷◌, if◌then◌else◌, ok, err}
use oad.Scim.Text.{Text, text, same}
use oad.Config.Numbers.{ℤ, pos, negsuc}
use oad.Config.Environment.{Env, trim_space, before_comma}
use oad.Config.{ProviderConfig, Config, FileConfig, CliOptions}
use oad.Config.Layers.{database_required}
use oad.Config.Load.{parse_int32, parse_size, read_file, load}
use oad.Config.Precedence.{IsLayered, load-IsLayered}
use oad.Config.Checked.{IsCoherent, load-IsCoherent, load-environment}

int32-bounds :
    (parse_int32 (text "2147483647") ≡ some (pos 2147483647))
    × (parse_int32 (text "2147483648") ≡ none)
    × (parse_int32 (text "-2147483648") ≡ some (negsuc 2147483647))
    × (parse_int32 (text "+7") ≡ some (pos 7))
    × (parse_int32 (text "") ≡ none)
    × (parse_int32 (text "-") ≡ none)
    × (parse_int32 (text "7x") ≡ none)
unfolding parse_int32
int32-bounds = (refl, refl, refl, refl, refl, refl, refl)

size-positive : (parse_size (text "0") ≡ none) × (parse_size (text "12") ≡ some (pos 12))
unfolding parse_size
size-positive = (refl, refl)

first-url : trim_space (before_comma (text " a ,b")) ≡ text "a"
unfolding trim_space before_comma
first-url = refl

-- Variables that are enough, the database under its old name as well.
abbrev sample_env : Env
sample_env name =
    if same name (text "OAD_DATABASE")
    then text "pg"
    else if same name (text "DATABASE_URL")
    then text "old"
    else if same name (text "OAD_JWKS_URL")
    then text "keys"
    else if same name (text "OAD_JWT_ISSUER")
    then text "iss"
    else if same name (text "OAD_JWT_AUDIENCE")
    then text "aud"
    else if same name (text "SERVER_PORT")
    then text "81"
    else []

abbrev no_duration : Text → Option ℤ
no_duration s = none

abbrev no_such_file : Text → Option FileConfig
no_such_file name = none

abbrev sample_options : CliOptions
sample_options = record {
  config_file = [];
  database = [];
  addr = [];
  auth_mode = [];
  shutdown_timeout = [];
  log_level = text "debug";
  log_format = [];
}

load-environment_example :
    (cfg : Config) × (load no_duration no_such_file sample_options sample_env ≡ ok cfg)
    × (cfg.auth.mode ≡ text "jwt")
    × ((p : ProviderConfig) × (cfg.auth.providers ≡ p ∷ [])
        × (p.backend.jwks_url ≡ sample_env (text "OAD_JWKS_URL"))
        × (p.backend.issuer ≡ sample_env (text "OAD_JWT_ISSUER"))
        × (p.backend.audience ≡ sample_env (text "OAD_JWT_AUDIENCE")))
unfolding same
load-environment_example =
    load-environment no_duration no_such_file sample_options sample_env refl refl refl refl refl
      refl refl refl refl refl

abbrev sample_config : Config
sample_config = load-environment_example.0

load-IsCoherent_example : IsCoherent sample_config
load-IsCoherent_example =
    load-IsCoherent no_duration no_such_file sample_options sample_env sample_config
      load-environment_example.1

load-IsLayered_example :
    (fc : Option FileConfig) × (read_file no_duration no_such_file sample_options.config_file
      ≡ ok fc)
    × IsLayered no_duration no_such_file sample_options sample_env fc sample_config
load-IsLayered_example =
    load-IsLayered no_duration no_such_file sample_options sample_env sample_config
      load-environment_example.1

-- Without the variables there is no configuration.
nothing-loads : load no_duration no_such_file sample_options (λ name. []) ≡ err database_required
unfolding load
nothing-loads = refl
