-- ===== src/Config/Load.antt =====
-- internal/config/loader.go: the environment and the command line over the file and the defaults, and the checks.
use oad.Base.{
  ℕ, ◌+◌, Bool, ◌||◌, Option, none, some, List, [], ◌∷◌, if◌then◌else◌, Result, ok, err, ◌>>=◌,
  ◌>>◌, guard,
}
use oad.Scim.Text.{Text, text, same}
use oad.Config.Numbers.{ℤ, is_positive, parse_int}
use oad.Config.Environment.{Env, given, or_else, warn_deprecated}
use oad.Config.{ProviderConfig, Config, FileConfig, CliOptions, defaults}
use oad.Config.Layers.{
  ConfigError, unreadable, database_required, invalid_mode, providers_required, invalid_format,
  jwks_url_required, issuer_required, audience_required, if_parsed, apply_file,
  apply_flat_provider_env,
}

-- The bounds of ParseInt(…, 10, 32) and of Atoi.
unfoldable pub parse_int32 : Text → Option ℤ
unfolding parse_int
parse_int32 = parse_int 2147483648

unfoldable pub parse_size : Text → Option ℤ
unfolding parse_int
parse_size s = elim (parse_int 9223372036854775808 s) [
  | none ↦ none
  | some n ↦ if is_positive n then some n else none
]

-- `if v != "" { … }` around a parser.
abbrev pub parse_given : (Text → Option ℤ) → Text → Option ℤ
parse_given parse [] = none
parse_given parse (c ∷ s) = parse (c ∷ s)

-- The providers, from an index on.
unfoldable pub check_providers : ℕ → List ProviderConfig → Result ConfigError (Unit {0})
check_providers i [] = ok tt
check_providers i (p ∷ ps) = do
  guard (given p.backend.jwks_url) (jwks_url_required i)
  guard (given p.backend.issuer) (issuer_required i)
  guard (given p.backend.audience) (audience_required i)
  check_providers (i + 1) ps

abbrev pub at_least_one : List ProviderConfig → Result ConfigError (Unit {0})
at_least_one [] = err providers_required
at_least_one (p ∷ ps) = ok tt

abbrev pub is_mode : Text → Bool
is_mode mode =
    same mode (text "jwt")
    || (same mode (text "mtls") || (same mode (text "both") || same mode (text "none")))

abbrev pub reads_tokens : Text → Bool
reads_tokens mode = same mode (text "jwt") || same mode (text "both")

-- validate
unfoldable pub validate : Config → Result ConfigError (Unit {0})
unfolding same check_providers
validate cfg = do
  guard (given cfg.database.url) database_required
  guard (is_mode cfg.auth.mode) invalid_mode
  if reads_tokens cfg.auth.mode
      then at_least_one cfg.auth.providers >> check_providers 0 cfg.auth.providers
      else ok tt
  guard (same cfg.log.format (text "json") || same cfg.log.format (text "text")) invalid_format

-- time.ParseDuration, and the reading of the file by os and yaml.
module _ (parse_duration : Text → Option ℤ) (load_file : Text → Option FileConfig) where
  -- applyEnv
  unfoldable pub apply_env : Env → Config → Config
  unfolding parse_int32 parse_size apply_flat_provider_env
  apply_env env cfg = record {
    server = record {
      addr = or_else (env (text "OAD_ADDR")) cfg.server.addr;
      shutdown_timeout =
          if_parsed (parse_given parse_duration (env (text "OAD_SHUTDOWN_TIMEOUT")))
            cfg.server.shutdown_timeout;
    };
    database = record {
      url = or_else (env (text "OAD_DATABASE")) cfg.database.url;
      max_conns =
          if_parsed (parse_given parse_int32 (env (text "OAD_DB_MAX_CONNS")))
            cfg.database.max_conns;
      min_conns =
          if_parsed (parse_given parse_int32 (env (text "OAD_DB_MIN_CONNS")))
            cfg.database.min_conns;
    };
    auth = record cfg.auth {
      mode = or_else (env (text "OAD_AUTH_MODE")) cfg.auth.mode;
      mtls_header = or_else (env (text "OAD_MTLS_HEADER")) cfg.auth.mtls_header;
      providers = apply_flat_provider_env env cfg.auth.providers;
      identity_cache_ttl =
          if_parsed (parse_given parse_duration (env (text "OAD_IDENTITY_CACHE_TTL")))
            cfg.auth.identity_cache_ttl;
      identity_cache_size =
          if_parsed (parse_given parse_size (env (text "OAD_IDENTITY_CACHE_SIZE")))
            cfg.auth.identity_cache_size;
    };
    webui = record {
      redirect_uri = or_else (env (text "OAD_WEBUI_REDIRECT_URI")) cfg.webui.redirect_uri;
      post_logout_uri = or_else (env (text "OAD_WEBUI_POST_LOGOUT_URI")) cfg.webui.post_logout_uri;
    };
    log = record {
      level = or_else (env (text "OAD_LOG_LEVEL")) cfg.log.level;
      format = or_else (env (text "OAD_LOG_FORMAT")) cfg.log.format;
    };
  }

  -- applyFlags
  unfoldable pub apply_flags : CliOptions → Config → Config
  apply_flags opts cfg = record cfg {
    database = record cfg.database { url = or_else opts.database cfg.database.url };
    server = record {
      addr = or_else opts.addr cfg.server.addr;
      shutdown_timeout =
          if_parsed (parse_given parse_duration opts.shutdown_timeout) cfg.server.shutdown_timeout;
    };
    auth = record cfg.auth { mode = or_else opts.auth_mode cfg.auth.mode };
    log = record {
      level = or_else opts.log_level cfg.log.level;
      format = or_else opts.log_format cfg.log.format;
    };
  }

  -- The file, where one is named.
  unfoldable pub read_file : Text → Result ConfigError (Option FileConfig)
  read_file [] = ok none
  read_file (c ∷ s) = elim (load_file (c ∷ s)) [ none ↦ err unreadable | some fc ↦ ok (some fc) ]

  unfoldable pub with_file : Env → Option FileConfig → Result ConfigError Config
  unfolding apply_file
  with_file env none = ok defaults
  with_file env (some fc) = apply_file env fc defaults

  -- load; the environment that it leaves is that of warnDeprecated.
  unfoldable pub load : CliOptions → Env → Result ConfigError Config
  unfolding read_file with_file apply_env apply_flags validate warn_deprecated
  load opts env = do
    fc ← read_file opts.config_file
    base ← with_file (warn_deprecated env) fc
    let cfg = apply_flags opts (apply_env (warn_deprecated env) base)
    validate cfg
    ok cfg
