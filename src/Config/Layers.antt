-- ===== src/Config/Layers.antt =====
-- internal/config/loader.go: the layer of the file, and the provider of the environment.
use oad.Base.{
  ℕ, ◌+◌, Bool, true, false, ◌||◌, Option, none, some, List, [], ◌∷◌, ◌++◌, if◌then◌else◌, Result,
  ok, err, ◌>>=◌,
}
use oad.Scim.Text.{Text, text, same}
use oad.Config.Numbers.{ℤ, is_zero}
use oad.Config.Environment.{Env, given, or_else}
use oad.Config.{ProviderConfig, Config, FileClaimsMapping, FileProviderConfig, FileConfig}

-- The errors, by what they complain of; those of providers keep the index.
pub data ConfigError : Type 0 where
  unreadable database_required invalid_mode providers_required invalid_format : ConfigError
  obsolete jwks_url_required issuer_required audience_required : ℕ → ConfigError

abbrev pub unless_zero : ℤ → ℤ → ℤ
unless_zero v old = if is_zero v then old else v

-- `if i, err := parse(v); err == nil { … = i }`, where the value is given.
abbrev pub if_parsed : Option ℤ → ℤ → ℤ
if_parsed none old = old
if_parsed (some i) old = i

-- resolveSecretRef: "env:" in front names a variable.
unfoldable resolve_secret_ref : Env → Text → Text
unfolding same
resolve_secret_ref env (c ∷ d ∷ e ∷ f ∷ name) =
    if same (c ∷ d ∷ e ∷ f ∷ []) (text "env:") then env name else c ∷ d ∷ e ∷ f ∷ name
resolve_secret_ref env raw = raw

abbrev is_some_role : List Text → Bool
is_some_role [] = false
is_some_role (r ∷ rs) = true

abbrev is_obsolete : FileClaimsMapping → Bool
is_obsolete m = given m.roles_claim || (given m.system_id_claim || is_some_role m.default_roles)

-- applyFileProviders, from an index on.
unfoldable pub apply_file_providers :
    Env
    → ℕ
    → List ProviderConfig
    → List FileProviderConfig
    → Result ConfigError (List ProviderConfig)
unfolding resolve_secret_ref
apply_file_providers env i ps [] = ok ps
apply_file_providers env i ps (fp ∷ fps) =
    let p = fp.provider in
    let added : ProviderConfig = record p {
      scim = record p.scim { token = resolve_secret_ref env p.scim.token };
    } in
    let rest = apply_file_providers env (i + 1) (ps ++ (added ∷ [])) fps in
    if is_obsolete fp.claims_mapping then err (obsolete i) else rest

-- applyFile
unfoldable pub apply_file : Env → FileConfig → Config → Result ConfigError Config
unfolding apply_file_providers
apply_file env fc cfg = do
  providers ← apply_file_providers env 0 cfg.auth.providers fc.auth.providers
  ok (record {
    server = record {
      addr = or_else fc.server.addr cfg.server.addr;
      shutdown_timeout = unless_zero fc.server.shutdown_timeout cfg.server.shutdown_timeout;
    };
    database = record {
      url = or_else fc.database.url cfg.database.url;
      max_conns = unless_zero fc.database.max_conns cfg.database.max_conns;
      min_conns = unless_zero fc.database.min_conns cfg.database.min_conns;
    };
    auth = record cfg.auth {
      mode = or_else fc.auth.mode cfg.auth.mode;
      mtls_header = or_else fc.auth.mtls_header cfg.auth.mtls_header;
      providers = providers;
      bootstrap_admins = cfg.auth.bootstrap_admins ++ fc.auth.bootstrap_admins;
    };
    webui = record {
      redirect_uri = or_else fc.webui.redirect_uri cfg.webui.redirect_uri;
      post_logout_uri = or_else fc.webui.post_logout_uri cfg.webui.post_logout_uri;
    };
    log = record {
      level = or_else fc.log.level cfg.log.level;
      format = or_else fc.log.format cfg.log.format;
    };
  })

-- applyFlatProviderEnv on the first provider, or on a new one.
unfoldable pub flat_provider : Env → ProviderConfig → ProviderConfig
flat_provider env p = record p {
  name = or_else (env (text "OAD_PROVIDER_NAME")) p.name;
  display_name = or_else (env (text "OAD_PROVIDER_DISPLAY_NAME")) p.display_name;
  backend = record {
    jwks_url = or_else (env (text "OAD_JWKS_URL")) p.backend.jwks_url;
    issuer = or_else (env (text "OAD_JWT_ISSUER")) p.backend.issuer;
    audience = or_else (env (text "OAD_JWT_AUDIENCE")) p.backend.audience;
  };
  webui = record {
    authority = or_else (env (text "OAD_PROVIDER_AUTHORITY")) p.webui.authority;
    client_id = or_else (env (text "OAD_PROVIDER_CLIENT_ID")) p.webui.client_id;
    scope = or_else (env (text "OAD_PROVIDER_SCOPE")) p.webui.scope;
  };
}

-- anyNonEmpty
unfoldable pub any_non_empty : List Text → Bool
any_non_empty [] = false
any_non_empty (v ∷ vs) = given v || any_non_empty vs

abbrev pub default_provider : ProviderConfig
default_provider = record {
  name = text "default";
  display_name = [];
  backend = record { jwks_url = []; issuer = []; audience = [] };
  webui = record { authority = []; client_id = []; scope = [] };
  scim = record { enabled = false; token = [] };
}

abbrev replace_first : Env → List ProviderConfig → List ProviderConfig
replace_first env [] = flat_provider env default_provider ∷ []
replace_first env (p ∷ ps) = flat_provider env p ∷ ps

-- applyFlatProviderEnv
unfoldable pub apply_flat_provider_env : Env → List ProviderConfig → List ProviderConfig
unfolding any_non_empty flat_provider
apply_flat_provider_env env ps =
    if any_non_empty (
      env (text "OAD_PROVIDER_NAME")
      ∷ env (text "OAD_PROVIDER_DISPLAY_NAME")
      ∷ env (text "OAD_JWKS_URL")
      ∷ env (text "OAD_JWT_ISSUER")
      ∷ env (text "OAD_JWT_AUDIENCE")
      ∷ env (text "OAD_PROVIDER_AUTHORITY")
      ∷ env (text "OAD_PROVIDER_CLIENT_ID")
      ∷ env (text "OAD_PROVIDER_SCOPE")
      ∷ [])
    then replace_first env ps
    else ps
