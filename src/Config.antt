-- ===== src/Config.antt =====
-- internal/config/config.go and yaml.go: the configuration, and the file that it may come from. A duration is its
-- number of nanoseconds.
pub mod Numbers
pub mod Environment
pub mod Layers
pub mod Load
pub mod Legacy
pub mod Precedence
pub mod Checked
mod Tests
use oad.Base.{ℕ, ◌*◌, Bool, List, []}
use oad.Scim.Text.{Text, text}
use Numbers.{ℤ, pos}

-- ServerConfig; fileServerConfig has the same fields.
pub record ServerConfig : Type 0 where
  pub addr : Text
  pub shutdown_timeout : ℤ

-- DatabaseConfig; in fileDatabaseConfig `url` is `DSN`.
pub record DatabaseConfig : Type 0 where
  pub url : Text
  pub max_conns : ℤ
  pub min_conns : ℤ

-- ProviderBackend
pub record ProviderBackend : Type 0 where
  pub jwks_url : Text
  pub issuer : Text
  pub audience : Text

-- ProviderWebUI
pub record ProviderWebUi : Type 0 where
  pub authority : Text
  pub client_id : Text
  pub scope : Text

-- ProviderSCIM
pub record ProviderScim : Type 0 where
  pub enabled : Bool
  pub token : Text

-- ProviderConfig
pub record ProviderConfig : Type 0 where
  pub name : Text
  pub display_name : Text
  pub backend : ProviderBackend
  pub webui : ProviderWebUi
  pub scim : ProviderScim

-- BootstrapAdmin, and fileBootstrapAdmin
pub record BootstrapAdmin : Type 0 where
  pub provider : Text
  pub subject : Text

-- AuthConfig
pub record AuthConfig : Type 0 where
  pub mode : Text
  pub mtls_header : Text
  pub providers : List ProviderConfig
  pub bootstrap_admins : List BootstrapAdmin
  pub identity_cache_ttl : ℤ
  pub identity_cache_size : ℤ

-- WebUIConfig, and fileWebUIConfig
pub record WebUiConfig : Type 0 where
  pub redirect_uri : Text
  pub post_logout_uri : Text

-- LogConfig, and fileLogConfig
pub record LogConfig : Type 0 where
  pub level : Text
  pub format : Text

-- Config
pub record Config : Type 0 where
  pub server : ServerConfig
  pub database : DatabaseConfig
  pub auth : AuthConfig
  pub webui : WebUiConfig
  pub log : LogConfig

-- fileClaimsMapping
pub record FileClaimsMapping : Type 0 where
  pub roles_claim : Text
  pub system_id_claim : Text
  pub default_roles : List Text

-- fileProviderConfig: a provider with the field that is obsolete, and its token as it is written.
pub record FileProviderConfig : Type 0 where
  pub provider : ProviderConfig
  pub claims_mapping : FileClaimsMapping

-- fileAuthConfig
pub record FileAuthConfig : Type 0 where
  pub mode : Text
  pub mtls_header : Text
  pub providers : List FileProviderConfig
  pub bootstrap_admins : List BootstrapAdmin

-- fileConfig; what the file does not say has its zero value.
pub record FileConfig : Type 0 where
  pub server : ServerConfig
  pub database : DatabaseConfig
  pub auth : FileAuthConfig
  pub webui : WebUiConfig
  pub log : LogConfig

-- CLIOptions
pub record CliOptions : Type 0 where
  pub config_file : Text
  pub database : Text
  pub addr : Text
  pub auth_mode : Text
  pub shutdown_timeout : Text
  pub log_level : Text
  pub log_format : Text

abbrev pub seconds : ℕ → ℤ
seconds n = pos (n * 1000000000)

-- applyDefaults, on the zero value.
abbrev pub defaults : Config
defaults = record {
  server = record { addr = text ":8080"; shutdown_timeout = seconds 30 };
  database = record { url = []; max_conns = pos 25; min_conns = pos 5 };
  auth = record {
    mode = text "jwt";
    mtls_header = text "X-Client-Cert";
    providers = [];
    bootstrap_admins = [];
    identity_cache_ttl = seconds 30;
    identity_cache_size = pos 10000;
  };
  webui = record { redirect_uri = []; post_logout_uri = [] };
  log = record { level = text "info"; format = text "json" };
}
