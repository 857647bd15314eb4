-- ===== src/Config/Precedence.antt =====
-- Which layer a setting comes from (internal/config/loader.go).
use oad.Base.{
  ◌≡◌, refl, subst, Option, none, some, List, [], ◌∷◌, Result-cases, inl, inr, Result, ok, err,
}
use oad.Scim.Text.{Text, text}
use oad.Config.Numbers.{ℤ}
use oad.Config.Environment.{Env, or_else, warn_deprecated}
use oad.Config.{Config, FileConfig, CliOptions, seconds}
use oad.Config.Layers.{ConfigError, unless_zero, if_parsed, apply_file, apply_file_providers}
use oad.Config.Load.{parse_given, apply_env, apply_flags, read_file, with_file, validate, load}
use oad.Config.Legacy.{
  legacy_address, warn_deprecated-database, warn_deprecated-auth_mode, warn_deprecated-addr,
  warn_deprecated-log, warn_deprecated-shutdown_timeout,
}

or_else_assoc : (a b c : Text) → or_else (or_else a b) c ≡ or_else a (or_else b c)
or_else_assoc [] b c = refl
or_else_assoc (x ∷ a) b c = refl

-- The first text that is not empty.
abbrev first_given : List Text → Text → Text
first_given [] default = default
first_given (v ∷ vs) default = or_else v (first_given vs default)

-- What the file says, where there is one.
abbrev in_file : Option FileConfig → (FileConfig → Text) → Text
in_file none field = []
in_file (some fc) field = field fc

abbrev file_timeout : Option FileConfig → ℤ
file_timeout none = seconds 30
file_timeout (some fc) = unless_zero fc.server.shutdown_timeout (seconds 30)

module _ (parse_duration : Text → Option ℤ) (load_file : Text → Option FileConfig) where
  -- The settings, each from the highest layer that has it.
  pub record IsLayered (opts : CliOptions) (env : Env) (fc : Option FileConfig) (cfg : Config)
      : Type 0 where
    pub url :
        cfg.database.url
        ≡ first_given
            (opts.database
              ∷ env (text "OAD_DATABASE")
              ∷ env (text "DATABASE_URL")
              ∷ in_file fc (λ f. f.database.url)
              ∷ [])
            []
    pub addr :
        cfg.server.addr
        ≡ first_given
            (opts.addr
              ∷ env (text "OAD_ADDR")
              ∷ legacy_address env
              ∷ in_file fc (λ f. f.server.addr)
              ∷ [])
            (text ":8080")
    pub mode :
        cfg.auth.mode
        ≡ first_given
            (opts.auth_mode
              ∷ env (text "OAD_AUTH_MODE")
              ∷ env (text "AUTH_MODE")
              ∷ in_file fc (λ f. f.auth.mode)
              ∷ [])
            (text "jwt")
    pub level :
        cfg.log.level
        ≡ first_given
            (opts.log_level ∷ env (text "OAD_LOG_LEVEL") ∷ in_file fc (λ f. f.log.level) ∷ [])
            (text "info")
    pub format :
        cfg.log.format
        ≡ first_given
            (opts.log_format ∷ env (text "OAD_LOG_FORMAT") ∷ in_file fc (λ f. f.log.format) ∷ [])
            (text "json")
    pub shutdown_timeout :
        cfg.server.shutdown_timeout
        ≡ if_parsed (parse_given parse_duration opts.shutdown_timeout) (
            if_parsed
              (parse_given parse_duration (
                first_given
                  (env (text "OAD_SHUTDOWN_TIMEOUT") ∷ env (text "SERVER_SHUTDOWN_TIMEOUT") ∷ [])
                  []))
              (file_timeout fc))

  abbrev Based : Option FileConfig → Result ConfigError Config → Type 0
  Based fc (err e) = Unit
  Based fc (ok base) =
      (base.database.url ≡ in_file fc (λ f. f.database.url))
      × (base.server.addr ≡ first_given (in_file fc (λ f. f.server.addr) ∷ []) (text ":8080"))
      × (base.auth.mode ≡ first_given (in_file fc (λ f. f.auth.mode) ∷ []) (text "jwt"))
      × (base.log.level ≡ first_given (in_file fc (λ f. f.log.level) ∷ []) (text "info"))
      × (base.log.format ≡ first_given (in_file fc (λ f. f.log.format) ∷ []) (text "json"))
      × (base.server.shutdown_timeout ≡ file_timeout fc)

  or_else_nil : (s : Text) → or_else s [] ≡ s
  or_else_nil [] = refl
  or_else_nil (c ∷ s) = refl

  with_file-Based :
      (env : Env) (fc : Option FileConfig) → Based fc (with_file parse_duration load_file env fc)
  unfolding with_file apply_file
  with_file-Based env none = (refl, refl, refl, refl, refl, refl)
  with_file-Based env (some fc) =
      elim (Result-cases (apply_file_providers env 0 [] fc.auth.providers)) [
        | inr (e, h) ↦ rw h tt
        | inl (ps, h) ↦ rw h (or_else_nil fc.database.url, refl, refl, refl, refl, refl)
      ]

  abbrev Loaded : CliOptions → Env → Result ConfigError Config → Type 0
  Loaded opts env (err e) = Unit
  Loaded opts env (ok cfg) =
      (fc : Option FileConfig) × (read_file parse_duration load_file opts.config_file ≡ ok fc)
      × IsLayered opts env fc cfg

  applied-IsLayered :
      (opts : CliOptions) (env : Env) (fc : Option FileConfig) (base : Config)
      → Based fc (ok base)
      → IsLayered opts env fc (
          apply_flags parse_duration load_file opts
            (apply_env parse_duration load_file (warn_deprecated env) base))
  unfolding apply_flags apply_env
  applied-IsLayered opts env fc base (h1, h2, h3, h4, h5, h6) = record {
    url =
        rw
          (
            warn_deprecated-database env,
            h1,
            or_else_nil (in_file fc (λ f. f.database.url)),
            or_else_assoc (env (text "OAD_DATABASE")),
          )
          refl;
    addr = rw (warn_deprecated-addr env, h2, or_else_assoc (env (text "OAD_ADDR"))) refl;
    mode = rw (warn_deprecated-auth_mode env, h3, or_else_assoc (env (text "OAD_AUTH_MODE"))) refl;
    level = rw ((warn_deprecated-log env).0, h4) refl;
    format = rw ((warn_deprecated-log env).1, h5) refl;
    shutdown_timeout =
        rw
          (
            warn_deprecated-shutdown_timeout env,
            h6,
            or_else_nil (env (text "SERVER_SHUTDOWN_TIMEOUT")),
          )
          refl;
  }

  load-Loaded :
      (opts : CliOptions) (env : Env) → Loaded opts env (load parse_duration load_file opts env)
  unfolding load
  load-Loaded opts env = elim (Result-cases (read_file parse_duration load_file opts.config_file)) [
    | inr (e, h) ↦ rw h tt
    | inl (fc, h) ↦
        elim (Result-cases (with_file parse_duration load_file (warn_deprecated env) fc)) [
          | inr (e, k) ↦ rw (h, k) tt
          | inl (base, k) ↦
              let based = subst (λ r. Based fc r) k (with_file-Based (warn_deprecated env) fc) in
              let cfg =
                apply_flags parse_duration load_file opts
                  (apply_env parse_duration load_file (warn_deprecated env) base) in
              elim (Result-cases (validate cfg)) [
                | inr (e, v) ↦ rw (h, k, v) tt
                | inl (u, v) ↦ rw (h, k, v) (fc, h, applied-IsLayered opts env fc base based)
              ]
        ]
  ]

  -- A configuration that loads has each of these settings from the highest layer that has it: the command
  -- line, the variable of the environment, the variable of the old name where there is one, the file that the
  -- command line names, the default. A shutdown timeout on the command line that is no duration counts as not
  -- given; of its two variables the one of the new name counts if it is not empty, and if the one that counts is
  -- no duration, the timeout is that of the file, or the default.
  pub load-IsLayered :
      (opts : CliOptions) (env : Env) (cfg : Config)
      → load parse_duration load_file opts env ≡ ok cfg
      → (fc : Option FileConfig) × (read_file parse_duration load_file opts.config_file ≡ ok fc)
        × IsLayered opts env fc cfg
  load-IsLayered opts env cfg h = subst (λ r. Loaded opts env r) h (load-Loaded opts env)
