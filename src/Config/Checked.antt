-- ===== src/Config/Checked.antt =====
-- What a configuration that is accepted is fit for, and what is enough to be accepted (internal/config/loader.go).
use oad.Base.{
  ℕ, ◌+◌, ◌≡◌, refl, ◌∙◌, subst, Bool, true, false, ◌||◌, Option, List, [], ◌∷◌, All, Bool-cases,
  Result-cases, inl, inr, Result, ok, err, ◌>>◌, guard,
}
use oad.Scim.Text.{Text, text, same}
use oad.Config.Numbers.{ℤ}
use oad.Config.Environment.{Env, given, or_else, warn_deprecated}
use oad.Config.{ProviderConfig, Config, FileConfig, CliOptions, defaults}
use oad.Config.Layers.{
  ConfigError, any_non_empty, flat_provider, default_provider, apply_flat_provider_env,
}
use oad.Config.Legacy.{
  or_else_nil, warn_deprecated-database, warn_deprecated-auth_mode, warn_deprecated-log,
  warn_deprecated-provider,
}
use oad.Config.Load.{
  apply_env, apply_flags, read_file, with_file, check_providers, at_least_one, is_mode,
  reads_tokens, validate, load,
}

-- A provider whose tokens can be checked.
abbrev IsComplete : ProviderConfig → Type 0
IsComplete p =
    (given p.backend.jwks_url ≡ true)
    × (given p.backend.issuer ≡ true)
    × (given p.backend.audience ≡ true)

abbrev Serves : List ProviderConfig → Type 0
Serves [] = ⊥
Serves (p ∷ ps) = IsComplete p × All IsComplete ps

-- A configuration that the server can run with.
pub record IsCoherent (cfg : Config) : Type 0 where
  pub url : given cfg.database.url ≡ true
  pub mode : is_mode cfg.auth.mode ≡ true
  pub providers : reads_tokens cfg.auth.mode ≡ true → Serves cfg.auth.providers
  pub format : (same cfg.log.format (text "json") || same cfg.log.format (text "text")) ≡ true

abbrev Holds : Type 0 → Result ConfigError (Unit {0}) → Type 0
Holds P (ok u) = P
Holds P (err e) = Unit

guard-Holds : (b : Bool) (e : ConfigError) → Holds (b ≡ true) (guard b e)
guard-Holds true e = refl
guard-Holds false e = tt

check_providers-Holds :
    (i : ℕ) (ps : List ProviderConfig) → Holds (All IsComplete ps) (check_providers i ps)
unfolding check_providers
check_providers-Holds i [] = tt
check_providers-Holds i (p ∷ ps) = elim (Bool-cases (given p.backend.jwks_url)) [
  | inr h ↦ rw h tt
  | inl h ↦ elim (Bool-cases (given p.backend.issuer)) [
    | inr k ↦ rw (h, k) tt
    | inl k ↦ elim (Bool-cases (given p.backend.audience)) [
      | inr l ↦ rw (h, k, l) tt
      | inl l ↦ elim (Result-cases (check_providers (i + 1) ps)) [
        | inr (e, v) ↦ rw (h, k, l, v) tt
        | inl (u, v) ↦
            rw (h, k, l, v)
              (
                (refl, refl, refl),
                subst (λ r. Holds (All IsComplete ps) r) v (check_providers-Holds (i + 1) ps),
              )
      ]
    ]
  ]
]

check-Serves :
    (ps : List ProviderConfig) → Holds (Serves ps) (at_least_one ps >> check_providers 0 ps)
check-Serves [] = tt
check-Serves (p ∷ ps) = check_providers-Holds 0 (p ∷ ps)

not_both : {P : Type 0} {b : Bool} → b ≡ false → b ≡ true → P
not_both h k = cc

validate-IsCoherent : (cfg : Config) → Holds (IsCoherent cfg) (validate cfg)
unfolding validate
validate-IsCoherent cfg = elim (Bool-cases (given cfg.database.url)) [
  | inr h ↦ rw h tt
  | inl h ↦ elim (Bool-cases (is_mode cfg.auth.mode)) [
    | inr k ↦ rw (h, k) tt
    | inl k ↦
        elim (Bool-cases (same cfg.log.format (text "json") || same cfg.log.format (text "text"))) [
          | inr f ↦ elim (Bool-cases (reads_tokens cfg.auth.mode)) [
            | inr m ↦ rw (h, k, m, f) tt
            | inl m ↦
                elim (Result-cases
                  (at_least_one cfg.auth.providers >> check_providers 0 cfg.auth.providers)) [
                    | inr (e, v) ↦ rw (h, k, m, v) tt
                    | inl (u, v) ↦ rw (h, k, m, v, f) tt
                  ]
          ]
          | inl f ↦ elim (Bool-cases (reads_tokens cfg.auth.mode)) [
            | inr m ↦
                rw (h, k, m, f) (record { url = h; mode = k; providers = not_both m; format = f })
            | inl m ↦
                elim (Result-cases
                  (at_least_one cfg.auth.providers >> check_providers 0 cfg.auth.providers)) [
                    | inr (e, v) ↦ rw (h, k, m, v) tt
                    | inl (u, v) ↦
                        rw (h, k, m, v, f)
                          (record {
                            url = h;
                            mode = k;
                            providers = λ r.
                                subst (λ q. Holds (Serves cfg.auth.providers) q) v
                                  (check-Serves cfg.auth.providers);
                            format = f;
                          })
                  ]
          ]
        ]
  ]
]

abbrev Fit : Result ConfigError Config → Type 0
Fit (ok cfg) = IsCoherent cfg
Fit (err e) = Unit

module _ (parse_duration : Text → Option ℤ) (load_file : Text → Option FileConfig) where
  load-Fit : (opts : CliOptions) (env : Env) → Fit (load parse_duration load_file opts env)
  unfolding load
  load-Fit opts env = elim (Result-cases (read_file parse_duration load_file opts.config_file)) [
    | inr (e, h) ↦ rw h tt
    | inl (fc, h) ↦
        elim (Result-cases (with_file parse_duration load_file (warn_deprecated env) fc)) [
          | inr (e, k) ↦ rw (h, k) tt
          | inl (base, k) ↦
              let cfg =
                apply_flags parse_duration load_file opts
                  (apply_env parse_duration load_file (warn_deprecated env) base) in
              elim (Result-cases (validate cfg)) [
                | inr (e, v) ↦ rw (h, k, v) tt
                | inl (u, v) ↦
                    rw (h, k, v) (subst (λ r. Holds (IsCoherent cfg) r) v (validate-IsCoherent cfg))
              ]
        ]
  ]

  -- A configuration that loads has a database, a mode and a log format that the program knows, and, in the
  -- modes "jwt" and "both", at least one provider, and for every provider the key set, the issuer and the
  -- audience that its tokens are checked against.
  pub load-IsCoherent :
      (opts : CliOptions) (env : Env) (cfg : Config)
      → load parse_duration load_file opts env ≡ ok cfg
      → IsCoherent cfg
  load-IsCoherent opts env cfg h = subst Fit h (load-Fit opts env)

  given-or_else : (a b : Text) → given a ≡ true → given (or_else a b) ≡ true
  given-or_else [] b h = cc
  given-or_else (c ∷ a) b h = refl

  given-or_else_second : (a b : Text) → given b ≡ true → given (or_else a b) ≡ true
  given-or_else_second [] b h = h
  given-or_else_second (c ∷ a) b h = refl

  flat-first :
      (env : Env)
      → given (env (text "OAD_JWKS_URL")) ≡ true
      → apply_flat_provider_env env [] ≡ flat_provider env default_provider ∷ []
  unfolding apply_flat_provider_env any_non_empty
  flat-first env j = elim (Bool-cases (given (env (text "OAD_PROVIDER_NAME")))) [
    | inl n ↦ rw n refl
    | inr n ↦ elim (Bool-cases (given (env (text "OAD_PROVIDER_DISPLAY_NAME")))) [
      | inl d ↦ rw (n, d) refl
      | inr d ↦ rw (n, d, j) refl
    ]
  ]

  -- The checks pass on the defaults with such variables.
  validate-environment :
      (opts : CliOptions) (env : Env)
      → opts.auth_mode ≡ []
      → opts.log_format ≡ []
      → env (text "OAD_AUTH_MODE") ≡ []
      → env (text "OAD_LOG_FORMAT") ≡ []
      → given (env (text "OAD_DATABASE")) ≡ true
      → given (env (text "OAD_JWKS_URL")) ≡ true
      → given (env (text "OAD_JWT_ISSUER")) ≡ true
      → given (env (text "OAD_JWT_AUDIENCE")) ≡ true
      → validate (
          apply_flags parse_duration load_file opts
            (apply_env parse_duration load_file env defaults))
        ≡ ok tt
  unfolding apply_env apply_flags validate flat_provider check_providers same
  validate-environment opts env no_mode no_format m f d j i a =
      let u : given (or_else opts.database (or_else (env (text "OAD_DATABASE")) [])) ≡ true =
        given-or_else_second opts.database (or_else (env (text "OAD_DATABASE")) [])
          (given-or_else (env (text "OAD_DATABASE")) [] d) in
      rw
        (
          u,
          no_mode,
          m,
          no_format,
          f,
          flat-first env j,
          or_else_nil (env (text "OAD_JWKS_URL")),
          j,
          or_else_nil (env (text "OAD_JWT_ISSUER")),
          i,
          or_else_nil (env (text "OAD_JWT_AUDIENCE")),
          a,
        )
        refl

  -- The variables of one database and one provider are enough: with no file, and with neither mode nor log
  -- format chosen anywhere, the program loads a configuration, in the mode "jwt", with that provider.
  pub load-environment :
      (opts : CliOptions) (env : Env)
      → opts.config_file ≡ []
      → opts.auth_mode ≡ []
      → opts.log_format ≡ []
      → env (text "OAD_AUTH_MODE") ≡ []
      → env (text "AUTH_MODE") ≡ []
      → env (text "OAD_LOG_FORMAT") ≡ []
      → given (env (text "OAD_DATABASE")) ≡ true
      → given (env (text "OAD_JWKS_URL")) ≡ true
      → given (env (text "OAD_JWT_ISSUER")) ≡ true
      → given (env (text "OAD_JWT_AUDIENCE")) ≡ true
      → (cfg : Config) × (load parse_duration load_file opts env ≡ ok cfg)
        × (cfg.auth.mode ≡ text "jwt")
        × ((p : ProviderConfig) × (cfg.auth.providers ≡ p ∷ [])
            × (p.backend.jwks_url ≡ env (text "OAD_JWKS_URL"))
            × (p.backend.issuer ≡ env (text "OAD_JWT_ISSUER"))
            × (p.backend.audience ≡ env (text "OAD_JWT_AUDIENCE")))
  unfolding load read_file with_file apply_env apply_flags flat_provider
  load-environment opts env no_file no_mode no_format m1 m2 f d j i a =
      let (jw, iss, aud) = warn_deprecated-provider env j i a in
      let env' = warn_deprecated env in
      let m : env' (text "OAD_AUTH_MODE") ≡ [] = warn_deprecated-auth_mode env ∙ rw (m1, m2) refl in
      let d' : given (env' (text "OAD_DATABASE")) ≡ true =
        rw (warn_deprecated-database env)
          (given-or_else (env (text "OAD_DATABASE")) (env (text "DATABASE_URL")) d) in
      let j' : given (env' (text "OAD_JWKS_URL")) ≡ true = rw jw j in
      let checked =
        validate-environment opts env' no_mode no_format m ((warn_deprecated-log env).1 ∙ f) d' j'
          (rw iss i) (rw aud a) in
      (
        apply_flags parse_duration load_file opts
            (apply_env parse_duration load_file env' defaults),
        rw (no_file, checked) refl,
        rw (no_mode, m) refl,
        (
          flat_provider env' default_provider,
          flat-first env' j',
          rw jw (or_else_nil (env (text "OAD_JWKS_URL"))),
          rw iss (or_else_nil (env (text "OAD_JWT_ISSUER"))),
          rw aud (or_else_nil (env (text "OAD_JWT_AUDIENCE"))),
        ),
      )
