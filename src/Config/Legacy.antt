-- ===== src/Config/Legacy.antt =====
-- The variables of the environment after those of old names are copied (internal/config/loader.go).
use oad.Base.{
  ◌≡◌, refl, sym, ap, ◌∙◌, true, false, not, ◌&&◌, ◌||◌, [], ◌∷◌, ◌++◌, if◌then◌else◌, Bool-cases,
  inl, inr,
}
use oad.Scim.Text.{Text, text, same, same→eq}
use oad.Config.Environment.{
  Env, set_env, given, or_else, copy_legacy_env, before_comma, trim_space, copy_legacy_env_comma,
  copy_address, warn_deprecated,
}

pub or_else_nil : (s : Text) → or_else s [] ≡ s
or_else_nil [] = refl
or_else_nil (c ∷ s) = refl

settled :
    (o v w : Text)
    → (if given o && not (given w) then v else w) ≡ or_else w (if given o then v else [])
settled [] v [] = refl
settled [] v (c ∷ w) = refl
settled (d ∷ o) v [] = refl
settled (d ∷ o) v (c ∷ w) = refl

-- A variable is copied where its new name has no value.
copied :
    (n o v : Text) (env : Env) (x : Text)
    → (if given o && not (given (env n)) then set_env n v env else env) x
      ≡ (if same n x then or_else (env n) (if given o then v else []) else env x)
unfolding set_env
copied n o v env x = elim (Bool-cases (same n x)) [
  | inr e ↦ elim (Bool-cases (given o && not (given (env n)))) [
    | inl k ↦ rw (k, e) refl
    | inr k ↦ rw (k, e) refl
  ]
  | inl e ↦
      let p : env x ≡ env n = ap env (sym (same→eq n x e)) in
      elim (Bool-cases (given o && not (given (env n)))) [
        | inl k ↦ rw (k, e) (rw k at (settled o v (env n)))
        | inr k ↦ rw (k, e, p) (rw k at (settled o v (env n)))
      ]
]

given_or_nil : (o : Text) → (if given o then o else []) ≡ o
given_or_nil [] = refl
given_or_nil (c ∷ o) = refl

copy_legacy_env-lookup :
    (o n : Text) (env : Env) (x : Text)
    → copy_legacy_env o n env x ≡ (if same n x then or_else (env n) (env o) else env x)
unfolding copy_legacy_env
copy_legacy_env-lookup o n env x = copied n (env o) (env o) env x ∙ rw (given_or_nil (env o)) refl

first_part :
    (o : Text) → (if given o then trim_space (before_comma o) else []) ≡ trim_space (before_comma o)
unfolding trim_space before_comma
first_part [] = refl
first_part (c ∷ o) = refl

copy_legacy_env_comma-lookup :
    (o n : Text) (env : Env) (x : Text)
    → copy_legacy_env_comma o n env x
      ≡ (if same n x then or_else (env n) (trim_space (before_comma (env o))) else env x)
unfolding copy_legacy_env_comma
copy_legacy_env_comma-lookup o n env x =
    copied n (env o) (trim_space (before_comma (env o))) env x ∙ rw (first_part (env o)) refl

-- The address that the variables of the old names give.
unfoldable pub legacy_address : Env → Text
legacy_address env =
    let host = env (text "SERVER_HOST") in
    let port = env (text "SERVER_PORT") in
    if given host || given port
    then or_else host (text "0.0.0.0") ++ (b':' ∷ or_else port (text "8080"))
    else []

or_else-given : (w v : Text) → given w ≡ true → or_else w v ≡ w
or_else-given [] v h = cc
or_else-given (c ∷ w) v h = refl

or_else_empty : (w v : Text) → given w ≡ false → or_else w v ≡ v
or_else_empty [] v h = refl
or_else_empty (c ∷ w) v h = cc

copy_address-lookup :
    (env : Env) (x : Text)
    → copy_address env x ≡ (
        if same (text "OAD_ADDR") x
        then or_else (env (text "OAD_ADDR")) (legacy_address env)
        else env x)
unfolding copy_address legacy_address set_env
copy_address-lookup env x =
    elim (Bool-cases (given (env (text "SERVER_HOST")) || given (env (text "SERVER_PORT")))) [
      | inr k ↦ elim (Bool-cases (given (env (text "OAD_ADDR")))) [
        | inl g ↦ rw (k, g) (stays x)
        | inr g ↦ rw (k, g) (stays x)
      ]
      | inl k ↦ elim (Bool-cases (given (env (text "OAD_ADDR")))) [
        | inl g ↦ rw (k, g, or_else-given (env (text "OAD_ADDR")) _ g) (same_stays x)
        | inr g ↦ rw (k, g, or_else_empty (env (text "OAD_ADDR")) _ g) refl
      ]
    ]
  where
    same_stays :
        (y : Text) → env y ≡ (if same (text "OAD_ADDR") y then env (text "OAD_ADDR") else env y)
    same_stays y = elim (Bool-cases (same (text "OAD_ADDR") y)) [
      | inl e ↦ rw e (ap env (sym (same→eq (text "OAD_ADDR") y e)))
      | inr e ↦ rw e refl
    ]

    stays :
        (y : Text)
        → env y ≡ (if same (text "OAD_ADDR") y then or_else (env (text "OAD_ADDR")) [] else env y)
    stays y = rw (or_else_nil (env (text "OAD_ADDR"))) (same_stays y)

abbrev copy_six : Env → Env
copy_six env = copy_legacy_env (text "DB_MIN_CONNS") (text "OAD_DB_MIN_CONNS") (
    copy_legacy_env (text "DB_MAX_CONNS") (text "OAD_DB_MAX_CONNS") (
      copy_legacy_env (text "SERVER_SHUTDOWN_TIMEOUT") (text "OAD_SHUTDOWN_TIMEOUT") (
        copy_legacy_env (text "MTLS_HEADER") (text "OAD_MTLS_HEADER") (
          copy_legacy_env (text "AUTH_MODE") (text "OAD_AUTH_MODE")
            (copy_legacy_env (text "DATABASE_URL") (text "OAD_DATABASE") env)))))

-- The variables that the last four copies leave alone.
last_four :
    (env : Env) (x : Text)
    → same (text "OAD_JWT_AUDIENCE") x ≡ false
    → same (text "OAD_JWT_ISSUER") x ≡ false
    → same (text "OAD_JWKS_URL") x ≡ false
    → warn_deprecated env x ≡ copy_address (copy_six env) x
unfolding warn_deprecated
last_four env x h1 h2 h3 =
    rw
      (
        copy_legacy_env-lookup, h1, copy_legacy_env_comma-lookup, h2, copy_legacy_env_comma-lookup,
        h3,
      )
      refl

-- The variables that the first six leave alone.
first_six :
    (env : Env) (x : Text)
    → same (text "OAD_DB_MIN_CONNS") x ≡ false
    → same (text "OAD_DB_MAX_CONNS") x ≡ false
    → same (text "OAD_SHUTDOWN_TIMEOUT") x ≡ false
    → same (text "OAD_MTLS_HEADER") x ≡ false
    → same (text "OAD_AUTH_MODE") x ≡ false
    → same (text "OAD_DATABASE") x ≡ false
    → copy_six env x ≡ env x
first_six env x h1 h2 h3 h4 h5 h6 =
    rw
      (
        copy_legacy_env-lookup, h1, copy_legacy_env-lookup, h2, copy_legacy_env-lookup, h3,
        copy_legacy_env-lookup, h4, copy_legacy_env-lookup, h5, copy_legacy_env-lookup, h6,
      )
      refl

pub warn_deprecated-database :
    (env : Env)
    → warn_deprecated env (text "OAD_DATABASE")
      ≡ or_else (env (text "OAD_DATABASE")) (env (text "DATABASE_URL"))
unfolding same
warn_deprecated-database env =
    last_four env (text "OAD_DATABASE") refl refl refl
    ∙ rw
        (
          copy_address-lookup, copy_legacy_env-lookup, copy_legacy_env-lookup,
          copy_legacy_env-lookup, copy_legacy_env-lookup, copy_legacy_env-lookup,
          copy_legacy_env-lookup,
        )
        refl

pub warn_deprecated-auth_mode :
    (env : Env)
    → warn_deprecated env (text "OAD_AUTH_MODE")
      ≡ or_else (env (text "OAD_AUTH_MODE")) (env (text "AUTH_MODE"))
unfolding same
warn_deprecated-auth_mode env =
    last_four env (text "OAD_AUTH_MODE") refl refl refl
    ∙ rw
        (
          copy_address-lookup, copy_legacy_env-lookup, copy_legacy_env-lookup,
          copy_legacy_env-lookup, copy_legacy_env-lookup, copy_legacy_env-lookup,
          copy_legacy_env-lookup, copy_legacy_env-lookup,
        )
        refl

pub warn_deprecated-shutdown_timeout :
    (env : Env)
    → warn_deprecated env (text "OAD_SHUTDOWN_TIMEOUT")
      ≡ or_else (env (text "OAD_SHUTDOWN_TIMEOUT")) (env (text "SERVER_SHUTDOWN_TIMEOUT"))
unfolding same
warn_deprecated-shutdown_timeout env =
    last_four env (text "OAD_SHUTDOWN_TIMEOUT") refl refl refl
    ∙ rw
        (
          copy_address-lookup, copy_legacy_env-lookup, copy_legacy_env-lookup,
          copy_legacy_env-lookup, copy_legacy_env-lookup, copy_legacy_env-lookup,
          copy_legacy_env-lookup, copy_legacy_env-lookup, copy_legacy_env-lookup,
          copy_legacy_env-lookup,
        )
        refl

pub warn_deprecated-addr :
    (env : Env)
    → warn_deprecated env (text "OAD_ADDR") ≡ or_else (env (text "OAD_ADDR")) (legacy_address env)
unfolding same legacy_address
warn_deprecated-addr env =
    let kept = λ (x : Text). first_six env x in
    last_four env (text "OAD_ADDR") refl refl refl
    ∙ rw
        (
          copy_address-lookup,
          kept (text "OAD_ADDR") refl refl refl refl refl refl,
          kept (text "SERVER_HOST") refl refl refl refl refl refl,
          kept (text "SERVER_PORT") refl refl refl refl refl refl,
        )
        refl

-- A variable that has no old name.
untouched :
    (env : Env) (x : Text)
    → same (text "OAD_JWT_AUDIENCE") x ≡ false
    → same (text "OAD_JWT_ISSUER") x ≡ false
    → same (text "OAD_JWKS_URL") x ≡ false
    → same (text "OAD_ADDR") x ≡ false
    → copy_six env x ≡ env x
    → warn_deprecated env x ≡ env x
untouched env x h1 h2 h3 h4 k = last_four env x h1 h2 h3 ∙ rw (copy_address-lookup, h4) k

pub warn_deprecated-log :
    (env : Env)
    → (warn_deprecated env (text "OAD_LOG_LEVEL") ≡ env (text "OAD_LOG_LEVEL"))
      × (warn_deprecated env (text "OAD_LOG_FORMAT") ≡ env (text "OAD_LOG_FORMAT"))
unfolding same
warn_deprecated-log env = (
  untouched env (text "OAD_LOG_LEVEL") refl refl refl refl
      (first_six env (text "OAD_LOG_LEVEL") refl refl refl refl refl refl),
  untouched env (text "OAD_LOG_FORMAT") refl refl refl refl
      (first_six env (text "OAD_LOG_FORMAT") refl refl refl refl refl refl),
)

-- A provider's variables, where they are given by their new names.
pub warn_deprecated-provider :
    (env : Env)
    → given (env (text "OAD_JWKS_URL")) ≡ true
    → given (env (text "OAD_JWT_ISSUER")) ≡ true
    → given (env (text "OAD_JWT_AUDIENCE")) ≡ true
    → (warn_deprecated env (text "OAD_JWKS_URL") ≡ env (text "OAD_JWKS_URL"))
      × (warn_deprecated env (text "OAD_JWT_ISSUER") ≡ env (text "OAD_JWT_ISSUER"))
      × (warn_deprecated env (text "OAD_JWT_AUDIENCE") ≡ env (text "OAD_JWT_AUDIENCE"))
unfolding warn_deprecated same
warn_deprecated-provider env h1 h2 h3 = (
  rw
      (
        copy_legacy_env-lookup,
        copy_legacy_env_comma-lookup,
        copy_legacy_env_comma-lookup,
        copy_address-lookup,
        first_six env (text "OAD_JWKS_URL") refl refl refl refl refl refl,
        or_else-given (env (text "OAD_JWKS_URL")) _ h1,
      )
      refl,
  rw
      (
        copy_legacy_env-lookup,
        copy_legacy_env_comma-lookup,
        copy_legacy_env_comma-lookup,
        copy_address-lookup,
        first_six env (text "OAD_JWT_ISSUER") refl refl refl refl refl refl,
        or_else-given (env (text "OAD_JWT_ISSUER")) _ h2,
      )
      refl,
  rw
      (
        copy_legacy_env-lookup,
        copy_legacy_env_comma-lookup,
        copy_legacy_env_comma-lookup,
        copy_address-lookup,
        first_six env (text "OAD_JWT_AUDIENCE") refl refl refl refl refl refl,
        or_else-given (env (text "OAD_JWT_AUDIENCE")) _ h3,
      )
      refl,
)
