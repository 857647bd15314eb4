-- ===== src/Config/Environment.antt =====
-- internal/config/loader.go: the variables of the environment, and the ones of old names.
use oad.Base.{Bool, true, false, not, ◌&&◌, ◌||◌, [], ◌∷◌, ◌++◌, ◌==◌, if◌then◌else◌}
use oad.Scim.Text.{Text, text, same, is_space}

-- os.Getenv: a variable that is not set is empty.
abbrev pub Env : Type 0
Env = Text → Text

-- os.Setenv
unfoldable pub set_env : Text → Text → Env → Env
unfolding same
set_env name value env other = if same name other then value else env other

abbrev pub given : Text → Bool
given [] = false
given (c ∷ s) = true

-- copyLegacyEnv
unfoldable pub copy_legacy_env : Text → Text → Env → Env
unfolding set_env
copy_legacy_env old_name new_name env =
    if given (env old_name) && not (given (env new_name))
    then set_env new_name (env old_name) env
    else env

-- strings.SplitN(s, ",", 2)[0]
unfoldable pub before_comma : Text → Text
before_comma [] = []
before_comma (c ∷ s) = let rest = before_comma s in if c == b',' then [] else c ∷ rest

unfoldable pub trim_left : Text → Text
unfolding is_space
trim_left [] = []
trim_left (c ∷ s) = let rest = trim_left s in if is_space c then rest else c ∷ s

unfoldable pub trim_right : Text → Text
unfolding is_space
trim_right [] = []
trim_right (c ∷ s) =
    let rest = trim_right s in if is_space c && not (given rest) then [] else c ∷ rest

-- strings.TrimSpace
unfoldable pub trim_space : Text → Text
unfolding trim_left trim_right
trim_space s = trim_right (trim_left s)

-- copyLegacyEnvComma
unfoldable pub copy_legacy_env_comma : Text → Text → Env → Env
unfolding set_env before_comma trim_space
copy_legacy_env_comma old_name new_name env =
    if given (env old_name) && not (given (env new_name))
    then set_env new_name (trim_space (before_comma (env old_name))) env
    else env

abbrev pub or_else : Text → Text → Text
or_else [] other = other
or_else (c ∷ s) other = c ∷ s

-- SERVER_HOST and SERVER_PORT as OAD_ADDR.
unfoldable pub copy_address : Env → Env
unfolding set_env
copy_address env =
    let host = env (text "SERVER_HOST") in
    let port = env (text "SERVER_PORT") in
    if not (given (env (text "OAD_ADDR"))) && (given host || given port)
    then set_env (text "OAD_ADDR")
        (or_else host (text "0.0.0.0") ++ (b':' ∷ or_else port (text "8080"))) env
    else env

-- warnDeprecated, less the warnings it logs.
unfoldable pub warn_deprecated : Env → Env
unfolding copy_legacy_env copy_legacy_env_comma copy_address
warn_deprecated env =
    let env₁ = copy_legacy_env (text "DATABASE_URL") (text "OAD_DATABASE") env in
    let env₂ = copy_legacy_env (text "AUTH_MODE") (text "OAD_AUTH_MODE") env₁ in
    let env₃ = copy_legacy_env (text "MTLS_HEADER") (text "OAD_MTLS_HEADER") env₂ in
    let env₄ =
      copy_legacy_env (text "SERVER_SHUTDOWN_TIMEOUT") (text "OAD_SHUTDOWN_TIMEOUT") env₃ in
    let env₅ = copy_legacy_env (text "DB_MAX_CONNS") (text "OAD_DB_MAX_CONNS") env₄ in
    let env₆ = copy_legacy_env (text "DB_MIN_CONNS") (text "OAD_DB_MIN_CONNS") env₅ in
    let env₇ = copy_address env₆ in
    let env₈ = copy_legacy_env_comma (text "JWKS_URL") (text "OAD_JWKS_URL") env₇ in
    let env₉ = copy_legacy_env_comma (text "JWT_ISSUER") (text "OAD_JWT_ISSUER") env₈ in
    copy_legacy_env (text "JWT_AUDIENCE") (text "OAD_JWT_AUDIENCE") env₉
