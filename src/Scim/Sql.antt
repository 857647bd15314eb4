-- ===== src/Scim/Sql.antt =====
-- FilterToSQL of internal/scim/users/filter.go and internal/scim/groups/filter.go, which differ in
-- the table of attributes.
pub mod Like
pub mod Placeholders
pub mod Splice
pub mod Spliced
pub mod Apart
pub mod Shifted
pub mod Written
mod Constant
mod Supported
mod Tests
use oad.Base.{
  ℕ, ◌+◌, Bool, true, false, Option, none, some, List, [], ◌∷◌, ◌++◌, length, ◌==◌, if◌then◌else◌,
  Result, ok, err, ◌>>=◌,
}
use oad.Scim.Text.{Text, text, same}
use oad.Scim.Lexer.{CompareOp, LogicOp, logic_and, logic_or, eq, ne, co, sw, ew}
use oad.Scim.Filter.{Value, Expr, compare, present, logic}

-- The text of a fragment in pieces: constant text, and `$n`.
pub data Piece : Type 0 where
  raw : Text → Piece
  placeholder : ℕ → Piece

abbrev pub Sql : Type 0
Sql = List Piece

-- attrSpec
pub record AttrSpec : Type 0 where
  pub sql : Text
  pub is_string : Bool

pub data SqlError : Type 0 where
  unsupported_attribute : Text → SqlError
  strings_only string_expected : CompareOp → SqlError

-- userAttrs
unfoldable pub user_attrs : Text → Option AttrSpec
unfolding same
user_attrs name =
    if same name (text "username")
    then some (record { sql = text "e.properties->>'userName'"; is_string = true })
    else if same name (text "displayname")
    then some (record { sql = text "e.properties->>'displayName'"; is_string = true })
    else if same name (text "active")
    then some (record { sql = text "(e.properties->>'active')::bool"; is_string = false })
    else if same name (text "emails.value")
    then some (record { sql = text "e.properties->>'email'"; is_string = true })
    else if same name (text "id")
    then some (record { sql = text "e.id::text"; is_string = true })
    else if same name (text "externalid")
    then some (record { sql = text "ei.external_subject"; is_string = true })
    else none

-- groupAttrs
unfoldable pub group_attrs : Text → Option AttrSpec
unfolding same
group_attrs name =
    if same name (text "displayname")
    then some (record { sql = text "e.properties->>'displayName'"; is_string = true })
    else if same name (text "id")
    then some (record { sql = text "e.id::text"; is_string = true })
    else if same name (text "externalid")
    then some (record { sql = text "ei.external_subject"; is_string = true })
    else none

-- strings.ReplaceAll(s, "c", `\c`)
unfoldable pub replace_all : ℕ → Text → Text
replace_all c [] = []
replace_all c (r ∷ rs) = if r == c then b'\\' ∷ r ∷ replace_all c rs else r ∷ replace_all c rs

-- escapeLike
unfoldable pub escape_like : Text → Text
unfolding replace_all
escape_like s = replace_all b'_' (replace_all b'%' (replace_all b'\\' s))

-- likePattern
unfoldable pub like_pattern : CompareOp → Text → Text
unfolding escape_like
like_pattern co s = b'%' ∷ escape_like s ++ (b'%' ∷ [])
like_pattern sw s = escape_like s ++ (b'%' ∷ [])
like_pattern ew s = b'%' ∷ escape_like s
like_pattern _ s = escape_like s

-- A fragment, and the builder's `args` after it.
abbrev pub Built : Type 0 → Type 0
Built F = Result SqlError (Sql × List (Value F))

abbrev pub upper : LogicOp → Text
upper logic_and = text " AND "
upper logic_or = text " OR "

module _ (attrs : Text → Option AttrSpec) where
  unfoldable pub looked_up : Text → Result SqlError AttrSpec
  looked_up name = elim (attrs name) [
    | none ↦ err (unsupported_attribute name)
    | some spec ↦ ok spec
  ]

module _ {F : Type 0} where
  unfoldable pub build_equality : AttrSpec → Text → Value F → List (Value F) → Built F
  build_equality spec sign v args =
      let args' = args ++ (v ∷ []) in
      ok ((raw spec.sql ∷ raw sign ∷ placeholder (length args') ∷ []), args')

  unfoldable pub build_like : AttrSpec → CompareOp → Value F → List (Value F) → Built F
  unfolding like_pattern
  build_like spec op (Value.string s) args =
      let args' = args ++ (Value.string (like_pattern op s) ∷ []) in
      if spec.is_string
      then ok (
        (raw spec.sql
            ∷ raw (text " ILIKE ")
            ∷ placeholder (length args')
            ∷ raw (text " ESCAPE '\\'")
            ∷ []),
        args',
      )
      else err (strings_only op)
  build_like spec op _ args =
      if spec.is_string then err (string_expected op) else err (strings_only op)

  unfoldable pub build_compare : AttrSpec → CompareOp → Value F → List (Value F) → Built F
  unfolding build_equality build_like
  build_compare spec eq v args = build_equality spec (text " = ") v args
  build_compare spec ne v args = build_equality spec (text " <> ") v args
  build_compare spec co v args = build_like spec co v args
  build_compare spec sw v args = build_like spec sw v args
  build_compare spec ew v args = build_like spec ew v args

module _ {F : Type 0} (attrs : Text → Option AttrSpec) where
  -- build, with buildAtom in its first two clauses
  unfoldable pub build : Expr F → List (Value F) → Built F
  unfolding build_compare looked_up
  build (compare name op v) args = do spec ← looked_up attrs name; build_compare spec op v args
  build (present name) args = do
    spec ← looked_up attrs name
    ok ((raw spec.sql ∷ raw (text " IS NOT NULL") ∷ []), args)
  build (logic o l r) args = do
    (left, args₁) ← build l args
    (right, args₂) ← build r args₁
    ok ((raw (text "(") ∷ left ++ (raw (upper o) ∷ right ++ (raw (text ")") ∷ []))), args₂)

  unfoldable pub filter_to_sql : Expr F → Built F
  unfolding build
  filter_to_sql e = build e []
