-- ===== src/Scim/Sql/Shifted.antt =====
-- The fragments of internal/scim/users/filter.go and internal/scim/groups/filter.go stand apart.
use oad.Base.{
  ◌≡◌, refl, subst, true, Option, some, none, List, [], ◌∷◌, ◌++◌, Bool-cases, Option-cases, inl,
  inr, if◌then◌else◌, ok, err, Result-cases,
}
use oad.Scim.Text.{Text, text, same, is_digit}
use oad.Scim.Lexer.{CompareOp, LogicOp, eq, ne, co, sw, ew, logic_and, logic_or}
use oad.Scim.Filter.{Value, Expr, compare, present, logic}
use oad.Scim.Sql.{
  raw, Sql, AttrSpec, SqlError, Built, user_attrs, group_attrs, looked_up, build_equality,
  build_like, build_compare, build, filter_to_sql, upper,
}
use oad.Scim.Sql.Spliced.{is_plain}
use oad.Scim.Sql.Apart.{opens, is_apart, is_apart-append}

upper-opens : (o : LogicOp) (ps : Sql) → opens (raw (upper o) ∷ ps) ≡ true
unfolding is_digit
upper-opens logic_and ps = refl
upper-opens logic_or ps = refl

upper-plain : (o : LogicOp) → is_plain (upper o) ≡ true
unfolding is_plain
upper-plain logic_and = refl
upper-plain logic_or = refl

-- The columns of the attributes have no `$`.
abbrev pub PlainColumns : (Text → Option AttrSpec) → Type 0
PlainColumns attrs =
    (name : Text) (spec : AttrSpec) → attrs name ≡ some spec → is_plain spec.sql ≡ true

module _ {F : Type 0} where
  abbrev ApartBuilt : Built F → Type 0
  ApartBuilt (ok (sql, args)) = is_apart sql ≡ true
  ApartBuilt (err e) = Unit

  build_equality-Apart :
      (spec : AttrSpec) (sign : Text) (v : Value F) (args : List (Value F))
      → is_plain spec.sql ≡ true
      → is_plain sign ≡ true
      → ApartBuilt (build_equality spec sign v args)
  unfolding build_equality is_apart
  build_equality-Apart spec sign v args p q = rw (p, q) refl

  refused :
      (spec : AttrSpec) (op : CompareOp) (args : List (Value F))
      → ApartBuilt (
          if spec.is_string
          then err (SqlError.string_expected op)
          else err (SqlError.strings_only op))
  refused spec op args = elim (Bool-cases spec.is_string) [ inl e ↦ rw e tt | inr e ↦ rw e tt ]

  build_like-Apart :
      (spec : AttrSpec) (op : CompareOp) (v : Value F) (args : List (Value F))
      → is_plain spec.sql ≡ true
      → ApartBuilt (build_like spec op v args)
  unfolding build_like is_apart is_plain is_digit
  build_like-Apart spec op (Value.string s) args p = elim (Bool-cases spec.is_string) [
    | inr e ↦ rw e tt
    | inl e ↦ rw (e, p) refl
  ]
  build_like-Apart spec op (Value.float x) args p = refused spec op args
  build_like-Apart spec op (Value.bool b) args p = refused spec op args
  build_like-Apart spec op Value.null args p = refused spec op args

  build_compare-Apart :
      (spec : AttrSpec) (op : CompareOp) (v : Value F) (args : List (Value F))
      → is_plain spec.sql ≡ true
      → ApartBuilt (build_compare spec op v args)
  unfolding build_compare is_plain
  build_compare-Apart spec eq v args p = build_equality-Apart spec (text " = ") v args p refl
  build_compare-Apart spec ne v args p = build_equality-Apart spec (text " <> ") v args p refl
  build_compare-Apart spec co v args p = build_like-Apart spec co v args p
  build_compare-Apart spec sw v args p = build_like-Apart spec sw v args p
  build_compare-Apart spec ew v args p = build_like-Apart spec ew v args p

module _ (attrs : Text → Option AttrSpec) (plain : PlainColumns attrs) where
  looked_up-plain :
      (name : Text) (spec : AttrSpec) → looked_up attrs name ≡ ok spec → is_plain spec.sql ≡ true
  unfolding looked_up
  looked_up-plain name spec h = elim (Option-cases (attrs name)) [
    | inl e ↦
        let bad : err (SqlError.unsupported_attribute name) ≡ ok spec = rw (looked_up, e) at h in cc
    | inr (found, e) ↦
        let q : ok found ≡ ok spec = rw (looked_up, e) at h in
        let q' : found ≡ spec = cc in
        subst (λ (u : AttrSpec). is_plain u.sql ≡ true) q' (plain name found e)
  ]

  logic-apart :
      (o : LogicOp) (left right : Sql)
      → is_apart left ≡ true
      → is_apart right ≡ true
      → is_apart (raw (text "(") ∷ left ++ (raw (upper o) ∷ right ++ (raw (text ")") ∷ []))) ≡ true
  unfolding is_apart is_plain is_digit
  logic-apart o left right a b =
      let close = is_apart-append right (raw (text ")") ∷ []) b refl refl in
      is_apart-append left (raw (upper o) ∷ right ++ (raw (text ")") ∷ [])) a
        (rw (close, upper-plain o) refl) (upper-opens o (right ++ (raw (text ")") ∷ [])))

  module _ {F : Type 0} where
    build-Apart : (e : Expr F) (args : List (Value F)) → ApartBuilt (build attrs e args)
    unfolding build is_apart is_plain
    build-Apart (compare name op v) args = elim (Result-cases (looked_up attrs name)) [
      | inl (spec, h) ↦
          rw (h, build) (build_compare-Apart spec op v args (looked_up-plain name spec h))
      | inr (f, h) ↦ rw (h, build) tt
    ]
    build-Apart (present name) args = elim (Result-cases (looked_up attrs name)) [
      | inl (spec, h) ↦ rw (h, build, looked_up-plain name spec h) refl
      | inr (f, h) ↦ rw (h, build) tt
    ]
    build-Apart (logic o l r) args = elim (Result-cases (build attrs l args)) [
      | inr (f, h) ↦ rw (h, build) tt
      | inl ((left, args₁), h) ↦ elim (Result-cases (build attrs r args₁)) [
        | inr (f, k) ↦ rw (h, build, k) tt
        | inl ((right, args₂), k) ↦
            rw (h, build, k)
              (logic-apart o left right (subst ApartBuilt h (build-Apart l args))
                (subst ApartBuilt k (build-Apart r args₁)))
      ]
    ]

    pub filter_to_sql-apart :
        (e : Expr F) (sql : Sql) (args : List (Value F))
        → filter_to_sql attrs e ≡ ok (sql, args)
        → is_apart sql ≡ true
    unfolding filter_to_sql
    filter_to_sql-apart e sql args h = subst ApartBuilt h (build-Apart e [])

-- A column, if there is one, has no `$`.
abbrev Plain : Option AttrSpec → Type 0
Plain none = Unit
Plain (some spec) = is_plain spec.sql ≡ true

user_attrs-Plain : (name : Text) → Plain (user_attrs name)
unfolding user_attrs is_plain
user_attrs-Plain name = elim (Bool-cases (same name (text "username"))) [
  | inl a ↦ rw (user_attrs, a) refl
  | inr a ↦ elim (Bool-cases (same name (text "displayname"))) [
    | inl b ↦ rw (user_attrs, a, b) refl
    | inr b ↦ elim (Bool-cases (same name (text "active"))) [
      | inl c ↦ rw (user_attrs, a, b, c) refl
      | inr c ↦ elim (Bool-cases (same name (text "emails.value"))) [
        | inl d ↦ rw (user_attrs, a, b, c, d) refl
        | inr d ↦ elim (Bool-cases (same name (text "id"))) [
          | inl e ↦ rw (user_attrs, a, b, c, d, e) refl
          | inr e ↦ elim (Bool-cases (same name (text "externalid"))) [
            | inl f ↦ rw (user_attrs, a, b, c, d, e, f) refl
            | inr f ↦ rw (user_attrs, a, b, c, d, e, f) tt
          ]
        ]
      ]
    ]
  ]
]

pub user_attrs-PlainColumns : PlainColumns user_attrs
user_attrs-PlainColumns name spec h = subst Plain h (user_attrs-Plain name)

group_attrs-Plain : (name : Text) → Plain (group_attrs name)
unfolding group_attrs is_plain
group_attrs-Plain name = elim (Bool-cases (same name (text "displayname"))) [
  | inl a ↦ rw (group_attrs, a) refl
  | inr a ↦ elim (Bool-cases (same name (text "id"))) [
    | inl b ↦ rw (group_attrs, a, b) refl
    | inr b ↦ elim (Bool-cases (same name (text "externalid"))) [
      | inl c ↦ rw (group_attrs, a, b, c) refl
      | inr c ↦ rw (group_attrs, a, b, c) tt
    ]
  ]
]

pub group_attrs-PlainColumns : PlainColumns group_attrs
group_attrs-PlainColumns name spec h = subst Plain h (group_attrs-Plain name)
