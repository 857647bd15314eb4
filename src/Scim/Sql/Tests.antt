-- ===== src/Scim/Sql/Tests.antt =====
-- Runs of the translation of internal/scim/users/filter.go.
use oad.Base.{
  ℕ, ◌≡◌, refl, Bool, true, false, ◌&&◌, ◌||◌, List, [], ◌∷◌, ◌==◌, if◌then◌else◌, ok, arith,
}
use oad.Scim.Text.{Text, text}
use oad.Scim.Lexer.{logic_and, eq, co, sw}
use oad.Scim.Filter.{Value, Expr, compare, logic}
use oad.Scim.Sql.{raw, placeholder, Sql, user_attrs, filter_to_sql, like_pattern}
use oad.Scim.Sql.Like.{
  IlikeLaws, contains_text, starts_with, ends_with, like_pattern-matches, is_special,
}
use oad.Scim.Sql.Placeholders.{bound_values, placeholders, count_from, filter_to_sql-binds}
use oad.Scim.Sql.Constant.{replace_strings, filter_to_sql-replace_strings}
use oad.Scim.Sql.Supported.{is_ok, is_supported, filter_to_sql-is_supported}

-- A pattern matcher that keeps case.
abbrev or_later : (Text → Bool) → Text → Bool
or_later m [] = m []
or_later m (d ∷ t) = m (d ∷ t) || or_later m t

abbrev one_char : ℕ → (Text → Bool) → Text → Bool
one_char c m [] = false
one_char c m (d ∷ t) = (c == d) && m t

abbrev sample_like : Text → Text → Bool
sample_like [] [] = true
sample_like [] (d ∷ t) = false
sample_like (c ∷ []) t =
    let end = sample_like [] in
    if c == b'%' then or_later end t else if c == b'\\' then false else one_char c end t
sample_like (c ∷ e ∷ p) t =
    let one = sample_like (e ∷ p) in
    let two = sample_like p in
    if c == b'%' then or_later one t else if c == b'\\' then one_char e two t else one_char c one t

plain_empty_sample : (c : ℕ) (p : Text) → is_special c ≡ false → sample_like (c ∷ p) [] ≡ false
plain_empty_sample c [] h = ground arith
plain_empty_sample c (e ∷ p) h = ground arith

plain_more_sample :
    (c d : ℕ) (p t : Text)
    → is_special c ≡ false
    → sample_like (c ∷ p) (d ∷ t) ≡ ((c == d) && sample_like p t)
plain_more_sample c d [] t h = ground arith
plain_more_sample c d (e ∷ p) t h = ground arith

percent_empty_sample : (p : Text) → sample_like (b'%' ∷ p) [] ≡ sample_like p []
percent_empty_sample [] = refl
percent_empty_sample (e ∷ p) = refl

percent_more_sample :
    (p : Text) (d : ℕ) (t : Text)
    → sample_like (b'%' ∷ p) (d ∷ t) ≡ (sample_like p (d ∷ t) || sample_like (b'%' ∷ p) t)
percent_more_sample [] d t = refl
percent_more_sample (e ∷ p) d t = refl

sample_laws : IlikeLaws (λ c d. c == d) sample_like
sample_laws = record {
  empty_empty = refl;
  empty_more = λ d t. refl;
  escape_empty = λ c p. refl;
  escape_more = λ c d p t. refl;
  plain_empty = plain_empty_sample;
  plain_more = plain_more_sample;
  percent_empty = percent_empty_sample;
  percent_more = percent_more_sample;
}

like_pattern-matches_example :
    (sample_like (text "%50\\%%") (text "50% off") ≡ true)
    × (sample_like (text "50\\%%") (text "50% off") ≡ true)
    × (sample_like (text "%50\\%") (text "50% off") ≡ false)
unfolding contains_text starts_with ends_with like_pattern
like_pattern-matches_example =
    like_pattern-matches (λ c d. c == d) sample_like sample_laws (text "50%") (text "50% off")

-- userName sw "a_" and active eq true
abbrev sample_filter : Expr ℕ
sample_filter =
    logic logic_and (compare (text "username") sw (Value.string (text "a_")))
      (compare (text "active") eq (Value.bool true))

abbrev sample_sql : Sql
sample_sql =
    raw (text "(")
    ∷ raw (text "e.properties->>'userName'")
    ∷ raw (text " ILIKE ")
    ∷ placeholder 1
    ∷ raw (text " ESCAPE '\\'")
    ∷ raw (text " AND ")
    ∷ raw (text "(e.properties->>'active')::bool")
    ∷ raw (text " = ")
    ∷ placeholder 2
    ∷ raw (text ")")
    ∷ []

abbrev sample_args : List (Value ℕ)
sample_args = Value.string (text "a\\_%") ∷ Value.bool true ∷ []

sample-filter_to_sql : filter_to_sql user_attrs sample_filter ≡ ok (sample_sql, sample_args)
unfolding filter_to_sql user_attrs
sample-filter_to_sql = refl

filter_to_sql-binds_example :
    (sample_args ≡ bound_values sample_filter) × (placeholders sample_sql ≡ 1 ∷ 2 ∷ [])
unfolding count_from
filter_to_sql-binds_example =
    filter_to_sql-binds user_attrs sample_filter sample_sql sample_args sample-filter_to_sql

-- `active co "t"`: the column is no string.
abbrev refused_filter : Expr ℕ
refused_filter = compare (text "active") co (Value.string (text "t"))

filter_to_sql-is_supported_example : is_ok (filter_to_sql user_attrs refused_filter) ≡ false
unfolding is_supported user_attrs
filter_to_sql-is_supported_example = filter_to_sql-is_supported user_attrs refused_filter

-- The same filter, about another user name.
filter_to_sql-replace_strings_example :
    (args' : List (Value ℕ)) × (filter_to_sql user_attrs
        (replace_strings (λ s. text "' OR '1' = '1") sample_filter)
      ≡ ok (sample_sql, args'))
filter_to_sql-replace_strings_example =
    filter_to_sql-replace_strings (λ s. text "' OR '1' = '1") user_attrs sample_filter sample_sql
      sample_args sample-filter_to_sql
