-- ===== src/Scim/Sql/Like.antt =====
-- What the patterns of likePattern match (internal/scim/users/filter.go, internal/scim/groups/filter.go).
use oad.Base.{
  ℕ, ◌≡◌, refl, sym, ap, ◌∙◌, Bool, true, false, ◌&&◌, ◌||◌, [], ◌∷◌, ◌++◌, ◌==◌, ==_iff,
  Bool-cases, inl, inr, if◌then◌else◌,
}
use oad.Scim.Text.{Text}
use oad.Scim.Lexer.{co, sw, ew}
use oad.Scim.Sql.{replace_all, escape_like, like_pattern}

abbrev pub is_special : ℕ → Bool
is_special c = (c == b'%') || ((c == b'_') || (c == b'\\'))

-- What PostgreSQL documents of `text ILIKE pattern ESCAPE '\'`, on patterns that do not use `_`:
-- `alike` is the equality of characters without regard to case.
pub record IlikeLaws (alike : ℕ → ℕ → Bool) (ilike : Text → Text → Bool) : Type 0 where
  pub empty_empty : ilike [] [] ≡ true
  pub empty_more : (d : ℕ) (t : Text) → ilike [] (d ∷ t) ≡ false
  pub escape_empty : (c : ℕ) (p : Text) → ilike (b'\\' ∷ c ∷ p) [] ≡ false
  pub escape_more :
      (c d : ℕ) (p t : Text) → ilike (b'\\' ∷ c ∷ p) (d ∷ t) ≡ (alike c d && ilike p t)
  pub plain_empty : (c : ℕ) (p : Text) → is_special c ≡ false → ilike (c ∷ p) [] ≡ false
  pub plain_more :
      (c d : ℕ) (p t : Text)
      → is_special c ≡ false
      → ilike (c ∷ p) (d ∷ t) ≡ (alike c d && ilike p t)
  pub percent_empty : (p : Text) → ilike (b'%' ∷ p) [] ≡ ilike p []
  pub percent_more :
      (p : Text) (d : ℕ) (t : Text)
      → ilike (b'%' ∷ p) (d ∷ t) ≡ (ilike p (d ∷ t) || ilike (b'%' ∷ p) t)

-- The three searches, by their meaning.
module _ (alike : ℕ → ℕ → Bool) where
  unfoldable equal_fold : Text → Text → Bool
  equal_fold [] [] = true
  equal_fold (c ∷ s) (d ∷ t) = alike c d && equal_fold s t
  equal_fold _ _ = false

  unfoldable pub starts_with : Text → Text → Bool
  starts_with [] t = true
  starts_with (c ∷ s) [] = false
  starts_with (c ∷ s) (d ∷ t) = alike c d && starts_with s t

  unfoldable pub contains_text : Text → Text → Bool
  unfolding starts_with
  contains_text s [] = starts_with s []
  contains_text s (d ∷ t) = starts_with s (d ∷ t) || contains_text s t

  unfoldable pub ends_with : Text → Text → Bool
  unfolding equal_fold
  ends_with s [] = equal_fold s []
  ends_with s (d ∷ t) = equal_fold s (d ∷ t) || ends_with s t

-- The three replacements amount to one pass.
unfoldable escape_one : ℕ → Text → Text
escape_one c s = if is_special c then b'\\' ∷ c ∷ s else c ∷ s

escape_like-cons : (c : ℕ) (s : Text) → escape_like (c ∷ s) ≡ escape_one c (escape_like s)
unfolding escape_like replace_all escape_one
escape_like-cons c s = elim (Bool-cases (c == b'\\')) [
  | inl e ↦ rw ((==_iff c b'\\').0 e) refl
  | inr e ↦ elim (Bool-cases (c == b'%')) [
    | inl e₁ ↦ rw ((==_iff c b'%').0 e₁) refl
    | inr e₁ ↦ elim (Bool-cases (c == b'_')) [
      | inl e₂ ↦ rw ((==_iff c b'_').0 e₂) refl
      | inr e₂ ↦ rw (e, e₁, e₂) refl
    ]
  ]
]

escape_one-append : (c : ℕ) (p q : Text) → escape_one c p ++ q ≡ escape_one c (p ++ q)
unfolding escape_one
escape_one-append c p q = elim (Bool-cases (is_special c)) [ inl e ↦ rw e refl | inr e ↦ rw e refl ]

module _ (alike : ℕ → ℕ → Bool) (ilike : Text → Text → Bool) (laws : IlikeLaws alike ilike) where
  escaped_empty : (c : ℕ) (p : Text) → ilike (escape_one c p) [] ≡ false
  unfolding escape_one
  escaped_empty c p = elim (Bool-cases (is_special c)) [
    | inl e ↦ rw e (laws.escape_empty c p)
    | inr e ↦ rw e (laws.plain_empty c p e)
  ]

  escaped_more : (c d : ℕ) (p t : Text) → ilike (escape_one c p) (d ∷ t) ≡ (alike c d && ilike p t)
  unfolding escape_one
  escaped_more c d p t = elim (Bool-cases (is_special c)) [
    | inl e ↦ rw e (laws.escape_more c d p t)
    | inr e ↦ rw e (laws.plain_more c d p t e)
  ]

  exact : (s t : Text) → ilike (escape_like s) t ≡ equal_fold alike s t
  unfolding equal_fold escape_like replace_all
  exact [] [] = laws.empty_empty
  exact [] (d ∷ t) = laws.empty_more d t
  exact (c ∷ s) [] = rw (escape_like-cons c s) (escaped_empty c (escape_like s))
  exact (c ∷ s) (d ∷ t) =
      rw (escape_like-cons c s)
        (escaped_more c d (escape_like s) t ∙ ap (λ b. alike c d && b) (exact s t))

  any_text : (t : Text) → ilike (b'%' ∷ []) t ≡ true
  any_text [] = laws.percent_empty [] ∙ laws.empty_empty
  any_text (d ∷ t) = laws.percent_more [] d t ∙ rw (laws.empty_more d t) (any_text t)

  prefix_then : (s t : Text) → ilike (escape_like s ++ (b'%' ∷ [])) t ≡ starts_with alike s t
  unfolding starts_with escape_like replace_all
  prefix_then [] t = any_text t
  prefix_then (c ∷ s) [] =
      rw (escape_like-cons c s, escape_one-append c (escape_like s) (b'%' ∷ []))
        (escaped_empty c (escape_like s ++ (b'%' ∷ [])))
  prefix_then (c ∷ s) (d ∷ t) =
      rw (escape_like-cons c s, escape_one-append c (escape_like s) (b'%' ∷ []))
        (escaped_more c d (escape_like s ++ (b'%' ∷ [])) t
          ∙ ap (λ b. alike c d && b) (prefix_then s t))

  -- Behind a leading % a pattern is tried at every position.
  anywhere :
      (p : Text) (r g : Text → Bool)
      → ((t : Text) → ilike p t ≡ r t)
      → (g [] ≡ r [])
      → ((d : ℕ) (t : Text) → g (d ∷ t) ≡ (r (d ∷ t) || g t))
      → (t : Text) → ilike (b'%' ∷ p) t ≡ g t
  anywhere p r g h e f [] = laws.percent_empty p ∙ (h [] ∙ sym e)
  anywhere p r g h e f (d ∷ t) =
      laws.percent_more p d t ∙ rw (h (d ∷ t), anywhere p r g h e f t) (sym (f d t))

  -- If ILIKE does as PostgreSQL documents, then co finds the texts that contain the value, sw those
  -- that start with it and ew those that end with it, without regard to case: the characters %, _
  -- and \ of a value stand for themselves.
  pub like_pattern-matches :
      (s t : Text)
      → (ilike (like_pattern co s) t ≡ contains_text alike s t)
        × (ilike (like_pattern sw s) t ≡ starts_with alike s t)
        × (ilike (like_pattern ew s) t ≡ ends_with alike s t)
  unfolding like_pattern contains_text ends_with
  like_pattern-matches s t = (
    anywhere (escape_like s ++ (b'%' ∷ [])) (starts_with alike s) (contains_text alike s)
        (prefix_then s) refl (λ d t. refl) t,
    prefix_then s t,
    anywhere (escape_like s) (equal_fold alike s) (ends_with alike s) (exact s) refl (λ d t. refl)
        t,
  )
