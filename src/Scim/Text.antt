-- ===== src/Scim/Text.antt =====
-- Go strings as lists of code points ([]rune), and the character classes of
-- internal/scim/parser/filter.go.
use Prim.Native.Char.{code}
use oad.Base.{
  ℕ, ◌+◌, ◌≡◌, ◌↔◌, refl, sym, ◌∙◌, Bool, true, false, ◌&&◌, ◌||◌, List, [], ◌∷◌, map, String,
  arith, leb, ◌==◌, if◌then◌else◌, Bool-cases, inl, inr,
}

abbrev pub Text : Type 0
Text = List ℕ

abbrev pub text : String → Text
text String.[] = []
text (String.◌∷◌ c s) = code c ∷ text s

-- Go's `==` on strings.
unfoldable pub same : Text → Text → Bool
same [] [] = true
same (a ∷ s) (b ∷ t) = (a == b) && same s t
same _ _ = false

pub same→eq : (s t : Text) → same s t ≡ true → s ≡ t
unfolding same
same→eq [] [] h = cc
same→eq [] (b ∷ t) h = cc
same→eq (a ∷ s) [] h = cc
same→eq (a ∷ s) (b ∷ t) h = ground (arith, same→eq s t)

pub same_refl : (s : Text) → same s s ≡ true
unfolding same
same_refl [] = cc
same_refl (a ∷ s) = ground (arith, same_refl s)

same_iff : (s t : Text) → (same s t ≡ true) ↔ (s ≡ t)
same_iff s t = (same→eq s t, λ e. rw e (same_refl t))

pub same_comm : (s t : Text) → same s t ≡ same t s
same_comm s t = elim (Bool-cases (same s t)) [
  | inl h ↦ rw (same→eq s t h) refl
  | inr h ↦ elim (Bool-cases (same t s)) [
    | inr k ↦ h ∙ sym k
    | inl k ↦ let e : t ≡ s = same→eq t s k in rw e refl
  ]
]

-- isLetter
unfoldable pub is_letter : ℕ → Bool
is_letter r = (leb b'a' r && leb r b'z') || ((leb b'A' r && leb r b'Z') || (r == b'_'))

-- isDigit
unfoldable pub is_digit : ℕ → Bool
is_digit r = leb b'0' r && leb r b'9'

-- unicode.IsSpace
unfoldable pub is_space : ℕ → Bool
is_space r =
    (leb 9 r && leb r 13)
    || ((r == 32)
        || ((r == 0x85)
            || ((r == 0xA0)
                || ((r == 0x1680)
                    || ((leb 0x2000 r && leb r 0x200A)
                        || ((r == 0x2028)
                            || ((r == 0x2029)
                                || ((r == 0x202F) || ((r == 0x205F) || (r == 0x3000))))))))))

-- strings.ToLower, on the ASCII letters; the program applies it to identifiers, and compares its
-- result with ASCII words that hold neither of the two letters to which other code points are mapped.
unfoldable to_lower : ℕ → ℕ
to_lower r = if leb b'A' r && leb r b'Z' then r + 32 else r

unfoldable pub lower : Text → Text
unfolding to_lower
lower = map to_lower

to_lower_idem : (r : ℕ) → to_lower (to_lower r) ≡ to_lower r
unfolding to_lower
to_lower_idem r = ground arith

lower_idem : (s : Text) → lower (lower s) ≡ lower s
unfolding lower
lower_idem [] = cc
lower_idem (r ∷ s) = cc (to_lower_idem r, lower_idem s)
