-- ===== src/Config/Numbers.antt =====
-- strconv.ParseInt and strconv.Atoi, in base 10.
use oad.Base.{
  ℕ, zero, suc, ◌+◌, ◌-◌, ◌*◌, Bool, true, false, Option, none, some, [], ◌∷◌, ltb, leb, ◌==◌,
  if◌then◌else◌,
}
use oad.Scim.Text.{Text, is_digit}

pub data ℤ : Type 0 where
  pos : ℕ → ℤ
  negsuc : ℕ → ℤ

abbrev negate : ℕ → ℤ
negate zero = pos zero
negate (suc n) = negsuc n

abbrev pub is_zero : ℤ → Bool
is_zero (pos zero) = true
is_zero _ = false

abbrev pub is_positive : ℤ → Bool
is_positive (pos (suc n)) = true
is_positive _ = false

unfoldable pub digits : ℕ → Text → Option ℕ
unfolding is_digit
digits acc [] = some acc
digits acc (c ∷ s) =
    let rest = digits (acc * 10 + (c - b'0')) s in if is_digit c then rest else none

unfoldable parse_natural : Text → Option ℕ
unfolding digits
parse_natural [] = none
parse_natural (c ∷ s) = digits 0 (c ∷ s)

-- The integers from `- limit` up to `limit - 1`.
unfoldable pub parse_int : ℕ → Text → Option ℤ
unfolding parse_natural
parse_int limit [] = none
parse_int limit (c ∷ s) =
    if c == b'-'
    then elim (parse_natural s) [
      | none ↦ none
      | some n ↦ if leb n limit then some (negate n) else none
    ]
    else elim (parse_natural (if c == b'+' then s else c ∷ s)) [
      | none ↦ none
      | some n ↦ if ltb n limit then some (pos n) else none
    ]
