-- ===== src/Scim/Sql/Splice.antt =====
-- shiftPlaceholders of internal/scim/users/repository.go and internal/scim/groups/repository.go, and the text of a
-- fragment of filter.go.
use oad.Base.{
  ◌≡◌, refl, ℕ, zero, suc, ◌+◌, ◌-◌, ◌*◌, ◌/◌, ◌%◌, true, false, [], ◌∷◌, ◌++◌, length, ltb, ◌==◌,
  if◌then◌else◌,
}
use oad.Scim.Text.{Text, text, is_digit}
use oad.Scim.Sql.{raw, placeholder, Sql}

-- %d of fmt, on a number.
unfoldable pub decimal_on : ℕ → ℕ → Text
decimal_on zero n = []
decimal_on (suc fuel) n =
    let rest = decimal_on fuel (n / 10) in
    if ltb n 10 then (b'0' + n) ∷ [] else rest ++ ((b'0' + n % 10) ∷ [])

unfoldable pub decimal : ℕ → Text
unfolding decimal_on
decimal n = decimal_on (suc n) n

-- What fmt.Sprintf has put together.
unfoldable pub print_sql : Sql → Text
unfolding decimal
print_sql [] = []
print_sql (raw t ∷ ps) = t ++ print_sql ps
print_sql (placeholder n ∷ ps) = b'$' ∷ (decimal n ++ print_sql ps)

-- sql[i+1:j]
unfoldable pub leading_digits : Text → Text
unfolding is_digit
leading_digits [] = []
leading_digits (c ∷ s) = let rest = leading_digits s in if is_digit c then c ∷ rest else []

-- The innermost loop.
unfoldable pub number_of : ℕ → Text → ℕ
number_of n [] = n
number_of n (c ∷ s) = number_of (n * 10 + (c - b'0')) s

-- The outer loop, with the number of characters up to the next `i`.
unfoldable pub shift_from : ℕ → ℕ → Text → Text
unfolding leading_digits number_of decimal
shift_from delta skipped [] = []
shift_from delta (suc skipped) (c ∷ s) = shift_from delta skipped s
shift_from delta zero (c ∷ s) = elim (c == b'$') [
  | false ↦ c ∷ shift_from delta zero s
  | true ↦ elim (leading_digits s) [
    | [] ↦ c ∷ shift_from delta zero s
    | d ∷ ds ↦
        b'$' ∷ (decimal (number_of 0 (d ∷ ds) + delta) ++ shift_from delta (length (d ∷ ds)) s)
  ]
]

unfoldable pub shift_placeholders : Text → ℕ → Text
unfolding shift_from
shift_placeholders sql delta = shift_from delta zero sql

-- The fragment with other numbers.
unfoldable pub renumber : ℕ → Sql → Sql
renumber delta [] = []
renumber delta (raw t ∷ ps) = raw t ∷ renumber delta ps
renumber delta (placeholder n ∷ ps) = placeholder (n + delta) ∷ renumber delta ps

shift_test :
    shift_placeholders (text "(a = $9 AND b = $10) $x $") 1 ≡ text "(a = $10 AND b = $11) $x $"
unfolding shift_placeholders
shift_test = refl
