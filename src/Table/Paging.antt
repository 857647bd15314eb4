-- ===== src/Table/Paging.antt =====
-- Pages of a list (internal/api/handler/params.go, and the ListParams of the services).
use oad.Base.{ℕ, zero, suc, Option, some, List, [], ◌∷◌, leb, if◌then◌else◌}
use oad.Scim.Text.{Text}
use oad.Config.Numbers.{ℤ, pos, negsuc, parse_int}

abbrev pub take {ℓ} : {A : Type ℓ} → ℕ → List A → List A
take zero xs = []
take (suc n) [] = []
take (suc n) (x ∷ xs) = x ∷ take n xs

abbrev pub drop {ℓ} : {A : Type ℓ} → ℕ → List A → List A
drop zero xs = xs
drop (suc n) [] = []
drop (suc n) (x ∷ xs) = drop n xs

-- LIMIT and OFFSET
abbrev pub page {ℓ} : {A : Type ℓ} → ℕ → ℕ → List A → List A
page limit offset xs = take limit (drop offset xs)

-- `if limit <= 0 { limit = default }; if limit > most { limit = most }`
unfoldable pub clamp_limit : ℕ → ℕ → ℤ → ℕ
clamp_limit default most (negsuc n) = default
clamp_limit default most (pos zero) = default
clamp_limit default most (pos (suc n)) = if leb (suc n) most then suc n else most

abbrev positive_or : ℤ → Option ℤ → ℤ
positive_or default (some (pos (suc n))) = pos (suc n)
positive_or default _ = default

abbrev natural_or_zero : Option ℤ → ℕ
natural_or_zero (some (pos n)) = n
natural_or_zero _ = 0

-- parsePagination, on the query parameters; one that is absent is empty.
unfoldable parse_pagination : Text → Text → ℤ × ℕ
unfolding parse_int
parse_pagination limit offset = (
  positive_or (pos 25) (parse_int 9223372036854775808 limit),
  natural_or_zero (parse_int 9223372036854775808 offset),
)
