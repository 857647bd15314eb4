-- ===== src/Auth/Cache/Elements.antt =====
-- The list of elements of internal/auth/cache.go (container/list), front first.
use oad.Base.{
  ℕ, ◌≡◌, ◌≤◌, ◌<◌, refl, false, Option, none, some, List, [], ◌∷◌, length, arith, ◌==◌, ==_refl,
  if◌then◌else◌, Bool-cases, inl, inr,
}
use oad.Scim.Text.{Text}

-- An element of the list, with the cachedEntry that it holds; `id` tells elements apart, as the pointers do.
pub record Element : Type 0 where
  pub id : ℕ
  pub key : Text
  pub identity : ℕ
  pub expires_at : ℕ

-- list.Remove
unfoldable pub remove : ℕ → List Element → List Element
remove x [] = []
remove x (e ∷ es) = if e.id == x then remove x es else e ∷ remove x es

-- list.Back
unfoldable pub back : List Element → Option Element
back [] = none
back (e ∷ []) = some e
back (e ∷ d ∷ es) = back (d ∷ es)

-- The element with this number.
unfoldable pub find : ℕ → List Element → Option Element
find x [] = none
find x (e ∷ es) = if e.id == x then some e else find x es

abbrev pub Distinct : List Element → Type 0
Distinct [] = Unit
Distinct (e ∷ es) = (find e.id es ≡ none) × Distinct es

pub find-remove_other :
    (x y : ℕ) (es : List Element) → (x == y) ≡ false → find y (remove x es) ≡ find y es
unfolding find remove
find-remove_other x y [] h = refl
find-remove_other x y (e ∷ es) h = ground (arith, find-remove_other x y es h)

pub find-remove : (x : ℕ) (es : List Element) → find x (remove x es) ≡ none
unfolding find remove
find-remove x [] = refl
find-remove x (e ∷ es) = ground (arith, find-remove x es)

-- What was not there is not there after a removal.
pub find-remove-none :
    (x y : ℕ) (es : List Element) → find y es ≡ none → find y (remove x es) ≡ none
unfolding find remove
find-remove-none x y [] h = refl
find-remove-none x y (e ∷ es) h = ground (arith, find-remove-none x y es)

pub remove-Distinct : (x : ℕ) (es : List Element) → Distinct es → Distinct (remove x es)
unfolding remove
remove-Distinct x [] d = tt
remove-Distinct x (e ∷ es) d = elim (Bool-cases (e.id == x)) [
  | inl h ↦ rw h (remove-Distinct x es d.1)
  | inr h ↦ rw h (find-remove-none x e.id es d.0, remove-Distinct x es d.1)
]

pub length-remove_le : (x : ℕ) (es : List Element) → length (remove x es) ≤ length es
unfolding remove
length-remove_le x [] = omega arith
length-remove_le x (e ∷ es) = ground (arith, length-remove_le x es)

-- Taking out an element that is there makes the list shorter.
pub length-remove_lt :
    (x : ℕ) (es : List Element) (e : Element)
    → find x es ≡ some e
    → length (remove x es) < length es
unfolding remove find
length-remove_lt x [] e h = cc
length-remove_lt x (d ∷ es) e h = ground (arith, length-remove_lt x es e, length-remove_le x es)

-- The last element is found by its number.
pub find-back :
    (es : List Element) (e : Element) → Distinct es → back es ≡ some e → find e.id es ≡ some e
unfolding back find
find-back [] e d h = cc
find-back (x ∷ []) e d h = ground (arith, ==_refl e.id)
find-back (x ∷ y ∷ es) e d h = ground (arith, find-back (y ∷ es) e d.1 h)
