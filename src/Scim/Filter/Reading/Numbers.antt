-- ===== src/Scim/Filter/Reading/Numbers.antt =====
-- What the lexer reads off the front of a printed text: numbers.
use oad.Base.{
  ==_iff, ℕ, suc, ◌+◌, ◌≡◌, ◌≢◌, refl, ◌∙◌, true, false, ◌||◌, ◌&&◌, [], ◌∷◌, ◌++◌, length, All,
  arith, ◌==◌, ok, Bool-cases, inl, inr,
}
use oad.Scim.Text.{Text, same, is_letter, is_digit, is_space}
use oad.Scim.Lexer.{number, token_at, read_number, lex}
use oad.Scim.Filter.Print.{is_number_char, Ends, IsNumber}
use oad.Scim.Filter.Reading.{Stops, number-Stops, read, read-lex, scan_while-append}

number-no-mark :
    (c : ℕ)
    → (is_digit c || (c == b'-')) ≡ true
    → ((c == 40) ≡ false)
      × ((c == 41) ≡ false)
      × ((c == 46) ≡ false)
      × ((c == 34) ≡ false)
      × (is_letter c ≡ false)
      × (is_space c ≡ false)
unfolding is_letter is_digit is_space
number-no-mark c h =
    (ground arith, ground arith, ground arith, ground arith, ground arith, ground arith)

no_lone_sign : (c : ℕ) (s : Text) → (c ≡ b'-' → s ≢ []) → ((c == b'-') && same s []) ≡ false
unfolding same
no_lone_sign c [] k = elim (Bool-cases (c == b'-')) [
  | inl sign ↦ absurd (k ((==_iff c b'-').0 sign) refl)
  | inr other ↦ rw other
]
no_lone_sign c (d ∷ s) k = ground arith

read_number-append :
    (c : ℕ) (s rest : Text) (pos : ℕ)
    → (c ≡ b'-' → s ≢ [])
    → All (λ d. is_number_char d ≡ true) s
    → Stops is_number_char rest
    → read_number c (s ++ rest) pos
      ≡ ok (record { value = c ∷ s; rest = rest; pos = pos + length (c ∷ s) })
unfolding read_number
read_number-append c s rest pos k hs hr =
    let e : pos + 1 + length s ≡ pos + suc (length s) = omega arith in
    rw (scan_while-append is_number_char s rest (pos + 1) hs hr, no_lone_sign c s k, e)

read-digits :
    (c : ℕ) (s rest : Text) (pos : ℕ)
    → (is_digit c || (c == b'-')) ≡ true
    → (c ≡ b'-' → s ≢ [])
    → All (λ d. is_number_char d ≡ true) s
    → Stops is_number_char rest
    → read (c ∷ (s ++ rest)) pos ≡ ok (token_at pos (number (c ∷ s)) rest (pos + length (c ∷ s)))
unfolding lex
read-digits c s rest pos h k hs hr =
    let (t1, t2, t3, t4, t5, t6) = number-no-mark c h in
    read-lex c (s ++ rest) pos t6
    ∙ rw (t1, t2, t3, t4, t5, h, read_number-append c s rest pos k hs hr)

pub read-IsNumber :
    (s rest : Text) (pos : ℕ)
    → IsNumber s
    → Ends rest
    → read (s ++ rest) pos ≡ ok (token_at pos (number s) rest (pos + length s))
read-IsNumber s rest pos h k =
    let e = h.parts in
    let w =
      read-digits h.head h.tail rest pos h.first h.no_lone_sign h.rest (number-Stops rest k) in
    rw e w
