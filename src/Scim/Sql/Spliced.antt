-- ===== src/Scim/Sql/Spliced.antt =====
-- Shifting the placeholders in the text of a fragment is shifting the numbers of its pieces
-- (internal/scim/users/repository.go, internal/scim/groups/repository.go).
use oad.Base.{
  ℕ, zero, suc, ◌+◌, ◌-◌, ◌*◌, ◌/◌, ◌%◌, ◌≤◌, ◌<◌, ◌≡◌, refl, ap, ◌∙◌, subst, Bool, true, false,
  not, ◌&&◌, List, [], ◌∷◌, ◌++◌, length, ltb, ◌==◌, arith, Bool-cases, inl, inr,
}
use oad.Scim.Text.{Text, is_digit}
use oad.Scim.Sql.Splice.{decimal_on, decimal, leading_digits, number_of, shift_from}

-- The text starts with a digit.
abbrev pub starts_digit : Text → Bool
starts_digit [] = false
starts_digit (c ∷ s) = is_digit c

abbrev all_digits : Text → Bool
all_digits [] = true
all_digits (c ∷ s) = is_digit c && all_digits s

-- No `$` is in the text.
unfoldable pub is_plain : Text → Bool
is_plain [] = true
is_plain (c ∷ s) = not (c == b'$') && is_plain s

all_digits-append : (s t : Text) → all_digits (s ++ t) ≡ (all_digits s && all_digits t)
all_digits-append [] t = refl
all_digits-append (c ∷ s) t = rw (all_digits-append s t) (ground arith)

number_of-append :
    (s : Text) (n c : ℕ) → number_of n (s ++ (c ∷ [])) ≡ number_of n s * 10 + (c - b'0')
unfolding number_of
number_of-append [] n c = refl
number_of-append (d ∷ s) n c = number_of-append s (n * 10 + (d - b'0')) c

is_digit_small : (k : ℕ) → k < 10 → is_digit (b'0' + k) ≡ true
unfolding is_digit
is_digit_small k h = ground arith

all_digits-decimal_on : (fuel n : ℕ) → all_digits (decimal_on fuel n) ≡ true
unfolding decimal_on
all_digits-decimal_on zero n = refl
all_digits-decimal_on (suc fuel) n = elim (Bool-cases (ltb n 10)) [
  | inl l ↦ rw (l, is_digit_small n (ground arith)) refl
  | inr l ↦
      let last : is_digit (b'0' + n % 10) ≡ true = is_digit_small (n % 10) (omega arith) in
      rw
        (
          l,
          all_digits-append (decimal_on fuel (n / 10)) ((b'0' + n % 10) ∷ []),
          all_digits-decimal_on fuel (n / 10),
          last,
        )
        refl
]

number_of-decimal_on : (fuel n : ℕ) → n < fuel → number_of 0 (decimal_on fuel n) ≡ n
unfolding decimal_on number_of
number_of-decimal_on zero n h = omega arith
number_of-decimal_on (suc fuel) n h = elim (Bool-cases (ltb n 10)) [
  | inl l ↦ rw l (omega arith)
  | inr l ↦
      let large : 10 ≤ n = ground arith in
      let ih = number_of-decimal_on fuel (n / 10) (omega arith) in
      rw (l, number_of-append (decimal_on fuel (n / 10)) 0 (b'0' + n % 10), ih) (omega arith)
]

leading_digits-append :
    (s t : Text) → all_digits s ≡ true → starts_digit t ≡ false → leading_digits (s ++ t) ≡ s
unfolding leading_digits
leading_digits-append [] [] a h = refl
leading_digits-append [] (c ∷ t) a h = rw h refl
leading_digits-append (c ∷ s) t a h =
    let d : is_digit c ≡ true = ground arith in
    rw (d, leading_digits-append s t (ground arith) h) refl

-- The numbers of the references `$n` in a text, with the number of characters up to the next one.
unfoldable pub numbers_from : ℕ → Text → List ℕ
unfolding leading_digits number_of
numbers_from skipped [] = []
numbers_from (suc skipped) (c ∷ s) = numbers_from skipped s
numbers_from zero (c ∷ s) = elim (c == b'$') [
  | false ↦ numbers_from zero s
  | true ↦ elim (leading_digits s) [
    | [] ↦ numbers_from zero s
    | d ∷ ds ↦ number_of 0 (d ∷ ds) ∷ numbers_from (length (d ∷ ds)) s
  ]
]

unfoldable pub references : Text → List ℕ
unfolding numbers_from
references s = numbers_from zero s

numbers_from-skip : (s t : Text) → numbers_from (length s) (s ++ t) ≡ numbers_from 0 t
unfolding numbers_from
numbers_from-skip [] t = refl
numbers_from-skip (c ∷ s) t = numbers_from-skip s t

pub numbers_from-plain :
    (s t : Text) → is_plain s ≡ true → numbers_from 0 (s ++ t) ≡ numbers_from 0 t
unfolding numbers_from is_plain
numbers_from-plain [] t h = refl
numbers_from-plain (c ∷ s) t h =
    let d : (c == b'$') ≡ false = ground arith in
    rw (numbers_from, d, numbers_from-plain s t (ground arith)) refl

numbers_from-dollar :
    (d : ℕ) (ds s : Text)
    → leading_digits s ≡ d ∷ ds
    → numbers_from 0 (b'$' ∷ s) ≡ number_of 0 (d ∷ ds) ∷ numbers_from (length (d ∷ ds)) s
unfolding numbers_from
numbers_from-dollar d ds s h = rw (numbers_from, h) refl

shift_from-skip :
    (delta : ℕ) (s t : Text) → shift_from delta (length s) (s ++ t) ≡ shift_from delta 0 t
unfolding shift_from
shift_from-skip delta [] t = refl
shift_from-skip delta (c ∷ s) t = shift_from-skip delta s t

pub shift_from-plain :
    (delta : ℕ) (s t : Text)
    → is_plain s ≡ true
    → shift_from delta 0 (s ++ t) ≡ s ++ shift_from delta 0 t
unfolding shift_from is_plain
shift_from-plain delta [] t h = refl
shift_from-plain delta (c ∷ s) t h =
    let d : (c == b'$') ≡ false = ground arith in
    rw (shift_from, d, shift_from-plain delta s t (ground arith)) refl

shift_from-dollar :
    (delta d : ℕ) (ds s : Text)
    → leading_digits s ≡ d ∷ ds
    → shift_from delta 0 (b'$' ∷ s)
      ≡ b'$' ∷ (decimal (number_of 0 (d ∷ ds) + delta) ++ shift_from delta (length (d ∷ ds)) s)
unfolding shift_from
shift_from-dollar delta d ds s h = rw (shift_from, h) refl

shift_from-number :
    (delta d : ℕ) (ds t : Text)
    → all_digits (d ∷ ds) ≡ true
    → starts_digit t ≡ false
    → shift_from delta 0 (b'$' ∷ ((d ∷ ds) ++ t))
      ≡ b'$' ∷ (decimal (number_of 0 (d ∷ ds) + delta) ++ shift_from delta 0 t)
shift_from-number delta d ds t a h =
    shift_from-dollar delta d ds ((d ∷ ds) ++ t) (leading_digits-append (d ∷ ds) t a h)
    ∙ ap (λ u. b'$' ∷ (decimal (number_of 0 (d ∷ ds) + delta) ++ u))
        (shift_from-skip delta (d ∷ ds) t)

append-cons : (s : Text) (c : ℕ) → (d : ℕ) × (ds : Text) × (s ++ (c ∷ []) ≡ d ∷ ds)
append-cons [] c = (c, [], refl)
append-cons (b ∷ s) c = (b, s ++ (c ∷ []), refl)

decimal-cons : (n : ℕ) → (d : ℕ) × (ds : Text) × (decimal n ≡ d ∷ ds)
unfolding decimal decimal_on
decimal-cons n = elim (Bool-cases (ltb n 10)) [
  | inl l ↦ (b'0' + n, [], rw l refl)
  | inr l ↦ let (d, ds, e) = append-cons (decimal_on n (n / 10)) (b'0' + n % 10) in (d, ds, rw l e)
]

all_digits-decimal : (n : ℕ) → all_digits (decimal n) ≡ true
unfolding decimal
all_digits-decimal n = all_digits-decimal_on (suc n) n

number_of-decimal : (n : ℕ) → number_of 0 (decimal n) ≡ n
unfolding decimal
number_of-decimal n = number_of-decimal_on (suc n) n (omega arith)

pub shift_from-placeholder :
    (delta n : ℕ) (t : Text)
    → starts_digit t ≡ false
    → shift_from delta 0 (b'$' ∷ (decimal n ++ t))
      ≡ b'$' ∷ (decimal (n + delta) ++ shift_from delta 0 t)
shift_from-placeholder delta n t h =
    let (d, ds, e) = decimal-cons n in
    let digits = subst (λ s. all_digits s ≡ true) e (all_digits-decimal n) in
    let value = subst (λ s. number_of 0 s ≡ n) e (number_of-decimal n) in
    rw (e, shift_from-number delta d ds t digits h, value) refl

pub numbers_from-placeholder :
    (n : ℕ) (t : Text)
    → starts_digit t ≡ false
    → numbers_from 0 (b'$' ∷ (decimal n ++ t)) ≡ n ∷ numbers_from 0 t
numbers_from-placeholder n t h =
    let (d, ds, e) = decimal-cons n in
    let digits = subst (λ s. all_digits s ≡ true) e (all_digits-decimal n) in
    let value = subst (λ s. number_of 0 s ≡ n) e (number_of-decimal n) in
    rw e (
      numbers_from-dollar d ds ((d ∷ ds) ++ t) (leading_digits-append (d ∷ ds) t digits h)
      ∙ (ap (λ m. m ∷ numbers_from (length (d ∷ ds)) ((d ∷ ds) ++ t)) value
          ∙ ap (λ ns. n ∷ ns) (numbers_from-skip (d ∷ ds) t)))
