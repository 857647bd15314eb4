-- ===== src/Scim/Sql/Apart.antt =====
-- What is read of the text of a fragment whose pieces stand apart, and how its placeholders are shifted
-- (internal/scim/users/repository.go, internal/scim/groups/repository.go).
use oad.Base.{
  ℕ, ◌+◌, ◌≡◌, refl, sym, ap, ◌∙◌, Bool, true, false, [], ◌∷◌, not, ◌&&◌, ◌++◌, append_assoc,
  append-nil, arith,
}
use oad.Scim.Text.{Text, is_digit}
use oad.Scim.Sql.{raw, placeholder, Sql}
use oad.Scim.Sql.Splice.{decimal, print_sql, shift_from, shift_placeholders, renumber}
use oad.Scim.Sql.Placeholders.{placeholders}
use oad.Scim.Sql.Spliced.{
  starts_digit, is_plain, shift_from-plain, shift_from-placeholder, numbers_from, references,
  numbers_from-plain, numbers_from-placeholder,
}

pub print_sql-append : (ps qs : Sql) → print_sql (ps ++ qs) ≡ print_sql ps ++ print_sql qs
unfolding print_sql
print_sql-append [] qs = refl
print_sql-append (raw s ∷ ps) qs =
    ap (λ t. s ++ t) (print_sql-append ps qs) ∙ sym (append_assoc s (print_sql ps) (print_sql qs))
print_sql-append (placeholder n ∷ ps) qs = rw (print_sql-append ps qs, append_assoc) refl

-- What follows a placeholder begins with no digit.
abbrev pub opens : Sql → Bool
opens [] = true
opens (raw [] ∷ ps) = false
opens (raw (c ∷ s) ∷ ps) = not (is_digit c)
opens (placeholder n ∷ ps) = true

-- No `$` is in the constant text, and no digit follows a placeholder.
unfoldable pub is_apart : Sql → Bool
unfolding is_plain
is_apart [] = true
is_apart (raw s ∷ ps) = is_plain s && is_apart ps
is_apart (placeholder n ∷ ps) = opens ps && is_apart ps

opens-print_sql :
    (ps : Sql) (t : Text)
    → opens ps ≡ true
    → starts_digit t ≡ false
    → starts_digit (print_sql ps ++ t) ≡ false
unfolding print_sql is_digit
opens-print_sql [] t o h = h
opens-print_sql (raw [] ∷ ps) t o h = let bad : false ≡ true = o in cc
opens-print_sql (raw (c ∷ s) ∷ ps) t o h = ground arith
opens-print_sql (placeholder n ∷ ps) t o h = refl

opens-append : (ps qs : Sql) → opens ps ≡ true → opens qs ≡ true → opens (ps ++ qs) ≡ true
opens-append [] qs o p = p
opens-append (raw [] ∷ ps) qs o p = let bad : false ≡ true = o in cc
opens-append (raw (c ∷ s) ∷ ps) qs o p = o
opens-append (placeholder n ∷ ps) qs o p = refl

pub is_apart-append :
    (ps qs : Sql)
    → is_apart ps ≡ true
    → is_apart qs ≡ true
    → opens qs ≡ true
    → is_apart (ps ++ qs) ≡ true
unfolding is_apart
is_apart-append [] qs a b o = b
is_apart-append (raw s ∷ ps) qs a b o =
    let ih = is_apart-append ps qs (ground arith) b o in rw ih (ground arith)
is_apart-append (placeholder n ∷ ps) qs a b o =
    let ih = is_apart-append ps qs (ground arith) b o in
    rw (ih, opens-append ps qs (ground arith) o) refl

shift_from-print_sql :
    (delta : ℕ) (ps : Sql) (t : Text)
    → is_apart ps ≡ true
    → starts_digit t ≡ false
    → shift_from delta 0 (print_sql ps ++ t) ≡ print_sql (renumber delta ps) ++ shift_from delta 0 t
unfolding print_sql renumber is_apart
shift_from-print_sql delta [] t a h = refl
shift_from-print_sql delta (raw s ∷ ps) t a h =
    let ih = shift_from-print_sql delta ps t (ground arith) h in
    rw
      (
        append_assoc s (print_sql ps) t,
        shift_from-plain delta s (print_sql ps ++ t) (ground arith),
        ih,
        append_assoc s (print_sql (renumber delta ps)) (shift_from delta 0 t),
      )
      refl
shift_from-print_sql delta (placeholder n ∷ ps) t a h =
    let ih = shift_from-print_sql delta ps t (ground arith) h in
    let apart = opens-print_sql ps t (ground arith) h in
    ap (λ u. shift_from delta 0 (b'$' ∷ u)) (append_assoc (decimal n) (print_sql ps) t)
    ∙ (shift_from-placeholder delta n (print_sql ps ++ t) apart
        ∙ ap (λ u. b'$' ∷ u)
            (ap (λ u. decimal (n + delta) ++ u) ih
              ∙ sym (
                  append_assoc (decimal (n + delta)) (print_sql (renumber delta ps))
                    (shift_from delta 0 t))))

numbers_from-print_sql :
    (ps : Sql) (t : Text)
    → is_apart ps ≡ true
    → starts_digit t ≡ false
    → numbers_from 0 (print_sql ps ++ t) ≡ placeholders ps ++ numbers_from 0 t
unfolding print_sql placeholders is_apart
numbers_from-print_sql [] t a h = refl
numbers_from-print_sql (raw s ∷ ps) t a h =
    let ih = numbers_from-print_sql ps t (ground arith) h in
    rw
      (append_assoc s (print_sql ps) t, numbers_from-plain s (print_sql ps ++ t) (ground arith), ih)
      refl
numbers_from-print_sql (placeholder n ∷ ps) t a h =
    let ih = numbers_from-print_sql ps t (ground arith) h in
    let apart = opens-print_sql ps t (ground arith) h in
    ap (λ u. numbers_from 0 (b'$' ∷ u)) (append_assoc (decimal n) (print_sql ps) t)
    ∙ (numbers_from-placeholder n (print_sql ps ++ t) apart ∙ ap (λ ns. n ∷ ns) ih)

pub shift_placeholders-print_sql :
    (delta : ℕ) (ps : Sql)
    → is_apart ps ≡ true
    → shift_placeholders (print_sql ps) delta ≡ print_sql (renumber delta ps)
unfolding shift_placeholders shift_from
shift_placeholders-print_sql delta ps a =
    rw (append-nil (print_sql ps), append-nil (print_sql (renumber delta ps))) at
      (shift_from-print_sql delta ps [] a refl)

-- The references in the text of a fragment are its placeholders.
pub references-print_sql :
    (ps : Sql) → is_apart ps ≡ true → references (print_sql ps) ≡ placeholders ps
unfolding references numbers_from
references-print_sql ps a =
    rw (append-nil (print_sql ps), append-nil (placeholders ps)) at
      (numbers_from-print_sql ps [] a refl)
