-- ===== src/Scim/Path/Quoting.antt =====
-- A printed filter holds no ']' outside of its strings, so indexUnquoted of
-- internal/scim/parser/path.go finds the bracket that closes it.
use oad.Base.{
  ℕ, ◌≡◌, ◌≢◌, append-nil, refl, ap, true, false, ◌||◌, Option, some, [], ◌∷◌, ◌++◌, append_assoc,
  arith, All, ◌==◌, Bool-cases, inl, inr,
}
use oad.Scim.Text.{Text, text, is_letter, is_digit}
use oad.Scim.Lexer.{CompareOp, eq, ne, co, sw, ew, LogicOp, logic_and, logic_or}
use oad.Scim.Filter.{Value, string, float, bool, null, Expr, compare, present, logic}
use oad.Scim.Filter.Print.{
  is_ident_part, is_number_char, IsName, IsAttr, name, path, IsNumber, escape, op_text, logic_text,
  Level, at_or, at_and, at_atom, parens, joined, grouped, print_value, print_at, print,
  IsPrintableValue, IsPrintable, left_level, right_level,
}
use oad.Scim.Filter.Reading.Strings.{append-ne-nil}
use oad.Scim.Path.{keep, cut_unquoted}

abbrev prepend : Text → Option (Text × Text) → Option (Text × Text)
prepend [] o = o
prepend (c ∷ s) o = keep c (prepend s o)

prepend-append :
    (s t : Text) (o : Option (Text × Text)) → prepend (s ++ t) o ≡ prepend s (prepend t o)
prepend-append [] t o = refl
prepend-append (c ∷ s) t o = ap (keep c) (prepend-append s t o)

prepend-some : (s t u : Text) → prepend s (some (t, u)) ≡ some (s ++ t, u)
prepend-some [] t u = refl
prepend-some (c ∷ s) t u = rw (prepend-some s t u)

-- No ']' is found inside `s`, and no string is open at its end.
abbrev Skips : Text → Type 0
Skips s =
    (rest : Text) → cut_unquoted b']' false (s ++ rest) ≡ prepend s (cut_unquoted b']' false rest)

Skips-append : (s t : Text) → Skips s → Skips t → Skips (s ++ t)
Skips-append s t hs ht rest = rw (append_assoc, hs (t ++ rest), ht rest, prepend-append)

abbrev IsPlain : ℕ → Type 0
IsPlain c = ((c == 34) ≡ false) × ((c == 93) ≡ false)

Skips-plain : (c : ℕ) (s : Text) → IsPlain c → Skips s → Skips (c ∷ s)
unfolding cut_unquoted
Skips-plain c s (h, k) hs rest = rw (h, k, hs rest)

Skips-All : (s : Text) → All IsPlain s → Skips s
Skips-All [] h = λ rest. refl
Skips-All (c ∷ s) h = Skips-plain c s h.0 (Skips-All s h.1)

All-mono : {P Q : ℕ → Type 0} (s : Text) → ((c : ℕ) → P c → Q c) → All P s → All Q s
All-mono [] f h = tt
All-mono (c ∷ s) f h = (f c h.0, All-mono s f h.1)

ident-IsPlain : (c : ℕ) → is_ident_part c ≡ true → IsPlain c
unfolding is_letter is_digit
ident-IsPlain c h = (ground arith, ground arith)

letter-IsPlain : (c : ℕ) → is_letter c ≡ true → IsPlain c
unfolding is_letter
letter-IsPlain c h = (ground arith, ground arith)

number-IsPlain : (c : ℕ) → is_number_char c ≡ true → IsPlain c
unfolding is_digit
number-IsPlain c h = (ground arith, ground arith)

first-IsPlain : (c : ℕ) → (is_digit c || (c == b'-')) ≡ true → IsPlain c
unfolding is_digit
first-IsPlain c h = (ground arith, ground arith)

IsName-Skips : (s : Text) → IsName s → Skips s
IsName-Skips s h = rw h.parts (
    Skips-All (h.head ∷ h.tail)
      (letter-IsPlain h.head h.letter, All-mono h.tail ident-IsPlain h.rest))

IsNumber-Skips : (s : Text) → IsNumber s → Skips s
IsNumber-Skips s h = rw h.parts (
    Skips-All (h.head ∷ h.tail)
      (first-IsPlain h.head h.first, All-mono h.tail number-IsPlain h.rest))

IsAttr-Skips : (a : Text) → IsAttr a → Skips a
IsAttr-Skips a (name {s} h) = IsName-Skips s h
IsAttr-Skips a (path {s} {t} hs ht) =
    Skips-append s (46 ∷ t) (IsName-Skips s hs) (Skips-plain 46 t (refl, refl) (IsName-Skips t ht))

cut_plain :
    (c : ℕ) (s : Text)
    → s ≢ []
    → ((c == 34) || (c == 92)) ≡ false
    → cut_unquoted b']' true (c ∷ s) ≡ keep c (cut_unquoted b']' true s)
unfolding cut_unquoted
cut_plain c [] k h = absurd (k refl)
cut_plain c (d ∷ s) k h = ground arith

cut_escaped :
    (c : ℕ) (s : Text)
    → cut_unquoted b']' true (92 ∷ c ∷ s) ≡ keep 92 (keep c (cut_unquoted b']' true s))
unfolding cut_unquoted
cut_escaped c s = refl

cut_closed : (s : Text) → cut_unquoted b']' true (34 ∷ s) ≡ keep 34 (cut_unquoted b']' false s)
unfolding cut_unquoted
cut_closed [] = refl
cut_closed (c ∷ s) = refl

-- Inside a string, up to and with its closing quote.
cut_in_string :
    (s rest : Text)
    → cut_unquoted b']' true (escape s ++ (34 ∷ rest))
      ≡ prepend (escape s) (keep 34 (cut_unquoted b']' false rest))
unfolding escape
cut_in_string [] rest = cut_closed rest
cut_in_string (c ∷ s) rest = elim (Bool-cases ((c == 34) || (c == 92))) [
  | inl marked ↦ rw (marked, cut_escaped c (escape s ++ (34 ∷ rest)), cut_in_string s rest)
  | inr plain ↦ rw (
    plain,
    cut_plain c (escape s ++ (34 ∷ rest)) (append-ne-nil (escape s) rest 34) plain,
    cut_in_string s rest,
  )
]

string-Skips : (s : Text) → Skips (34 ∷ (escape s ++ 34 ∷ []))
string-Skips s rest =
    let e : (escape s ++ 34 ∷ []) ++ rest ≡ escape s ++ (34 ∷ rest) =
      append_assoc (escape s) (34 ∷ []) rest in
    let open_string : (t : Text)
        → cut_unquoted b']' false (34 ∷ t) ≡ keep 34 (cut_unquoted b']' true t) =
      unfold cut_unquoted in λ t. refl in
    rw (e, open_string, cut_in_string s rest, prepend-append)

op_text-Skips : (o : CompareOp) → Skips (op_text o)
unfolding cut_unquoted
op_text-Skips eq rest = refl
op_text-Skips ne rest = refl
op_text-Skips co rest = refl
op_text-Skips sw rest = refl
op_text-Skips ew rest = refl

logic_text-Skips : (o : LogicOp) → Skips (logic_text o)
unfolding cut_unquoted
logic_text-Skips logic_and rest = refl
logic_text-Skips logic_or rest = refl

space-Skips : (s : Text) → Skips s → Skips (32 ∷ s)
space-Skips s = Skips-plain 32 s (refl, refl)

joined-Skips : (o : LogicOp) (s t : Text) → Skips s → Skips t → Skips (joined o s t)
joined-Skips o s t hs ht = Skips-append s (32 ∷ (logic_text o ++ (32 ∷ t))) hs (
    space-Skips (logic_text o ++ (32 ∷ t))
      (Skips-append (logic_text o) (32 ∷ t) (logic_text-Skips o) (space-Skips t ht)))

parens-Skips : (s : Text) → Skips s → Skips (parens s)
parens-Skips s h =
    Skips-plain 40 (s ++ 41 ∷ []) (refl, refl)
      (Skips-append s (41 ∷ []) h (Skips-plain 41 [] (refl, refl) (λ rest. refl)))

grouped-Skips : (v : Level) (o : LogicOp) (s : Text) → Skips s → Skips (grouped v o s)
grouped-Skips at_or o s h = h
grouped-Skips at_and logic_and s h = h
grouped-Skips at_and logic_or s h = parens-Skips s h
grouped-Skips at_atom o s h = parens-Skips s h

module _ {F : Type 0} (print_float : F → Text) (parse_float : Text → Option F) where
  print_value-Skips :
      (x : Value F) → IsPrintableValue print_float parse_float x → Skips (print_value print_float x)
  unfolding cut_unquoted
  print_value-Skips (string s) h = string-Skips s
  print_value-Skips (float f) h = IsNumber-Skips (print_float f) h.0
  print_value-Skips (bool true) h = λ rest. refl
  print_value-Skips (bool false) h = λ rest. refl
  print_value-Skips null h = λ rest. refl

  print_at-Skips :
      (v : Level) (e : Expr F)
      → IsPrintable print_float parse_float e
      → Skips (print_at print_float v e)
  unfolding print_at
  print_at-Skips v (compare a o x) (ha, hx) =
      Skips-append a (32 ∷ (op_text o ++ (32 ∷ print_value print_float x))) (IsAttr-Skips a ha) (
        space-Skips (op_text o ++ (32 ∷ print_value print_float x)) (
          Skips-append (op_text o) (32 ∷ print_value print_float x) (op_text-Skips o)
            (space-Skips (print_value print_float x) (print_value-Skips x hx))))
  print_at-Skips v (present a) ha =
      Skips-append a (text " pr") (IsAttr-Skips a ha) (unfold cut_unquoted in λ rest. refl)
  print_at-Skips v (logic o l r) (hl, hr) = grouped-Skips v o _ (
      joined-Skips o (print_at print_float (left_level o) l)
        (print_at print_float (right_level o) r) (print_at-Skips (left_level o) l hl)
        (print_at-Skips (right_level o) r hr))

  -- A printed filter is found whole before the bracket that closes it.
  pub cut_unquoted-print :
      (e : Expr F) (after : Text)
      → IsPrintable print_float parse_float e
      → cut_unquoted b']' false (print print_float e ++ (93 ∷ after))
        ≡ some (print print_float e, after)
  unfolding print
  cut_unquoted-print e after h =
      let shown = print_at print_float at_or e in
      let closes : (t : Text) → cut_unquoted b']' false (93 ∷ t) ≡ some ([], t) =
        unfold cut_unquoted in λ t. refl in
      rw (print_at-Skips at_or e h (93 ∷ after), closes, prepend-some shown [] after, append-nil)
