-- ===== src/Scim/Filter/Total.antt =====
-- The filter parser never runs out of fuel: every call that returns has consumed a token.
use oad.Base.{
  ℕ, zero, suc, ◌≤◌, ◌<◌, ◌≡◌, ◌≢◌, refl, true, Option, none, some, length, Result, err, arith,
  Bool-cases, inl, inr,
}
use oad.Scim.Text.{Text, lower}
use oad.Scim.Lexer.{
  LogicOp, logic_and, logic_or, Token, eof, dot, ident, pr, op, number, Fault, out_of_fuel, Lexer,
  next,
}
use oad.Scim.Lexer.Progress.{
  ahead, measure, Ensures, Ensures-mono, Ensures-bind, Ensures-ne, next-Ensures,
}
use oad.Scim.Filter.{
  Expr, logic, Parser, is_logic, is_lparen, is_rparen, is_eof, join_from, join, advance, named,
  sub_attribute, converted, parse_value, operator, comparison, atom, parse_or, parse,
}

-- At a token, `next` lowers the measure.
pub next-lt :
    (l : Lexer) → ahead l.tok ≡ 1 → Ensures (λ (l' : Lexer). measure l' < measure l) (next l)
next-lt l h = Ensures-mono _ _ (next l) (next-Ensures l) (λ l' k. omega arith)

-- The parser consumes something, and nothing is put back.
abbrev pub Consumes {ℓ} : {A : Type ℓ} → Lexer → Result Fault (A × Lexer) → Type 0
Consumes l r = Ensures (λ p. measure p.1 < measure l) r

-- It puts nothing back.
abbrev Keeps {ℓ} : {A : Type ℓ} → Lexer → Result Fault (A × Lexer) → Type 0
Keeps l r = Ensures (λ p. measure p.1 ≤ measure l) r

advance-Consumes {ℓ} : {A : Type ℓ} (a : A) (l : Lexer) → ahead l.tok ≡ 1 → Consumes l (advance a l)
advance-Consumes a l h = Ensures-bind _ _ (next l) _ (next-lt l h) (λ l' k. k)

advance-Keeps {ℓ} : {A : Type ℓ} (a : A) (l : Lexer) → Keeps l (advance a l)
advance-Keeps a l = Ensures-bind _ _ (next l) _ (next-Ensures l) (λ l' k. omega arith)

named-Keeps : (attr : Text) (t : Token) (l : Lexer) → Keeps l (named attr t l)
unfolding named
named-Keeps attr (ident s) l = advance-Keeps _ l
named-Keeps attr _ l = tt

sub_attribute-Keeps : (attr : Text) (t : Token) (l : Lexer) → Keeps l (sub_attribute attr t l)
unfolding sub_attribute
sub_attribute-Keeps attr dot l = Ensures-bind _ _ (next l) _ (next-Ensures l) λ l' k.
    Ensures-mono _ _ (named attr l'.tok l') (named-Keeps attr l'.tok l') (λ p q. omega arith)
sub_attribute-Keeps attr _ l = omega arith

module _ {F : Type 0} (o : LogicOp) (operand : Parser (Expr F)) (bound : ℕ)
    (consumes : (l : Lexer) → measure l ≤ bound → Consumes l (operand l)) where
  pub ahead_of_is_logic : (t : Token) → is_logic o t ≡ true → ahead t ≡ 1
  ahead_of_is_logic t h = ground arith

  join_from-Keeps :
      (n : ℕ) (left : Expr F) (l : Lexer)
      → measure l < n
      → measure l ≤ bound
      → Keeps l (join_from o operand n left l)
  unfolding join_from
  join_from-Keeps zero left l h k = absurd (omega arith)
  join_from-Keeps (suc n) left l h k = elim (Bool-cases (is_logic o l.tok)) [
    | inl more ↦ rw more (
        Ensures-bind _ _ (next l) _ (next-lt l (ahead_of_is_logic l.tok more)) λ l₁ p₁.
          Ensures-bind _ _ (operand l₁) _ (consumes l₁ (omega arith)) λ p₂ q₂.
            Ensures-mono _ _ (join_from o operand n (logic o left p₂.0) p₂.1)
              (join_from-Keeps n (logic o left p₂.0) p₂.1 (omega arith) (omega arith))
              (λ p q. omega arith))
    | inr done ↦ rw done (omega arith)
  ]

  pub join-Consumes : (l : Lexer) → measure l ≤ bound → Consumes l (join o operand l)
  unfolding join
  join-Consumes l h = Ensures-bind _ _ (operand l) _ (consumes l h) λ p q.
      Ensures-mono _ _ (join_from o operand (suc (measure p.1)) p.0 p.1)
        (join_from-Keeps (suc (measure p.1)) p.0 p.1 (omega arith) (omega arith))
        (λ p' q'. omega arith)

module _ {F : Type 0} (parse_float : Text → Option F) where
  converted-Keeps : (o : Option F) (l : Lexer) → Keeps l (converted parse_float o l)
  unfolding converted
  converted-Keeps none l = tt
  converted-Keeps (some f) l = advance-Keeps _ l

  parse_value-Keeps : (t : Token) (l : Lexer) → Keeps l (parse_value parse_float t l)
  unfolding parse_value
  parse_value-Keeps (Token.string s) l = advance-Keeps _ l
  parse_value-Keeps (number s) l = converted-Keeps (parse_float s) l
  parse_value-Keeps (Token.bool b) l = advance-Keeps _ l
  parse_value-Keeps Token.null l = advance-Keeps _ l
  parse_value-Keeps _ l = tt

  operator-Keeps : (attr : Text) (t : Token) (l : Lexer) → Keeps l (operator parse_float attr t l)
  unfolding operator
  operator-Keeps attr pr l = advance-Keeps _ l
  operator-Keeps attr (op o) l = Ensures-bind _ _ (next l) _ (next-Ensures l) λ l₁ k.
      Ensures-bind _ _ (parse_value parse_float l₁.tok l₁) _ (parse_value-Keeps l₁.tok l₁)
        (λ p q. omega arith)
  operator-Keeps attr _ l = tt

  comparison-Consumes :
      (t : Token) (l : Lexer) → l.tok ≡ t → Consumes l (comparison parse_float t l)
  unfolding comparison
  comparison-Consumes (ident s) l e = Ensures-bind _ _ (next l) _ (next-lt l (rw e)) λ l₁ k.
      Ensures-bind _ _ (sub_attribute (lower s) l₁.tok l₁) _ (sub_attribute-Keeps _ l₁.tok l₁)
        λ p q.
          Ensures-mono _ _ (operator parse_float p.0 p.1.tok p.1) (operator-Keeps p.0 p.1.tok p.1)
            (λ p' q'. omega arith)
  comparison-Consumes _ l e = tt

  pub atom-Consumes :
      (inner : Parser (Expr F)) (n : ℕ)
      → ((l : Lexer) → measure l < n → Consumes l (inner l))
      → (l : Lexer) → measure l ≤ n
      → Consumes l (atom parse_float inner l)
  unfolding atom
  atom-Consumes inner n h l k = elim (Bool-cases (is_lparen l.tok)) [
    | inl opened ↦ rw opened (
        Ensures-bind _ _ (next l) _ (next-lt l (ground arith)) λ l₁ p₁.
          Ensures-bind _ _ (inner l₁) _ (h l₁ (omega arith)) λ p₂ q₂.
            elim (Bool-cases (is_rparen p₂.1.tok)) [
              | inl closed ↦ rw closed (
                  Ensures-mono _ _ (advance p₂.0 p₂.1) (advance-Keeps p₂.0 p₂.1)
                    (λ p q. omega arith))
              | inr other ↦ rw other tt
            ])
    | inr plain ↦ rw plain (comparison-Consumes l.tok l refl)
  ]

  pub parse_or-Consumes :
      (n : ℕ) (l : Lexer) → measure l < n → Consumes l (parse_or parse_float n l)
  unfolding parse_or
  parse_or-Consumes zero l h = absurd (omega arith)
  parse_or-Consumes (suc n) l h =
      join-Consumes logic_or (join logic_and (atom parse_float (parse_or parse_float n))) n
        (join-Consumes logic_and (atom parse_float (parse_or parse_float n)) n
          (atom-Consumes (parse_or parse_float n) n (parse_or-Consumes n)))
        l (omega arith)

  parse-Ensures : (input : Text) → Ensures (λ (e : Expr F). Unit {0}) (parse parse_float input)
  unfolding parse
  parse-Ensures input =
      Ensures-bind _ _ (next (record { rest = input; pos = 0; tok = eof; tok_pos = 0 })) _
        (next-Ensures _)
        λ l k.
          Ensures-bind _ _ (parse_or parse_float (suc (length input)) l) _
            (parse_or-Consumes (suc (length input)) l (omega arith))
            λ p q. elim (Bool-cases (is_eof p.1.tok)) [
              | inl done ↦ rw done tt
              | inr more ↦ rw more tt
            ]

  -- `Parse` returns on every input, whatever ParseFloat does: with a tree, or with an
  -- InvalidFilterError. The model's fuel, the length of the input, never runs out.
  pub parse-ne-out_of_fuel : (input : Text) → parse parse_float input ≢ err out_of_fuel
  parse-ne-out_of_fuel input = Ensures-ne _ (parse parse_float input) (parse-Ensures input)
