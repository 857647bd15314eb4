-- ===== src/Scim/Filter/RoundTrip/Joins.antt =====
-- The loop of parseOr and parseAnd on printed operands.
use oad.Base.{
  ℕ, zero, suc, ◌+◌, ◌≤◌, ◌<◌, ◌≡◌, refl, sym, ap, ◌∙◌, true, false, ◌∷◌, ◌++◌, length,
  length-append, arith, Result, ok, ◌>>=◌, >>=-assoc, >>=-congr, Bool-cases, inl, inr,
}
use oad.Scim.Text.{Text}
use oad.Scim.Lexer.{LogicOp, logic_and, logic_or, Token, Fault, Lexer, next}
use oad.Scim.Lexer.Progress.{measure, Ensures-ok, next-Ensures}
use oad.Scim.Filter.{Expr, logic, Parser, is_logic, join_from}
use oad.Scim.Filter.Total.{Consumes, next-lt, ahead_of_is_logic}
use oad.Scim.Filter.Print.{logic_text}
use oad.Scim.Filter.Reading.{read, next-eq-read, read-space, space-Ends}
use oad.Scim.Filter.Reading.Words.{read-logic}

read-le : (cs : Text) (pos : ℕ) (l : Lexer) → read cs pos ≡ ok l → measure l ≤ length cs
read-le cs pos l e = Ensures-ok (λ l'. measure l' ≤ length cs) (read cs pos) (next-Ensures _) e

is_logic_self : (o : LogicOp) → is_logic o (Token.logic o) ≡ true
is_logic_self logic_and = refl
is_logic_self logic_or = refl

module _ {F : Type 0} (o : LogicOp) (operand : Parser (Expr F)) where
  -- The loop with fuel for all that is ahead.
  abbrev pub loop : Expr F → Parser (Expr F)
  loop left l = join_from o operand (suc (measure l)) left l

  pub loop-stops :
      (left : Expr F) (l : Lexer) → is_logic o l.tok ≡ false → loop left l ≡ ok (left, l)
  unfolding join_from
  loop-stops left l h = rw h

  module _ (bound : ℕ) (consumes : (l : Lexer) → measure l ≤ bound → Consumes l (operand l)) where
    join_from_fuel :
        (k n : ℕ) (left : Expr F) (l : Lexer)
        → measure l < k
        → measure l < n
        → measure l ≤ bound
        → join_from o operand k left l ≡ join_from o operand n left l
    unfolding join_from
    join_from_fuel zero n left l h h' b = absurd (omega arith)
    join_from_fuel (suc k) zero left l h h' b = absurd (omega arith)
    join_from_fuel (suc k) (suc n) left l h h' b = elim (Bool-cases (is_logic o l.tok)) [
      | inl more ↦ rw more (
          >>=-congr (next l) _ _ λ l₁ e₁.
            let p₁ =
              Ensures-ok (λ l'. measure l' < measure l) (next l)
                (next-lt l (ahead_of_is_logic o operand bound consumes l.tok more)) e₁ in
            >>=-congr (operand l₁) _ _ λ p e₂.
              let p₂ =
                Ensures-ok (λ q. measure q.1 < measure l₁) (operand l₁) (consumes l₁ (omega arith))
                  e₂ in
              join_from_fuel k n (logic o left p.0) p.1 (omega arith) (omega arith) (omega arith))
      | inr done ↦ rw done
    ]

    -- One more printed operand is one more round of the loop.
    pub loop-step :
        (left right : Expr F) (s rest : Text) (pos : ℕ)
        → length (s ++ rest) ≤ bound
        → ((q : ℕ)
            → (read (s ++ rest) q >>= operand) ≡ (read rest (q + length s) >>= λ l. ok (right, l)))
        → (read (32 ∷ (logic_text o ++ (32 ∷ (s ++ rest)))) pos >>= loop left) ≡ (
            read rest (pos + length (32 ∷ (logic_text o ++ (32 ∷ s))))
            >>= loop (logic o left right))
    unfolding join_from
    loop-step left right s rest pos b h =
        let w = pos + 1 + length (logic_text o) in
        let m = suc (length (s ++ rest)) + 1 in
        let continue : Expr F × Lexer → Result Fault (Expr F × Lexer) =
          λ (e, l). join_from o operand m (logic o left e) l in
        let p : w + 1 + length s ≡ pos + length (32 ∷ (logic_text o ++ (32 ∷ s))) =
          omega (arith, length-append (logic_text o) (32 ∷ s)) in
        rw
          (
            read-space,
            read-logic o (32 ∷ (s ++ rest)) (pos + 1) (space-Ends (s ++ rest)),
            is_logic_self o,
            next-eq-read,
            read-space,
          )
          (sym (>>=-assoc (read (s ++ rest) (w + 1)) operand continue)
            ∙ ap (λ r. r >>= continue) (h (w + 1))
            ∙ >>=-assoc (read rest (w + 1 + length s)) (λ l. ok (right, l)) continue
            ∙ rw p (
                >>=-congr (read rest _) _ _ λ l e.
                  let k = read-le rest _ l e in
                  join_from_fuel m (suc (measure l)) (logic o left right) l
                    (omega (arith, length-append s rest)) (omega arith)
                    (omega (arith, length-append s rest))))
