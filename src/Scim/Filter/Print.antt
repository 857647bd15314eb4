-- ===== src/Scim/Filter/Print.antt =====
-- A printer for the syntax trees of internal/scim/parser/filter.go, the inverse that the parser is
-- held against: "and" binds tighter than "or", both group to the left, and parentheses stand only
-- where these rules would read another tree.
use oad.Base.{
  ℕ, ◌≡◌, ◌≢◌, Bool, true, false, ◌||◌, Option, some, [], ◌∷◌, ◌++◌, All, ◌==◌, if◌then◌else◌,
}
use oad.Scim.Text.{Text, text, lower, is_letter, is_digit}
use oad.Scim.Lexer.{CompareOp, eq, ne, co, sw, ew, LogicOp, logic_and, logic_or, ident, keyword}
use oad.Scim.Filter.{Value, string, float, bool, null, Expr, compare, present, logic}

abbrev pub is_ident_part : ℕ → Bool
is_ident_part c = is_letter c || (is_digit c || (c == b'_'))

abbrev pub is_number_char : ℕ → Bool
is_number_char c = is_digit c || (c == b'.')

-- What can follow a name or a number without becoming a part of it.
abbrev pub Ends : Text → Type 0
Ends [] = Unit
Ends (c ∷ s) = (is_ident_part c ≡ false) × (is_number_char c ≡ false)

-- A lower-case identifier that is no keyword.
pub record IsName (s : Text) : Type 0 where
  pub head : ℕ
  pub tail : Text
  pub parts : s ≡ head ∷ tail
  pub letter : is_letter head ≡ true
  pub rest : All (λ c. is_ident_part c ≡ true) tail
  pub plain : keyword s ≡ ident s
  pub lowered : lower s ≡ s

-- A name, or two names with a dot between them.
pub data IsAttr : Text → Type 0 where
  name : {s : Text} → IsName s → IsAttr s
  path : {s t : Text} → IsName s → IsName t → IsAttr (s ++ (text "." ++ t))

-- The form of a number: a digit or '-', then digits and dots, and more than a '-'.
pub record IsNumber (s : Text) : Type 0 where
  pub head : ℕ
  pub tail : Text
  pub parts : s ≡ head ∷ tail
  pub first : (is_digit head || (head == b'-')) ≡ true
  pub no_lone_sign : head ≡ b'-' → tail ≢ []
  pub rest : All (λ c. is_number_char c ≡ true) tail

unfoldable pub escape : Text → Text
escape [] = []
escape (c ∷ s) = if (c == b'"') || (c == 92) then 92 ∷ c ∷ escape s else c ∷ escape s

abbrev pub op_text : CompareOp → Text
op_text eq = text "eq"
op_text ne = text "ne"
op_text co = text "co"
op_text sw = text "sw"
op_text ew = text "ew"

abbrev pub logic_text : LogicOp → Text
logic_text logic_and = text "and"
logic_text logic_or = text "or"

-- Where an expression stands: alone or beside "or", beside "and", or as the right operand of "and".
pub data Level : Type 0 where
  at_or at_and at_atom : Level

abbrev pub parens : Text → Text
parens s = 40 ∷ (s ++ 41 ∷ [])

abbrev pub joined : LogicOp → Text → Text → Text
joined o s t = s ++ (32 ∷ (logic_text o ++ (32 ∷ t)))

abbrev pub grouped : Level → LogicOp → Text → Text
grouped at_or o s = s
grouped at_and logic_and s = s
grouped at_and logic_or s = parens s
grouped at_atom o s = parens s

abbrev pub right_level : LogicOp → Level
right_level logic_or = at_and
right_level logic_and = at_atom

abbrev pub left_level : LogicOp → Level
left_level logic_or = at_or
left_level logic_and = at_and

module _ {F : Type 0} (print_float : F → Text) where
  abbrev pub print_value : Value F → Text
  print_value (string s) = 34 ∷ (escape s ++ 34 ∷ [])
  print_value (float f) = print_float f
  print_value (bool true) = text "true"
  print_value (bool false) = text "false"
  print_value null = text "null"

  unfoldable pub print_at : Level → Expr F → Text
  print_at v (compare a o x) = a ++ (32 ∷ (op_text o ++ (32 ∷ print_value x)))
  print_at v (present a) = a ++ text " pr"
  print_at v (logic o l r) =
      grouped v o (joined o (print_at (left_level o) l) (print_at (right_level o) r))

  unfoldable pub print : Expr F → Text
  print = print_at at_or

  module _ (parse_float : Text → Option F) where
    -- ParseFloat reads the printed number back.
    abbrev pub IsPrintableValue : Value F → Type 0
    IsPrintableValue (float f) = IsNumber (print_float f) × (parse_float (print_float f) ≡ some f)
    IsPrintableValue _ = Unit

    abbrev pub IsPrintable : Expr F → Type 0
    IsPrintable (compare a o x) = IsAttr a × IsPrintableValue x
    IsPrintable (present a) = IsAttr a
    IsPrintable (logic o l r) = IsPrintable l × IsPrintable r
