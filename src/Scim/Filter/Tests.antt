-- ===== src/Scim/Filter/Tests.antt =====
-- Runs of the filter parser of internal/scim/parser/filter.go.
use oad.Base.{◌≡◌, ◌≢◌, refl, true, Option, some, [], ok, err}
use oad.Scim.Text.{Text, text, lower, is_letter, is_digit}
use oad.Scim.Lexer.{
  next, eq, sw, co, logic_and, logic_or, expected_value, invalid, out_of_fuel, keyword,
}
use oad.Scim.Filter.{Value, Expr, compare, present, logic, parse}
use oad.Scim.Filter.Print.{IsName, IsAttr, IsNumber, IsPrintable, print, print_at, escape}
use oad.Scim.Filter.RoundTrip.{parse-print}
use oad.Scim.Filter.Total.{parse-ne-out_of_fuel}

-- Stands for the floats: the text of the number.
abbrev kept : Text → Option Text
kept s = some s

precedence :
    parse kept (text "userName sw \"a\\\"\" OR (x.y eq true and id pr)")
    ≡ ok (
        logic logic_or
          (compare (text "username") sw (Value.string (text "a\"")))
          (logic logic_and (compare (text "x.y") eq (Value.bool true)) (present (text "id"))))
unfolding parse next
precedence = refl

no_value : parse kept (text "a eq ") ≡ err (invalid 5 expected_value)
unfolding parse next
no_value = refl

-- (active eq true or name.full co "a\"b") and n eq 1.5
abbrev sample : Expr Text
sample =
    logic logic_and
      (logic logic_or (compare (text "active") eq (Value.bool true))
        (compare (text "name.full") co (Value.string (text "a\"b"))))
      (compare (text "n") eq (Value.float (text "1.5")))

active-IsName : IsName (text "active")
unfolding lower is_letter is_digit keyword
active-IsName = record {
  head = b'a';
  tail = text "ctive";
  parts = refl;
  letter = refl;
  rest = (refl, (refl, (refl, (refl, (refl, tt)))));
  plain = refl;
  lowered = refl;
}

complex-IsName : IsName (text "name")
unfolding lower is_letter is_digit keyword
complex-IsName = record {
  head = b'n';
  tail = text "ame";
  parts = refl;
  letter = refl;
  rest = (refl, (refl, (refl, tt)));
  plain = refl;
  lowered = refl;
}

full-IsName : IsName (text "full")
unfolding lower is_letter is_digit keyword
full-IsName = record {
  head = b'f';
  tail = text "ull";
  parts = refl;
  letter = refl;
  rest = (refl, (refl, (refl, tt)));
  plain = refl;
  lowered = refl;
}

n-IsName : IsName (text "n")
unfolding lower is_letter is_digit keyword
n-IsName = record {
  head = b'n';
  tail = [];
  parts = refl;
  letter = refl;
  rest = tt;
  plain = refl;
  lowered = refl;
}

one_and_a_half : IsNumber (text "1.5")
unfolding is_digit
one_and_a_half = record {
  head = b'1';
  tail = text ".5";
  parts = refl;
  first = refl;
  no_lone_sign = λ h. cc;
  rest = (refl, (refl, tt));
}

sample-IsPrintable : IsPrintable (λ s. s) kept sample
sample-IsPrintable = (
  ((IsAttr.name active-IsName, tt), (IsAttr.path complex-IsName full-IsName, tt)),
  (IsAttr.name n-IsName, (one_and_a_half, refl)),
)

parse-print_example :
    parse kept (text "(active eq true or name.full co \"a\\\"b\") and n eq 1.5") ≡ ok sample
unfolding print print_at escape
parse-print_example = parse-print kept (λ s. s) sample sample-IsPrintable

parse-ne-out_of_fuel_example : parse kept (text "((a pr") ≢ err out_of_fuel
parse-ne-out_of_fuel_example = parse-ne-out_of_fuel kept (text "((a pr")
