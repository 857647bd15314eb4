-- ===== src/Scim/Path/Tests.antt =====
-- Runs of the path parser of internal/scim/parser/path.go.
use oad.Base.{◌≡◌, refl, true, Option, some, ok}
use oad.Scim.Text.{Text, text, lower, is_letter, is_digit}
use oad.Scim.Lexer.{eq, keyword}
use oad.Scim.Filter.{Value, compare}
use oad.Scim.Filter.Print.{IsName, IsAttr, print, print_at, escape}
use oad.Scim.Path.{AttrPath, is_ident_char, parse_path}
use oad.Scim.Path.RoundTrip.{IsIdent, IsPrintablePath, print_path, parse_path-print}

abbrev kept : Text → Option Text
kept s = some s

-- emails[primary eq true].value
abbrev sample : AttrPath Text
sample = record {
  attr = text "emails";
  sub_attr = text "value";
  filter = some (compare (text "primary") eq (Value.bool true));
}

primary-IsName : IsName (text "primary")
unfolding lower is_letter is_digit keyword
primary-IsName = record {
  head = b'p';
  tail = text "rimary";
  parts = refl;
  letter = refl;
  rest = (refl, (refl, (refl, (refl, (refl, (refl, tt))))));
  plain = refl;
  lowered = refl;
}

emails-IsIdent : IsIdent (text "emails")
unfolding lower is_ident_char
emails-IsIdent = record {
  head = b'e';
  tail = text "mails";
  parts = refl;
  chars = (refl, (refl, (refl, (refl, (refl, (refl, tt))))));
  lowered = refl;
}

value-IsIdent : IsIdent (text "value")
unfolding lower is_ident_char
value-IsIdent = record {
  head = b'v';
  tail = text "alue";
  parts = refl;
  chars = (refl, (refl, (refl, (refl, (refl, tt)))));
  lowered = refl;
}

sample-IsPrintablePath : IsPrintablePath (λ s. s) kept sample
sample-IsPrintablePath = record {
  attr = emails-IsIdent;
  filter = (IsAttr.name primary-IsName, tt);
  sub_attr = value-IsIdent;
}

parse_path-print_example : parse_path kept (text "emails[primary eq true].value") ≡ ok sample
unfolding print_path print print_at escape
parse_path-print_example = parse_path-print (λ s. s) kept sample sample-IsPrintablePath
