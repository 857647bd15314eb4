-- ===== src/Scim/Json.antt =====
-- The JSON values of PATCH operations (internal/scim/users/patch.go, internal/scim/groups/patch.go) and how
-- encoding/json decodes them. A `null` leaves the target at its zero value and is no error.
use oad.Base.{Bool, false, Option, none, some, ℕ, ◌+◌, ◌&&◌, leb, [], map, ◌==◌, if◌then◌else◌}
use oad.Scim.Text.{Text, same}

-- The fields of an object are in the order in which the program's loop visits them: the order of
-- the text for a struct, any order for a map, so a theorem over all values covers every order.
mutual
  pub data Json : Type 0 where
    null : Json
    bool : Bool → Json
    number : Text → Json
    str : Text → Json
    arr : Items → Json
    obj : Fields → Json

  pub data Items : Type 0 where
    nil : Items
    cons : Json → Items → Items

  pub data Fields : Type 0 where
    end : Fields
    field : Text → Json → Fields → Fields

-- json.Unmarshal into a string; an absent value is an error.
unfoldable pub as_string : Option Json → Option Text
as_string (some (str s)) = some s
as_string (some null) = some []
as_string _ = none

-- json.Unmarshal into a bool.
unfoldable pub as_bool : Option Json → Option Bool
as_bool (some (bool b)) = some b
as_bool (some null) = some false
as_bool _ = none

-- encoding/json matches the names of struct fields by Unicode simple case folding.
unfoldable fold_char : ℕ → ℕ
fold_char c =
    if leb b'A' c && leb c b'Z'
    then c + 32
    else if c == 0x17F
    then b's'
    else if c == 0x212A
    then b'k'
    else c

unfoldable pub names : Text → Text → Bool
unfolding same fold_char
names key field_name = same (map fold_char key) field_name

-- A field of type string or bool takes a value of that type, or null, which changes nothing.
abbrev pub string_field : Json → Text → Option Text
string_field (str s) old = some s
string_field null old = some old
string_field _ old = none

abbrev pub bool_field : Json → Bool → Option Bool
bool_field (bool b) old = some b
bool_field null old = some old
bool_field _ old = none
