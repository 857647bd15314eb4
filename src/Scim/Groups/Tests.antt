-- ===== src/Scim/Groups/Tests.antt =====
-- Runs of the PATCH of groups (internal/scim/groups/patch.go).
use oad.Base.{ℕ, ◌≡◌, refl, false, Option, none, some, List, [], ◌∷◌, ok}
use oad.Scim.Text.{Text, text, same}
use oad.Scim.Lexer.{next}
use oad.Scim.Filter.{parse}
use oad.Scim.Json.{Json, arr, obj, str, nil, cons, end, field}
use oad.Scim.Path.{parse_path, cut_unquoted}
use oad.Scim.Patch.{PatchOp}
use oad.Scim.Properties.{get_property, display_name_key}
use oad.Scim.Groups.{PatchState, patch_group}
use oad.Scim.Groups.Members.{contains}
use oad.Scim.Groups.Laws.{Distinct}
use oad.Scim.Groups.Patching.{patch_group-keeps}

abbrev kept : Text → Option Text
kept s = some s

-- A UUID of one character.
abbrev parse_sample : Text → Option ℕ
parse_sample (c ∷ []) = some c
parse_sample _ = none

abbrev member : Text → Json
member value = obj (field (text "value") (str value) end)

abbrev other_key : Text
other_key = text "costCenter"

abbrev sample : PatchState
sample = record { properties = (other_key, str (text "x")) ∷ []; member_ids = b'a' ∷ b'b' ∷ [] }

-- Adds b and c, then removes a.
abbrev sample_ops : List PatchOp
sample_ops =
    record {
      op = text "Add";
      path = text "members";
      value = some (arr (cons (member (text "b")) (cons (member (text "c")) nil)));
    }
    ∷ record { op = text "remove"; path = text "members[value eq \"a\"]"; value = none }
    ∷ []

abbrev patched : PatchState
patched = record sample { member_ids = b'b' ∷ b'c' ∷ [] }

sample-patch_group : patch_group parse_sample kept sample_ops sample ≡ ok patched
unfolding patch_group parse_path parse next cut_unquoted
sample-patch_group = refl

sample_Distinct : Distinct sample.member_ids
unfolding contains
sample_Distinct = (refl, (refl, tt))

patch_group-keeps_example :
    Distinct patched.member_ids
    × ((k : Text)
        → same display_name_key k ≡ false
        → get_property k patched.properties ≡ get_property k sample.properties)
patch_group-keeps_example =
    patch_group-keeps kept parse_sample sample_ops sample patched sample_Distinct sample-patch_group
