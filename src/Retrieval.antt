-- ===== src/Retrieval.antt =====
-- internal/retrieval/repository.go, mergeJSON: an overlay over the properties of an entity.
pub mod Service
pub mod Nested
pub mod Merged
pub mod Scoped
mod Tests
use oad.Base.{ℕ, Bool, true, false, Option, none, some, List, [], ◌∷◌, ◌++◌, ◌==◌, if◌then◌else◌}
use oad.Scim.Text.{Text, same}
use oad.Scim.Json.{Json, Fields, null, obj, end, field}
use oad.Scim.Properties.{Properties, set_property, get_property}

-- A map[string]json.RawMessage, decoded and encoded. A JSONB document has no key twice; the entries are in the
-- order in which a loop over the map visits them, so a theorem over all lists covers every order.
abbrev pub decoded : Fields → Properties
decoded end = []
decoded (field k v fs) = (k, v) ∷ decoded fs

abbrev pub encoded : Properties → Fields
encoded [] = end
encoded ((k, v) ∷ ps) = field k v (encoded ps)

-- What json.Unmarshal makes of a value: null gives the map nil and no error.
pub data Unmarshalled : Type 0 where
  failed nil_map : Unmarshalled
  entries : Properties → Unmarshalled

abbrev unmarshal : Json → Unmarshalled
unmarshal (obj fs) = entries (decoded fs)
unmarshal null = nil_map
unmarshal _ = failed

-- The document, or the panic of an assignment to an entry of a nil map.
pub data Merge : Type 0 where
  document : Json → Merge
  panic : Merge

-- strings.Index(k, "."), and the texts on its two sides.
unfoldable pub cut_at_dot : Text → Option (Text × Text)
cut_at_dot [] = none
cut_at_dot (c ∷ s) =
    let rest = cut_at_dot s in
    if c == b'.'
    then some ([], s)
    else elim rest [ none ↦ none | some (before, after) ↦ some (c ∷ before, after) ]

-- A key with a dot that is not its first character.
abbrev if_named : Option (Text × Text) → Option (Text × Text)
if_named none = none
if_named (some ([], after)) = none
if_named (some (c ∷ before, after)) = some (c ∷ before, after)

unfoldable pub namespace_of : Text → Option (Text × Text)
unfolding cut_at_dot
namespace_of k = if_named (cut_at_dot k)

abbrev pub Nested : Type 0
Nested = List (Text × Properties)

-- `nested[ns][subkey] = v`
unfoldable pub add_nested : Text → Text → Json → Nested → Nested
unfolding same set_property
add_nested ns sub v [] = (ns, (sub, v) ∷ []) ∷ []
add_nested ns sub v ((m, ps) ∷ rest) =
    if same m ns then (m, set_property sub v ps) ∷ rest else (m, ps) ∷ add_nested ns sub v rest

-- The first loop: the keys without a namespace go to the base at once.
unfoldable pub group_entries : Properties → Properties × Nested → Properties × Nested
unfolding namespace_of add_nested set_property
group_entries [] (base, nested) = (base, nested)
group_entries ((k, v) ∷ es) (base, nested) = group_entries es (elim (namespace_of k) [
  | some (ns, sub) ↦ (base, add_nested ns sub v nested)
  | none ↦ (set_property k v base, nested)
])

-- maps.Copy
unfoldable pub copy_into : Properties → Properties → Properties
unfolding set_property
copy_into target [] = target
copy_into target ((k, v) ∷ ps) = copy_into (set_property k v target) ps

-- One namespace of the second loop; none is the panic.
abbrev pub merged_namespace : Option Json → Properties → Option Json
merged_namespace none ps = some (obj (encoded ps))
merged_namespace (some existing) ps = elim (unmarshal existing) [
  | failed ↦ some (obj (encoded ps))
  | nil_map ↦ none
  | entries old ↦ some (obj (encoded (copy_into old ps)))
]

-- The second loop.
unfoldable pub merge_nested : Nested → Properties → Merge
unfolding get_property set_property copy_into
merge_nested [] base = document (obj (encoded base))
merge_nested ((ns, ps) ∷ rest) base = elim (merged_namespace (get_property ns base) ps) [
  | none ↦ panic
  | some v ↦ merge_nested rest (set_property ns v base)
]

abbrev merge_entries : Properties × Nested → Merge
merge_entries (base, nested) = merge_nested nested base

abbrev merge_into : Json → Properties → Unmarshalled → Merge
merge_into whole base failed = document whole
merge_into whole base nil_map = merge_entries (group_entries [] (base, []))
merge_into whole base (entries es) = merge_entries (group_entries es (base, []))

-- mergeJSON, on an overlay that is not empty.
unfoldable pub merge_json : Json → Json → Merge
unfolding group_entries merge_nested
merge_json base overlay = elim (unmarshal base) [
  | failed ↦ document base
  | nil_map ↦ merge_into base [] (unmarshal overlay)
  | entries ps ↦ merge_into base ps (unmarshal overlay)
]
