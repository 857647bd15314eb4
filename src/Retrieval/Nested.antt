-- ===== src/Retrieval/Nested.antt =====
-- The keys with namespaces that mergeJSON of internal/retrieval/repository.go puts into nested objects.
use oad.Base.{
  ==_iff, ==_refl, ◌≡◌, ◌≢◌, refl, sym, ap, ◌∙◌, subst, Bool, true, false, not, ◌&&◌, Option, none,
  some, [], ◌∷◌, ◌++◌, All, ◌==◌, Bool-cases, inl, inr,
}
use oad.Scim.Text.{Text, same, same→eq, same_comm}
use oad.Scim.Json.{Json, null, obj}
use oad.Scim.Properties.{
  Properties, set_property, get_property, get_property-set_property,
  get_property-set_property_other,
}
use oad.Overlay.{has_prefix, prefix_of}
use oad.Retrieval.{decoded, encoded, Merge, document, panic, cut_at_dot, namespace_of, copy_into}

pub decoded-encoded : (ps : Properties) → decoded (encoded ps) ≡ ps
decoded-encoded [] = refl
decoded-encoded ((k, v) ∷ ps) = rw (decoded-encoded ps) refl

-- The name of a system that its overlays can be told by: it is not empty and has no dot.
abbrev no_dot : Text → Bool
no_dot [] = true
no_dot (c ∷ s) = not (c == b'.') && no_dot s

abbrev pub IsNamespace : Text → Type 0
IsNamespace name = (same name [] ≡ false) × (no_dot name ≡ true)

abbrev pub dotted : Text → Text → Text
dotted name sub = name ++ (b'.' ∷ sub)

cut-dotted :
    (name sub : Text) → no_dot name ≡ true → cut_at_dot (dotted name sub) ≡ some (name, sub)
unfolding cut_at_dot
cut-dotted [] sub h = refl
cut-dotted (c ∷ name) sub h = elim (Bool-cases (c == b'.')) [
  | inl e ↦ let w = rw e at h in cc
  | inr e ↦ rw (e, cut-dotted name sub (rw e at h)) refl
]

pub namespace_of-dotted :
    (name sub : Text) → IsNamespace name → namespace_of (dotted name sub) ≡ some (name, sub)
unfolding namespace_of same
namespace_of-dotted [] sub h = cc
namespace_of-dotted (c ∷ name) sub h = rw (cut-dotted (c ∷ name) sub h.1) refl

-- A key that has the prefix has the name, a dot and a rest.
pub after_prefix :
    (k name : Text) → has_prefix k (prefix_of name) ≡ true → (sub : Text) × (k ≡ dotted name sub)
unfolding has_prefix
after_prefix [] [] h = cc
after_prefix [] (p ∷ name) h = cc
after_prefix (c ∷ k) [] h = elim (Bool-cases (c == b'.')) [
  | inl e ↦ (k, ap (λ d. d ∷ k) ((==_iff c b'.').0 e))
  | inr e ↦ let w = rw e at h in absurd (true_ne_false (sym w))
]
  where
    true_ne_false : true ≢ false
    true_ne_false = cc
after_prefix (c ∷ k) (p ∷ name) h = elim (Bool-cases (c == p)) [
  | inl e ↦
      let (sub, q) = after_prefix k name (rw e at h) in
      (sub, ap (λ d. d ∷ k) ((==_iff c p).0 e) ∙ ap (λ s. p ∷ s) q)
  | inr e ↦ let w = rw e at h in absurd (true_ne_false (sym w))
]
  where
    true_ne_false : true ≢ false
    true_ne_false = cc

pub same-dotted : (name s t : Text) → same (dotted name s) (dotted name t) ≡ same s t
unfolding same
same-dotted [] s t = refl
same-dotted (c ∷ name) s t = rw (==_refl c, same-dotted name s t) refl

-- Every key has the prefix of the system, as validateNamespacePrefix of internal/overlay wants it.
abbrev pub IsOf : Text → Properties → Type 0
IsOf name = All (λ (e : Text × Json). has_prefix e.0 (prefix_of name) ≡ true)

abbrev pub NodupKeys : Properties → Type 0
NodupKeys [] = Unit
NodupKeys ((k, v) ∷ ps) = (get_property k ps ≡ none) × NodupKeys ps

NodupKeys-set :
    (k : Text) (v : Json) (ps : Properties) → NodupKeys ps → NodupKeys (set_property k v ps)
unfolding set_property get_property
NodupKeys-set k v [] h = (refl, tt)
NodupKeys-set k v ((j, w) ∷ ps) h = elim (Bool-cases (same j k)) [
  | inl e ↦ rw e h
  | inr e ↦
      rw e (
        get_property-set_property_other j k v ps (same_comm k j ∙ e) ∙ h.0,
        NodupKeys-set k v ps h.1,
      )
]

-- The first value that is there.
abbrev pub either_value : Option Json → Option Json → Option Json
either_value none other = other
either_value (some v) other = some v

pub get-missing :
    (j k : Text) (ps : Properties)
    → same j k ≡ true
    → get_property j ps ≡ none
    → get_property k ps ≡ none
get-missing j k ps e h = subst (λ i. get_property i ps ≡ none) (same→eq j k e) h

pub get-copy_into :
    (k : Text) (old ps : Properties)
    → NodupKeys ps
    → get_property k (copy_into old ps) ≡ either_value (get_property k ps) (get_property k old)
unfolding copy_into get_property
get-copy_into k old [] h = refl
get-copy_into k old ((j, v) ∷ ps) h = elim (Bool-cases (same j k)) [
  | inl e ↦
      let gone = get-missing j k ps e h.0 in
      let now : get_property k (set_property j v old) ≡ some v =
        subst (λ i. get_property i (set_property j v old) ≡ some v) (same→eq j k e)
          (get_property-set_property j v old) in
      get-copy_into k (set_property j v old) ps h.1 ∙ rw (gone, now, e) refl
  | inr e ↦
      get-copy_into k (set_property j v old) ps h.1
      ∙ rw (get_property-set_property_other k j v old e, e) refl
]

abbrev pub sub_of : Option (Text × Text) → Text
sub_of none = []
sub_of (some (ns, sub)) = sub

-- The keys of one namespace, without it.
abbrev pub nest : Properties → Properties → Properties
nest ps [] = ps
nest ps ((k, v) ∷ es) = nest (set_property (sub_of (namespace_of k)) v ps) es

pub NodupKeys-nest : (ps es : Properties) → NodupKeys ps → NodupKeys (nest ps es)
NodupKeys-nest ps [] h = h
NodupKeys-nest ps ((k, v) ∷ es) h =
    NodupKeys-nest (set_property (sub_of (namespace_of k)) v ps) es
      (NodupKeys-set (sub_of (namespace_of k)) v ps h)

-- What the base has under the name, where that is an object.
abbrev pub inside : Option Json → Text → Option Json
inside (some (obj fs)) sub = get_property sub (decoded fs)
inside _ sub = none

module _ (name : Text) where
  -- The merged document, or the panic.
  abbrev pub Overlaid : Properties → Properties → Merge → Type 0
  Overlaid base es panic = get_property name base ≡ some null
  Overlaid base es (document d) =
      (get_property name base ≢ some null)
      × ((r : Properties) × (d ≡ obj (encoded r))
          × ((k : Text) → same name k ≡ false → get_property k r ≡ get_property k base)
          × ((ps : Properties) × (get_property name r ≡ some (obj (encoded ps)))
              × ((sub : Text)
                  → get_property sub ps
                    ≡ either_value (get_property (dotted name sub) es)
                        (inside (get_property name base) sub))))
