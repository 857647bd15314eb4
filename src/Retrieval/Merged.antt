-- ===== src/Retrieval/Merged.antt =====
-- What mergeJSON makes of an entity's properties and an overlay (internal/retrieval/repository.go).
use oad.Base.{
  ◌≡◌, ◌≢◌, refl, sym, ap, ◌∙◌, subst, Option, none, some, [], ◌∷◌, Bool-cases, inl, inr,
}
use oad.Scim.Text.{Text, same, same→eq, same_refl}
use oad.Scim.Json.{Json, Fields, null, obj}
use oad.Scim.Properties.{
  Properties, set_property, get_property, get_property-set_property,
  get_property-set_property_other,
}
use oad.Retrieval.{
  decoded, encoded, Merge, document, panic, namespace_of, add_nested, group_entries, copy_into,
  merged_namespace, merge_nested, merge_json,
}
use oad.Retrieval.Nested.{
  decoded-encoded, dotted, namespace_of-dotted, after_prefix, same-dotted, get-missing,
  get-copy_into, sub_of, nest, NodupKeys-nest, IsNamespace, IsOf, NodupKeys, either_value, inside,
  Overlaid,
}

module _ (name : Text) (ns : IsNamespace name) where
  get-nest :
      (sub : Text) (ps es : Properties)
      → IsOf name es
      → NodupKeys es
      → get_property sub (nest ps es)
        ≡ either_value (get_property (dotted name sub) es) (get_property sub ps)
  unfolding get_property
  get-nest sub ps [] of h = refl
  get-nest sub ps ((k, v) ∷ es) of h =
      let (s, q) = after_prefix k name of.0 in
      let named : sub_of (namespace_of k) ≡ s =
        ap (λ i. sub_of (namespace_of i)) q ∙ rw (namespace_of-dotted name s ns) refl in
      let e : same k (dotted name sub) ≡ same s sub =
        ap (λ i. same i (dotted name sub)) q ∙ same-dotted name s sub in
      get-nest sub (set_property (sub_of (namespace_of k)) v ps) es of.1 h.1
      ∙ elim (Bool-cases (same s sub)) [
        | inl y ↦
            let gone = get-missing k (dotted name sub) es (e ∙ y) h.0 in
            let now : get_property sub (set_property s v ps) ≡ some v =
              subst (λ i. get_property i (set_property s v ps) ≡ some v) (same→eq s sub y)
                (get_property-set_property s v ps) in
            rw (named, e, y, gone) now
        | inr n ↦ rw (named, e, n, get_property-set_property_other sub s v ps n) refl
      ]

  -- Further keys of the namespace join the first.
  group-more :
      (base ps es : Properties)
      → IsOf name es
      → group_entries es (base, (name, ps) ∷ []) ≡ (base, (name, nest ps es) ∷ [])
  unfolding group_entries add_nested
  group-more base ps [] of = refl
  group-more base ps ((k, v) ∷ es) of =
      let (s, q) = after_prefix k name of.0 in
      let named : namespace_of k ≡ some (name, s) =
        ap namespace_of q ∙ namespace_of-dotted name s ns in
      rw (named, same_refl name) (group-more base (set_property s v ps) es of.1)

  group-all :
      (base : Properties) (k : Text) (v : Json) (es : Properties)
      → IsOf name ((k, v) ∷ es)
      → group_entries ((k, v) ∷ es) (base, []) ≡ (base, (name, nest [] ((k, v) ∷ es)) ∷ [])
  unfolding group_entries add_nested set_property
  group-all base k v es of =
      let (s, q) = after_prefix k name of.0 in
      let named : namespace_of k ≡ some (name, s) =
        ap namespace_of q ∙ namespace_of-dotted name s ns in
      rw named (group-more base ((s, v) ∷ []) es of.1)

  placed :
      (base es ps : Properties)
      → get_property name base ≢ some null
      → ((sub : Text)
          → get_property sub ps
            ≡ either_value
                (get_property (dotted name sub) es)
                (inside (get_property name base) sub))
      → Overlaid name base es (document (obj (encoded (set_property name (obj (encoded ps)) base))))
  placed base es ps h values = (
    h,
    (
      set_property name (obj (encoded ps)) base,
      refl,
      (λ k d. get_property-set_property_other k name (obj (encoded ps)) base d),
      (ps, get_property-set_property name (obj (encoded ps)) base, values),
    ),
  )

  -- Where the base has no object under the name, the overlay's values are the only ones.
  alone :
      (base es : Properties) (found : Option Json)
      → get_property name base ≡ found
      → ((sub : Text) → inside found sub ≡ none)
      → IsOf name es
      → NodupKeys es
      → (sub : Text)
      → get_property sub (nest [] es)
        ≡ either_value (get_property (dotted name sub) es) (inside (get_property name base) sub)
  unfolding get_property
  alone base es found h empty of nodup sub =
      get-nest sub [] es of nodup
      ∙ ap (either_value (get_property (dotted name sub) es))
          (sym (empty sub) ∙ ap (λ o. inside o sub) (sym h))

  joined :
      (base es : Properties) (fs : Fields)
      → get_property name base ≡ some (obj fs)
      → IsOf name es
      → NodupKeys es
      → (sub : Text)
      → get_property sub (copy_into (decoded fs) (nest [] es))
        ≡ either_value (get_property (dotted name sub) es) (inside (get_property name base) sub)
  unfolding get_property
  joined base es fs h of nodup sub =
      get-copy_into sub (decoded fs) (nest [] es) (NodupKeys-nest [] es tt)
      ∙ ap (λ o. either_value o (get_property sub (decoded fs))) (get-nest sub [] es of nodup)
      ∙ nothing_between (get_property (dotted name sub) es) (get_property sub (decoded fs))
      ∙ ap (λ o. either_value (get_property (dotted name sub) es) (inside o sub)) (sym h)
    where
      nothing_between :
          (a b : Option Json) → either_value (either_value a none) b ≡ either_value a b
      nothing_between none b = refl
      nothing_between (some v) b = refl

  abbrev with_name : Properties → Properties → Merge
  with_name base ps = document (obj (encoded (set_property name (obj (encoded ps)) base)))

  -- A value that is no map is replaced.
  replaced :
      (base es : Properties) (found : Option Json)
      → get_property name base ≡ found
      → found ≢ some null
      → ((sub : Text) → inside found sub ≡ none)
      → merged_namespace found (nest [] es) ≡ some (obj (encoded (nest [] es)))
      → IsOf name es
      → NodupKeys es
      → Overlaid name base es (merge_nested ((name, nest [] es) ∷ []) base)
  unfolding merge_nested
  replaced base es found h some_value empty m of nodup =
      let e : merge_nested ((name, nest [] es) ∷ []) base ≡ with_name base (nest [] es) =
        rw (merge_nested, h, m) refl in
      subst (Overlaid name base es) (sym e) (
        placed base es (nest [] es) (λ q. some_value (sym h ∙ q))
          (alone base es found h empty of nodup))

  merged-Overlaid :
      (base es : Properties) (found : Option Json)
      → get_property name base ≡ found
      → IsOf name es
      → NodupKeys es
      → Overlaid name base es (merge_nested ((name, nest [] es) ∷ []) base)
  unfolding merge_nested
  merged-Overlaid base es (some null) h of nodup =
      let e : merge_nested ((name, nest [] es) ∷ []) base ≡ panic = rw (merge_nested, h) refl in
      subst (Overlaid name base es) (sym e) h
  merged-Overlaid base es (some (obj fs)) h of nodup =
      let ps = copy_into (decoded fs) (nest [] es) in
      let e : merge_nested ((name, nest [] es) ∷ []) base ≡ with_name base ps =
        rw (merge_nested, h) refl in
      subst (Overlaid name base es) (sym e)
        (placed base es ps (λ q. no_null (sym h ∙ q)) (joined base es fs h of nodup))
    where
      no_null : {fs : Fields} → some (obj fs) ≢ some null
      no_null = cc
  merged-Overlaid base es none h of nodup = replaced base es none h (cc) (λ sub. refl) refl of nodup
  merged-Overlaid base es (some (Json.bool b)) h of nodup =
      replaced base es (some (Json.bool b)) h (cc) (λ sub. refl) refl of nodup
  merged-Overlaid base es (some (Json.number b)) h of nodup =
      replaced base es (some (Json.number b)) h (cc) (λ sub. refl) refl of nodup
  merged-Overlaid base es (some (Json.str b)) h of nodup =
      replaced base es (some (Json.str b)) h (cc) (λ sub. refl) refl of nodup
  merged-Overlaid base es (some (Json.arr b)) h of nodup =
      replaced base es (some (Json.arr b)) h (cc) (λ sub. refl) refl of nodup

  -- An overlay whose keys are all of one system, as internal/overlay stores them, whose name has no dot, is
  -- merged into the entity's own properties, in whatever order its keys are visited, so that each of
  -- them is a field of the object under the name, the other fields that the base has in that object are kept,
  -- and the properties under other names are as in the base; except that a base with null under the name panics.
  pub merge_json-Overlaid :
      (base es : Properties) (k : Text) (v : Json)
      → IsOf name ((k, v) ∷ es)
      → NodupKeys ((k, v) ∷ es)
      → Overlaid name base
          ((k, v) ∷ es)
          (merge_json (obj (encoded base)) (obj (encoded ((k, v) ∷ es))))
  unfolding merge_json
  merge_json-Overlaid base es k v of nodup =
      let e : merge_json (obj (encoded base)) (obj (encoded ((k, v) ∷ es)))
          ≡ merge_nested ((name, nest [] ((k, v) ∷ es)) ∷ []) base =
        rw (decoded-encoded base, decoded-encoded es, group-all base k v es of) refl in
      subst (Overlaid name base ((k, v) ∷ es)) (sym e)
        (merged-Overlaid base ((k, v) ∷ es) (get_property name base) refl of nodup)
