-- ===== src/Retrieval/Scoped.antt =====
-- What a caller with an active system is told of other systems (internal/retrieval/service.go).
use oad.Base.{
  ◌⊎◌, ==_iff, ℕ, ◌≡◌, refl, sym, ◌∙◌, Bool, true, false, ◌||◌, Option, none, some, List, [], ◌∷◌,
  map, zero, suc, All, ltb, ◌==◌, Bool-cases, Option-cases, Result-cases, inl, inr, Result, ok, err,
}
use oad.Errors.{ApiError, forbidden}
use oad.Scim.Text.{Text, same}
use oad.Auth.{Identity}
use oad.Config.Numbers.{ℤ}
use oad.Entity.Store.{Environment}
use oad.Relation.{Relation}
use oad.Table.Paging.{clamp_limit, page, take, drop}
use oad.Retrieval.{document, panic}
use oad.Retrieval.Service.{
  RelationRef, EntityView, ChangelogEntry, Tables, Reply, answered, panicked, assert_requested,
  find_entity, merged_properties, global_or_asked, unrestricted_or_asked, relations_from,
  lookup_merged, lookup_entity, changelog_system, changes_since, list_changelog, entities_of_type,
  export_item, export_entities,
}

-- A row of no system, or of this one.
abbrev pub Within : ℕ → Option ℕ → Type 0
Within own none = Unit
Within own (some s) = s ≡ own

abbrev RefsWithin : ℕ → List RelationRef → Type 0
RefsWithin own = All (λ (r : RelationRef). Within own r.system_id)

module _ (own : ℕ) where
  -- A query that takes no rows of other systems.
  abbrev Takes : (Option ℕ → Bool) → Type 0
  Takes takes = (s : Option ℕ) → takes s ≡ true → Within own s

  relations_from-Within :
      (env : Environment) (takes : Option ℕ → Bool) (entity : ℕ) (rs : List Relation)
      → Takes takes
      → RefsWithin own (relations_from env takes entity rs)
  unfolding relations_from
  relations_from-Within env takes entity [] h = tt
  relations_from-Within env takes entity (r ∷ rs) h =
      elim (Bool-cases (r.subject_entity_id == entity)) [
        | inr a ↦ rw a (relations_from-Within env takes entity rs h)
        | inl a ↦ elim (Bool-cases (env.pool_sees r.system_id)) [
          | inr b ↦ rw (a, b) (relations_from-Within env takes entity rs h)
          | inl b ↦ elim (Bool-cases (takes r.system_id)) [
            | inr c ↦ rw (a, b, c) (relations_from-Within env takes entity rs h)
            | inl c ↦ rw (a, b, c) (h r.system_id c, relations_from-Within env takes entity rs h)
          ]
        ]
      ]

  global-Takes : (asked : Option ℕ) → Within own asked → Takes (global_or_asked asked)
  global-Takes none w none h = tt
  global-Takes none w (some s) h = cc
  global-Takes (some a) w none h = tt
  global-Takes (some a) w (some s) h = (==_iff s a).0 h ∙ w

  unrestricted-Takes : Takes (unrestricted_or_asked (some own))
  unrestricted-Takes none h = tt
  unrestricted-Takes (some s) h = (==_iff s own).0 h

  changes_since-Within :
      (since : ℕ) (cs : List ChangelogEntry)
      → All (λ (c : ChangelogEntry). Within own c.system_id) (changes_since since (some own) cs)
  unfolding changes_since
  changes_since-Within since [] = tt
  changes_since-Within since (c ∷ cs) = elim (Bool-cases (ltb since c.timestamp)) [
    | inr a ↦ rw a (changes_since-Within since cs)
    | inl a ↦ elim (Bool-cases (unrestricted_or_asked (some own) c.system_id)) [
      | inr b ↦ rw (a, b) (changes_since-Within since cs)
      | inl b ↦ rw (a, b) (unrestricted-Takes c.system_id b, changes_since-Within since cs)
    ]
  ]

module _ {A : Type 0} (P : A → Type 0) where
  All-take : (n : ℕ) (xs : List A) → All P xs → All P (take n xs)
  All-take zero xs h = tt
  All-take (suc n) [] h = tt
  All-take (suc n) (x ∷ xs) h = (h.0, All-take n xs h.1)

  All-drop : (n : ℕ) (xs : List A) → All P xs → All P (drop n xs)
  All-drop zero xs h = h
  All-drop (suc n) [] h = tt
  All-drop (suc n) (x ∷ xs) h = All-drop n xs h.1

All-map :
    {A B : Type 0} (P : B → Type 0) (f : A → B) (xs : List A)
    → ((x : A) → P (f x))
    → All P (map f xs)
All-map P f [] h = tt
All-map P f (x ∷ xs) h = (h x, All-map P f xs h)

module _ (own : ℕ) where
  abbrev pub Looked : Reply EntityView → Type 0
  Looked (answered (ok view)) = RefsWithin own view.relations
  Looked _ = Unit

  abbrev pub Listed : Result ApiError (List ChangelogEntry × ℕ) × Tables → Type 0
  Listed (ok (items, total), t) = All (λ (c : ChangelogEntry). Within own c.system_id) items
  Listed (err e, t) = Unit

  abbrev pub Exported : Result ApiError (List EntityView × ℕ) × Tables → Type 0
  Exported (ok (items, total), t) = All (λ (view : EntityView). RefsWithin own view.relations) items
  Exported (err e, t) = Unit

module _ (env : Environment) (caller : Identity) (own : ℕ)
    (active : caller.active_system_id ≡ some own) where
  lookup_merged-Looked :
      (type external : Text) (asked : Option ℕ) (t : Tables)
      → Within own asked
      → Looked own (lookup_merged env type external asked t)
  unfolding lookup_merged
  lookup_merged-Looked type external asked t w = elim (Bool-cases env.reads_fail) [
    | inl f ↦ rw (lookup_merged, f) tt
    | inr f ↦ elim (Option-cases (find_entity env type external t.entities)) [
      | inl n ↦ rw (lookup_merged, f, n) tt
      | inr (e, n) ↦
          let all =
            relations_from-Within own env (global_or_asked asked) e.id t.relations
              (global-Takes own asked w) in
          elim (merged_properties env asked e t.overlays)
              as (λ m.
                merged_properties env asked e t.overlays ≡ m
                → Looked own (lookup_merged env type external asked t)) [
                  | panic ↦ λ q. rw (lookup_merged, f, n, q) tt
                  | document d ↦ λ q. rw (lookup_merged, f, n, q) all
                ]
            refl
    ]
  ]

  -- The system that may be asked for.
  asked-Within :
      (asked : Option ℕ)
      → caller.is_platform_admin ≡ false
      → (Within own asked) ⊎ ((e : ApiError) × (assert_requested caller asked ≡ err e))
  unfolding assert_requested
  asked-Within none plain = inl tt
  asked-Within (some a) plain = elim (Bool-cases (own == a)) [
    | inl y ↦ inl (sym ((==_iff own a).0 y))
    | inr n ↦ inr (forbidden, rw (active, plain, n) refl)
  ]

  lookup_entity-Looked :
      (type external : Text) (asked : Option ℕ) (t : Tables)
      → caller.is_platform_admin ≡ false
      → Looked own (lookup_entity env caller type external asked t).0
  unfolding lookup_entity
  lookup_entity-Looked type external asked t plain =
      elim (Bool-cases (same type [] || same external [])) [
        | inl a ↦ rw (lookup_entity, a) tt
        | inr a ↦ elim (asked-Within asked plain) [
          | inr (e, no_access) ↦ rw (lookup_entity, a, no_access) tt
          | inl w ↦ elim (Result-cases (assert_requested caller asked)) [
            | inr (e, b) ↦ rw (lookup_entity, a, b) tt
            | inl (u, b) ↦ told u a b w
          ]
        ]
      ]
    where
      told :
          (u : Unit {0})
          → (same type [] || same external []) ≡ false
          → assert_requested caller asked ≡ ok u
          → Within own asked
          → Looked own (lookup_entity env caller type external asked t).0
      told u a b w =
          elim (lookup_merged env type external asked t)
              as (λ m.
                lookup_merged env type external asked t ≡ m
                → Looked own m
                → Looked own (lookup_entity env caller type external asked t).0) [
                  | panicked ↦ λ q l. rw (lookup_entity, a, b, q) tt
                  | answered (err e) ↦ λ q l. rw (lookup_entity, a, b, q) tt
                  | answered (ok view) ↦ λ q l. rw (lookup_entity, a, b, q) l
                ]
            refl (lookup_merged-Looked type external asked t w)

  listed :
      (since : ℕ) (limit : ℤ) (offset : ℕ) (t : Tables)
      → All
          (λ (c : ChangelogEntry). Within own c.system_id)
          (page (clamp_limit 25 100 limit) offset (changes_since since (some own) t.audit_log))
  listed since limit offset t =
      let P = λ (c : ChangelogEntry). Within own c.system_id in
      let found = changes_since since (some own) t.audit_log in
      All-take P (clamp_limit 25 100 limit) (drop offset found)
        (All-drop P offset found (changes_since-Within own since t.audit_log))

  list_changelog-Listed :
      (since : ℕ) (asked : Option ℕ) (limit : ℤ) (offset : ℕ) (t : Tables)
      → Listed own (list_changelog env caller since asked limit offset t)
  unfolding list_changelog changelog_system
  list_changelog-Listed since none limit offset t = elim (Bool-cases env.reads_fail) [
    | inl f ↦ rw (list_changelog, active, f) tt
    | inr f ↦ rw (list_changelog, active, f) (listed since limit offset t)
  ]
  list_changelog-Listed since (some other) limit offset t = elim (Bool-cases (other == own)) [
    | inr n ↦ rw (list_changelog, active, n) tt
    | inl y ↦ elim (Bool-cases env.reads_fail) [
      | inl f ↦ rw (list_changelog, active, y, f) tt
      | inr f ↦ rw (list_changelog, active, y, f) (listed since limit offset t)
    ]
  ]

  export_entities-Exported :
      (type : Text) (limit : ℤ) (offset : ℕ) (t : Tables)
      → Exported own (export_entities env caller type none limit offset t)
  unfolding export_entities export_item
  export_entities-Exported type limit offset t = elim (Bool-cases env.reads_fail) [
    | inl f ↦ rw (export_entities, f) tt
    | inr f ↦
        let items =
          page (clamp_limit 100 500 limit) offset (entities_of_type env type t.entities) in
        let all =
          All-map (λ (view : EntityView). RefsWithin own view.relations)
            (export_item env (some own) t.relations) items
            (λ e.
              relations_from-Within own env (unrestricted_or_asked (some own)) e.id t.relations
                (unrestricted-Takes own)) in
        rw (export_entities, f, active) all
  ]

  -- A caller with an active system who is no platform admin is told nothing of other systems by a lookup or the
  -- changelog, whatever system is asked for, nor by an export that asks for none: the relations of an entity that is
  -- looked up or exported, and the entries of the changelog, are all global or of the caller's system,
  -- even where row-level security hides nothing.
  pub retrieval-Within :
      (type external : Text) (asked : Option ℕ) (since : ℕ) (limit : ℤ) (offset : ℕ) (t : Tables)
      → caller.is_platform_admin ≡ false
      → Looked own (lookup_entity env caller type external asked t).0
        × Listed own (list_changelog env caller since asked limit offset t)
        × Exported own (export_entities env caller type none limit offset t)
  retrieval-Within type external asked since limit offset t plain = (
    lookup_entity-Looked type external asked t plain,
    list_changelog-Listed since asked limit offset t,
    export_entities-Exported type limit offset t,
  )
