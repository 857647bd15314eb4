-- ===== src/Retrieval/Service.antt =====
-- internal/retrieval/service.go, over the queries of internal/retrieval/repository.go.
use oad.Base.{
  ℕ, Bool, true, false, ◌&&◌, ◌||◌, Option, none, some, List, [], ◌∷◌, ◌++◌, map, length, ltb, ◌==◌,
  if◌then◌else◌, Result, ok, err, guard,
}
use oad.Errors.{ApiError, bad_request, forbidden, not_found, internal}
use oad.Scim.Text.{Text, same}
use oad.Scim.Json.{Json}
use oad.Auth.{Identity}
use oad.Config.Numbers.{ℤ}
use oad.Entity.{Entity}
use oad.Entity.Store.{Operation, Environment}
use oad.Relation.{Relation}
use oad.Overlay.{PropertyOverlay}
use oad.Table.Paging.{clamp_limit, page}
use oad.Retrieval.{Merge, document, panic, merge_json}

-- RelationRef
pub record RelationRef : Type 0 where
  pub id : ℕ
  pub relation_type : Text
  pub target_entity_id : ℕ
  pub system_id : Option ℕ

-- MergedEntityView and ExportItem, less the two times of the entity.
pub record EntityView : Type 0 where
  pub entity : Entity
  pub properties : Json
  pub relations : List RelationRef

-- ChangelogEntry, less the two values, with its time as a number.
pub record ChangelogEntry : Type 0 where
  pub id : ℕ
  pub actor : Text
  pub operation : Operation
  pub resource_type : Text
  pub resource_id : ℕ
  pub system_id : Option ℕ
  pub timestamp : ℕ

-- LogEntry; the references are those of the entities that were returned.
pub record LogEntry : Type 0 where
  caller_identity : Text
  returned_refs : List ℕ
  pub system_id : Option ℕ

-- The tables that are read: entities in the order of their creation, relations in the order of their type and
-- creation, and the audit log in the order of time; and retrieval_log, which is written.
pub record Tables : Type 0 where
  pub entities : List Entity
  pub relations : List Relation
  pub overlays : List PropertyOverlay
  pub audit_log : List ChangelogEntry
  pub retrieval_log : List LogEntry

-- What a call comes to: an answer, or the panic of mergeJSON.
pub data Reply (A : Type 0) : Type 0 where
  answered : Result ApiError A → Reply A
  panicked : Reply A

-- assertSystemAccess
unfoldable pub assert_requested : Identity → Option ℕ → Result ApiError (Unit {0})
assert_requested caller none = ok tt
assert_requested caller (some asked) = elim caller.active_system_id [
  | none ↦ ok tt
  | some own ↦ guard (caller.is_platform_admin || (own == asked)) forbidden
]

abbrev as_ref : Relation → RelationRef
as_ref r = record {
  id = r.id;
  relation_type = r.relation_type;
  target_entity_id = r.target_entity_id;
  system_id = r.system_id;
}

-- `system_id IS NULL OR ($2 IS NOT NULL AND system_id = $2)`
abbrev pub global_or_asked : Option ℕ → Option ℕ → Bool
global_or_asked asked none = true
global_or_asked none (some s) = false
global_or_asked (some a) (some s) = s == a

-- `$2 IS NULL OR system_id IS NULL OR system_id = $2`
abbrev pub unrestricted_or_asked : Option ℕ → Option ℕ → Bool
unrestricted_or_asked none s = true
unrestricted_or_asked (some a) none = true
unrestricted_or_asked (some a) (some s) = s == a

-- The system that ListChangelog asks for on behalf of a caller.
unfoldable pub changelog_system : Identity → Option ℕ → Result ApiError (Option ℕ)
changelog_system caller asked = elim caller.active_system_id [
  | none ↦ ok asked
  | some own ↦ elim asked [
    | none ↦ ok (some own)
    | some other ↦ if other == own then ok (some own) else err forbidden
  ]
]

unfoldable pub changes_since : ℕ → Option ℕ → List ChangelogEntry → List ChangelogEntry
changes_since since asked [] = []
changes_since since asked (c ∷ cs) =
    let rest = changes_since since asked cs in
    if ltb since c.timestamp && unrestricted_or_asked asked c.system_id then c ∷ rest else rest

-- The system of Export: the caller's, where none is asked for.
abbrev export_system : Identity → Option ℕ → Option ℕ
export_system caller (some s) = some s
export_system caller none = caller.active_system_id

module _ (env : Environment) where
  -- The entity of LookupMerged, with its type by name.
  unfoldable pub find_entity : Text → Text → List Entity → Option Entity
  unfolding same
  find_entity type external [] = none
  find_entity type external (e ∷ es) =
      let rest = find_entity type external es in
      if same e.type type && (same e.external_id external && env.pool_sees e.system_id)
      then some e
      else rest

  unfoldable find_overlay : ℕ → ℕ → List PropertyOverlay → Option PropertyOverlay
  find_overlay entity system [] = none
  find_overlay entity system (o ∷ os) =
      let rest = find_overlay entity system os in
      if (o.entity_id == entity) && ((o.system_id == system) && env.pool_sees (some o.system_id))
      then some o
      else rest

  -- The overlay of the system that is asked for; a query that fails counts as no overlay.
  unfoldable pub merged_properties : Option ℕ → Entity → List PropertyOverlay → Merge
  unfolding find_overlay merge_json
  merged_properties none e overlays = document e.properties
  merged_properties (some system) e overlays =
      if env.reads_fail then document e.properties else elim (find_overlay e.id system overlays) [
        | none ↦ document e.properties
        | some o ↦ merge_json e.properties o.properties
      ]

  -- The relations of an entity that a query takes, of those that the pool shows.
  unfoldable pub relations_from : (Option ℕ → Bool) → ℕ → List Relation → List RelationRef
  relations_from takes entity [] = []
  relations_from takes entity (r ∷ rs) =
      let rest = relations_from takes entity rs in
      if (r.subject_entity_id == entity) && (env.pool_sees r.system_id && takes r.system_id)
      then as_ref r ∷ rest
      else rest

  -- LookupMerged
  unfoldable pub lookup_merged : Text → Text → Option ℕ → Tables → Reply EntityView
  unfolding find_entity merged_properties relations_from
  lookup_merged type external asked t =
      if env.reads_fail
      then answered (err internal)
      else elim (find_entity type external t.entities) [
        | none ↦ answered (err not_found)
        | some e ↦ elim (merged_properties asked e t.overlays) [
          | panic ↦ panicked
          | document props ↦ answered (
              ok (record {
                entity = e;
                properties = props;
                relations = relations_from (global_or_asked asked) e.id t.relations;
              }))
        ]
      ]

  -- logRetrieval: a failure is not passed on.
  unfoldable log_retrieval : Identity → Option ℕ → List ℕ → Tables → Tables
  log_retrieval caller system refs t = if env.writes_fail then t else record t {
    retrieval_log =
        t.retrieval_log
        ++ (record {
          caller_identity = caller.subject;
          returned_refs = refs;
          system_id = elim system [ some s ↦ some s | none ↦ caller.active_system_id ];
        }
            ∷ []);
  }

  -- Lookup
  unfoldable pub lookup_entity :
      Identity → Text → Text → Option ℕ → Tables → Reply EntityView × Tables
  unfolding same assert_requested lookup_merged log_retrieval
  lookup_entity caller type external asked t =
      if same type [] || same external []
      then (answered (err bad_request), t)
      else elim (assert_requested caller asked) [
        | err e ↦ (answered (err e), t)
        | ok _ ↦ elim (lookup_merged type external asked t) [
          | panicked ↦ (panicked, t)
          | answered (err e) ↦ (answered (err e), t)
          | answered (ok view) ↦
              (answered (ok view), log_retrieval caller asked (view.entity.id ∷ []) t)
        ]
      ]

  -- ListChangelog: a page and the total.
  unfoldable pub list_changelog :
      Identity → ℕ → Option ℕ → ℤ → ℕ → Tables → Result ApiError (List ChangelogEntry × ℕ) × Tables
  unfolding changelog_system changes_since clamp_limit log_retrieval
  list_changelog caller since asked limit offset t = elim (changelog_system caller asked) [
    | err e ↦ (err e, t)
    | ok system ↦
        if env.reads_fail
        then (err internal, t)
        else let found = changes_since since system t.audit_log in
          (
            ok (page (clamp_limit 25 100 limit) offset found, length found),
            log_retrieval caller system [] t,
          )
  ]

  unfoldable pub entities_of_type : Text → List Entity → List Entity
  unfolding same
  entities_of_type type [] = []
  entities_of_type type (e ∷ es) =
      let rest = entities_of_type type es in
      if (same type [] || same e.type type) && env.pool_sees e.system_id then e ∷ rest else rest

  -- An item of ExportEntities with its batch of relations.
  unfoldable pub export_item : Option ℕ → List Relation → Entity → EntityView
  unfolding relations_from
  export_item asked relations e = record {
    entity = e;
    properties = e.properties;
    relations = relations_from (unrestricted_or_asked asked) e.id relations;
  }

  -- Export: a page and the total.
  unfoldable pub export_entities :
      Identity → Text → Option ℕ → ℤ → ℕ → Tables → Result ApiError (List EntityView × ℕ) × Tables
  unfolding entities_of_type export_item clamp_limit log_retrieval
  export_entities caller type asked limit offset t =
      if env.reads_fail
      then (err internal, t)
      else let system = export_system caller asked in
        let found = entities_of_type type t.entities in
        let items = page (clamp_limit 100 500 limit) offset found in
        (
          ok (map (export_item system t.relations) items, length found),
          log_retrieval caller system (map (λ (e : Entity). e.id) items) t,
        )

  -- PostgreSQL's `@>` on JSONB.
  module _ (holds : Json → Json → Bool) where
    unfoldable matching_entities : Json → Text → List Entity → List Entity
    unfolding same
    matching_entities filter type [] = []
    matching_entities filter type (e ∷ es) =
        let rest = matching_entities filter type es in
        if holds e.properties filter
          && ((same type [] || same e.type type) && env.pool_sees e.system_id)
        then rest ++ (e ∷ [])
        else rest

    -- Filter: a page, the newest first, and the total.
    unfoldable filter_entities :
        Identity
        → Option Json
        → Text
        → ℤ
        → ℕ
        → Tables
        → Result ApiError (List EntityView × ℕ) × Tables
    unfolding matching_entities clamp_limit log_retrieval
    filter_entities caller none type limit offset t = (err bad_request, t)
    filter_entities caller (some filter) type limit offset t =
        if env.reads_fail
        then (err internal, t)
        else let found = matching_entities filter type t.entities in
          let items = page (clamp_limit 25 100 limit) offset found in
          (
            ok (
              map (λ (e : Entity). record { entity = e; properties = e.properties; relations = [] })
                  items,
              length found,
            ),
            log_retrieval caller none (map (λ (e : Entity). e.id) items) t,
          )
