-- ===== src/Lib.antt =====
-- OAD keeps an organization's entities and their relations in PostgreSQL and serves them, with the
-- authorization data of many systems, over HTTP and SCIM. This library models the parts of it that
-- decide: what is parsed, who may do what, and what an update leaves behind.
--
-- The parts and their files:
--   internal/scim/parser/filter.go   Scim/Lexer (the lexer) and Scim/Filter (the parser): `lex` and
--     `next` are lexer.next, `read_string`, `read_number` and `keyword` its readers, `parse_or`,
--     `join`, `atom` and `comparison` the levels of the parser, `parse` is Parse. The state is the
--     record Lexer.
--   internal/scim/parser/path.go     Scim/Path: `parse_path` is ParsePath, and calls `parse` on the
--     filter.
--   internal/scim/groups/patch.go    Scim/Patch (what groups and users share), Scim/Groups; the
--     state is PatchState, `patch_group` is ApplyPatch, and the three operations are add_attr,
--     replace_attr and remove_attr, which get the path that `parse_path` has read.
--   internal/scim/users/patch.go, mapper.go   Scim/Users and Scim/Users/Mapper, over the same
--     Scim/Patch and the maps of Scim/Properties.
--   internal/scim/users/filter.go, internal/scim/groups/filter.go   Scim/Sql: `filter_to_sql` is
--     FilterToSQL on the trees of Scim/Filter.
--   internal/scim/users/service.go, repository.go   Scim/Store (the tables, their statements and
--     the transaction, which both services use) and Scim/Users/Service: `create_user`,
--     `replace_user`, `patch_stored` and `delete_user` are Create, Replace, Patch and Delete, on a
--     Server, the tables with the identity cache.
--   internal/scim/groups/service.go, repository.go, mapper.go   Scim/Groups/Membership (the
--     relations that make members: `reconcile_members`, `fetch_members`, `validate_members`),
--     Scim/Groups/Repository and Scim/Groups/Service: `create_group`, `replace_group`,
--     `patch_stored` and `delete_group`, on the tables. Scim/Effects says what a call may do to the
--     entities, and Scim/Serving puts the calls of both services together.
--   List of both services and repositories   Scim/Listing: `list_users` and `list_groups`, down to
--     the texts of the queries and their arguments; Scim/Sql/Splice is shiftPlaceholders, on the
--     printed fragments of Scim/Sql.
--   internal/auth/identity.go, resolver.go, mtls.go   Auth: `has_role`, `resolve`,
--     `authenticate_mtls`. Auth/Graph: `resolver_repository` is the repository of `resolve` over
--     the rows that row-level security shows it, one function per query.
--   internal/auth/cache.go           Auth/Cache: the record Cache holds the map and the list;
--     `lookup`, `store` and `invalidate` are the sections that hold the lock, and Reachable is any
--     sequence of them.
--   internal/api/middleware/auth.go, authz.go   Auth/Middleware: `authenticate` over the cache, the
--     resolver and a heap of identities, since the cache and the requests share pointers.
--   internal/entity/service.go, model.go, repository.go   Entity (the checks), Entity/Store (the
--     tables and the queries), Entity/Service (`create`, `update`, `delete`, `bulk_create`). The
--     caller is the identity that the middleware has put into the context; its active system is the
--     scope of the transaction.
--   internal/audit/audit.go, internal/db/scope.go   Entity/Store: `write_from_context` and
--     `in_transaction`.
--   internal/webhook/dispatcher.go, repository.go   Webhook: the rows of webhook_delivery, and
--     `cycle` with `enqueue` and `dispatch`, which read the audit log that the services write.
--   internal/relation                Relation (the types' declarations and the checks of a request)
--     and Relation/Service: `create_relation` is Create, `remove_relation` Delete, `list_relations`
--     ListByEntity.
--   internal/overlay                 Overlay (the checks) and Overlay/Service: `create_overlay`,
--     `change_overlay` and `remove_overlay` are Create, Update and Delete. Both services work on a
--     Table, rows with their part of the audit log, and Table/Rows has what appending, replacing
--     and removing rows keeps.
--   internal/retrieval               Retrieval: `merge_json` is mergeJSON. Retrieval/Service:
--     `lookup_entity`, `filter_entities`, `list_changelog` and `export_entities`, over what the
--     other services have written.
--   internal/config                  Config (the records), Config/Environment, Config/Layers and
--     Config/Load: `load`.
--   internal/api/handler/params.go   Table/Paging.
--   internal/apierr/errors.go        Errors.
--
-- A string is a list of code points (Scim/Text), an error a constructor without its text where the
-- text is for people, a Go pair of a value and an error a Result (Base/Outcome), a UUID a number.
-- JSON is modelled decoded (Scim/Json), an object as its fields in the order of the program's
-- visit.
--
-- Bounds and fuel. The parser recurses on fuel where it meets a parenthesis, the length of the
-- input to begin with; each parenthesis takes a character, and the fuel is proved enough. The loop
-- that makes room in the cache has as many runs as there are elements. A number is printed on one
-- more than itself as fuel, more than it has digits. Other loops are structural. The delay
-- of a retry is a product of int64, modulo 2^64, and from 2^63 on read as negative. Go's int never comes near its bounds
-- here: positions and lengths are those of texts in memory.
--
-- Parameters, for code that is not in the repository: strconv.ParseFloat, uuid.Parse, the
-- validation of JWTs, PostgreSQL's cast of a text to boolean, its ILIKE with its documented laws,
-- its answers to the queries of the SCIM lists, the JSON Schema library, the printing of UUIDs,
-- time.ParseDuration, the reading of the configuration file, PostgreSQL's @>, the clock. What the
-- database shows to a query and which of its accesses fail is the Environment of an operation, or
-- its Conditions in the SCIM services; the responses of webhook receivers are the Answers of a
-- cycle, and its subscriptions those that row-level security shows to the dispatcher.
--
-- Not modelled: the services over overlay schemas, entity types and systems; webhook subscriptions,
-- payloads and signatures; the HTTP handlers, logging and metrics, which are glue; the front end;
-- the times of rows, but for those of the SCIM services; the texts of errors; ETags; Unicode case
-- mapping outside ASCII, which no keyword or attribute needs.
pub mod Base
pub mod Scim
pub mod Auth
pub mod Config
pub mod Entity
pub mod Table
pub mod Relation
pub mod Overlay
pub mod Retrieval
pub mod Webhook
pub mod Errors
