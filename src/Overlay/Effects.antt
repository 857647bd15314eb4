-- ===== src/Overlay/Effects.antt =====
-- What the operations of internal/overlay/service.go do to the table.
use oad.Base.{
  ◌⊎◌, ℕ, ◌≡◌, refl, subst, Bool, true, false, Option, none, some, Bool-cases, Option-cases,
  Result-cases, inl, inr, Result, ok, err,
}
use oad.Errors.{ApiError}
use oad.Scim.Text.{Text}
use oad.Scim.Json.{Json, obj}
use oad.Auth.{Identity}
use oad.Entity.Store.{Environment}
use oad.Table.{Table, find_by_id}
use oad.Overlay.{
  PropertyOverlay, SystemRow, Catalog, prefix_of, all_prefixed, validate_namespace_prefix,
  named_system, resolve_caller_system, resolve_entity, resolve_overlay_schema,
  validate_overlay_properties, check_overlay,
}
use oad.Overlay.Service.{
  insert_logged, update_logged, delete_logged, create_overlay, change_overlay, remove_overlay,
}
use oad.Overlay.Owned.{IsPrefixed, Named, Effect}
use oad.Overlay.Logged.{insert_logged-Does, update_logged-Does, delete_logged-Does, transact-Effect}

-- The caller's system, and the name that the catalog has for it.
abbrev Resolved : Option ℕ → Catalog → Result ApiError (ℕ × Text) → Type 0
Resolved active cat (err e) = Unit
Resolved active cat (ok (s, name)) =
    (active ≡ some s)
    × ((row : SystemRow) × (find_by_id (λ (r : SystemRow). r.id) s cat.systems ≡ some row)
        × (row.name ≡ some name))

resolve_caller_system-Resolved :
    (env : Environment) (caller : Identity) (cat : Catalog)
    → Resolved caller.active_system_id cat (resolve_caller_system env caller cat)
unfolding resolve_caller_system
resolve_caller_system-Resolved env caller cat = elim (Option-cases caller.active_system_id) [
  | inl a ↦ rw a tt
  | inr (s, a) ↦ elim (Bool-cases env.reads_fail) [
    | inl f ↦ rw (a, f) tt
    | inr f ↦ elim (Option-cases (find_by_id (λ (r : SystemRow). r.id) s cat.systems)) [
      | inl n ↦ rw (a, f, n) tt
      | inr (row, n) ↦ rw (a, f, n) (named s row row.active row.name n refl)
    ]
  ]
]
  where
    named :
        (s : ℕ) (row : SystemRow) (active : Option Bool) (name : Option Text)
        → find_by_id (λ (r : SystemRow). r.id) s cat.systems ≡ some row
        → row.name ≡ name
        → Resolved (some s) cat (named_system s active name)
    named s row (some false) name n e = tt
    named s row (some true) none n e = tt
    named s row (some true) (some x) n e = (refl, (row, n, e))
    named s row none none n e = tt
    named s row none (some x) n e = (refl, (row, n, e))

prefixed :
    (props : Json) (name : Text)
    → validate_namespace_prefix props name ≡ ok tt
    → IsPrefixed name props
unfolding validate_namespace_prefix
prefixed (obj fs) name h = elim (Bool-cases (all_prefixed (prefix_of name) fs)) [
  | inl e ↦ e
  | inr e ↦ let w = rw e at h in cc
]
prefixed Json.null name h = tt
prefixed (Json.bool b) name h = cc
prefixed (Json.number n) name h = cc
prefixed (Json.str s) name h = cc
prefixed (Json.arr vs) name h = cc

module _ (compiles : Json → Bool) (validate : Json → Json → Option ApiError) where
  -- What the checks before a transaction have found out.
  abbrev Cleared : Identity → Catalog → Json → Result ApiError (ℕ × Text) → Type 0
  Cleared caller cat props (err e) = Unit
  Cleared caller cat props (ok (s, name)) = (caller.active_system_id ≡ some s) × Named cat s props

  check_overlay-Cleared :
      (env : Environment) (caller : Identity) (cat : Catalog) (entity : ℕ) (props : Json)
      → Cleared caller cat props (check_overlay compiles validate env caller cat entity props)
  unfolding check_overlay validate_overlay_properties
  check_overlay-Cleared env caller cat entity props =
      elim (Result-cases (resolve_caller_system env caller cat)) [
        | inr (e, h) ↦ rw h tt
        | inl ((s, name), h) ↦ elim (Result-cases (resolve_entity env entity cat)) [
          | inr (e, k) ↦ rw (h, k) tt
          | inl (type, k) ↦ elim (Result-cases (resolve_overlay_schema env s type cat)) [
            | inr (e, l) ↦ rw (h, k, l) tt
            | inl (schema, l) ↦ elim (Result-cases (validate_namespace_prefix props name)) [
              | inr (e, m) ↦ rw (h, k, l, m) tt
              | inl (u, m) ↦ elim (Bool-cases (compiles schema.allowed_overlay_properties)) [
                | inr c ↦ rw (h, k, l, m, c) tt
                | inl c ↦ elim (Option-cases (validate props schema.allowed_overlay_properties)) [
                  | inr (e, v) ↦ rw (h, k, l, m, c, v) tt
                  | inl v ↦
                      let (active, (row, there, called)) =
                        subst (λ r. Resolved caller.active_system_id cat r) h
                          (resolve_caller_system-Resolved env caller cat) in
                      rw (h, k, l, m, c, v)
                        (active, (row, name, there, called, prefixed props name m))
                ]
              ]
            ]
          ]
        ]
      ]

  -- A call changes nothing, or it is by a caller with an active system and has an effect for that system.
  abbrev pub Acts : Identity → Catalog → Table PropertyOverlay → Table PropertyOverlay → Type 0
  Acts caller cat t t' =
      (t'.rows ≡ t.rows)
      ⊎ ((s : ℕ) × (caller.active_system_id ≡ some s) × Effect cat s t.rows t'.rows)

  module _ (print_uuid : ℕ → Text) (env : Environment) (caller : Identity) (cat : Catalog) where
    pub create_overlay-Acts :
        (entity : ℕ) (props : Option Json) (t : Table PropertyOverlay)
        → Acts caller cat t
            (create_overlay print_uuid compiles validate env caller cat entity props t).1
    unfolding create_overlay
    create_overlay-Acts entity none t = inl refl
    create_overlay-Acts entity (some props) t =
        elim (Result-cases (check_overlay compiles validate env caller cat entity props)) [
          | inr (e, h) ↦ rw (create_overlay, h) (inl refl)
          | inl ((s, name), h) ↦
              let (active, named) =
                subst (λ r. Cleared caller cat props r) h
                  (check_overlay-Cleared env caller cat entity props) in
              let o : PropertyOverlay = record {
                id = 0;
                entity_id = entity;
                system_id = s;
                properties = props;
              } in
              rw (create_overlay, h)
                (inr (
                  s,
                  active,
                  transact-Effect print_uuid env caller cat s
                      (insert_logged print_uuid env caller cat o) t
                      (insert_logged-Does print_uuid env caller cat s o t refl named),
                ))
        ]

    pub change_overlay-Acts :
        (entity id : ℕ) (props : Option Json) (t : Table PropertyOverlay)
        → Acts caller cat t
            (change_overlay print_uuid compiles validate env caller cat entity id props t).1
    unfolding change_overlay
    change_overlay-Acts entity id none t = inl refl
    change_overlay-Acts entity id (some props) t =
        elim (Result-cases (check_overlay compiles validate env caller cat entity props)) [
          | inr (e, h) ↦ rw (change_overlay, h) (inl refl)
          | inl ((s, name), h) ↦
              let (active, named) =
                subst (λ r. Cleared caller cat props r) h
                  (check_overlay-Cleared env caller cat entity props) in
              rw (change_overlay, h)
                (inr (
                  s,
                  active,
                  transact-Effect print_uuid env caller cat s
                      (update_logged print_uuid env caller entity s id props) t
                      (update_logged-Does print_uuid env caller cat s entity id props t named),
                ))
        ]

    pub remove_overlay-Acts :
        (entity id : ℕ) (t : Table PropertyOverlay)
        → Acts caller cat t (remove_overlay print_uuid env caller cat entity id t).1
    unfolding remove_overlay
    remove_overlay-Acts entity id t = elim (Result-cases (resolve_caller_system env caller cat)) [
      | inr (e, h) ↦ rw (remove_overlay, h) (inl refl)
      | inl ((s, name), h) ↦
          let active =
            (subst (λ r. Resolved caller.active_system_id cat r) h
              (resolve_caller_system-Resolved env caller cat)).0 in
          rw (remove_overlay, h)
            (inr (
              s,
              active,
              transact-Effect print_uuid env caller cat s
                  (delete_logged print_uuid env caller entity s id) t
                  (delete_logged-Does print_uuid env caller cat s entity id t),
            ))
    ]
