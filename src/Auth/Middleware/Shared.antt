-- ===== src/Auth/Middleware/Shared.antt =====
-- The identity that requests share by way of the cache (internal/api/middleware/auth.go, internal/auth/cache.go).
use oad.Base.{
  ℕ, ◌+◌, ◌<◌, ◌≡◌, refl, subst, Bool, true, false, not, ◌&&◌, Option, none, some, [], arith, ltb,
  Bool-cases, Option-cases, Result-cases, inl, inr, Result, ok, err,
}
use oad.Scim.Text.{Text, text, same, same_refl}
use oad.Errors.{ApiError}
use oad.Auth.{ResolverRepository, resolve}
use oad.Auth.Cache.{Cache, set_item, cache_key, lookup, store}
use oad.Auth.Middleware.{
  Request, Server, allocate, cut_prefix, cached_resolve, resolve_jwt, identify, system_in_allowed,
  set_active_system, authenticate,
}
use oad.Auth.Middleware.Scope.{IsScoped, authenticate-IsScoped}

lookup-store :
    (capacity ttl : ℕ) (key : Text) (a at now : ℕ) (c : Cache)
    → now < at + ttl
    → (lookup key now (store capacity ttl key a at c)).0 ≡ some a
unfolding lookup store set_item
lookup-store capacity ttl key a at now c h =
    let live : ltb now (at + ttl) ≡ true = ground arith in
    rw (lookup, same_refl key, lookup, live) refl

module _ (parse_uuid : Text → Option ℕ) (authenticate_raw : Text → Option (Text × Text))
    (repo : ResolverRepository) (capacity ttl : ℕ) where
  -- The request has the token of the subject.
  abbrev pub Presents : Text → Text → Request → Type 0
  Presents provider sub r =
      (token : Text) × (same r.authorization [] ≡ false)
      × (cut_prefix r.authorization (text "Bearer ") ≡ some token)
      × (authenticate_raw token ≡ some (provider, sub))

  abbrev SameCache : ℕ → Cache → Result ApiError ℕ × Server → Type 0
  SameCache a c (ok b, s) = (b ≡ a) × (s.cache ≡ c)
  SameCache a c (err e, s) = Unit

  set_active_system-SameCache :
      (header : Text) (a : ℕ) (s : Server)
      → SameCache a s.cache
          (set_active_system parse_uuid authenticate_raw repo capacity ttl header a s)
  unfolding set_active_system
  set_active_system-SameCache header a s = elim (Bool-cases (same header [])) [
    | inl e ↦ rw e (refl, refl)
    | inr e ↦ elim (Option-cases (parse_uuid header)) [
      | inl h ↦ rw (e, h) tt
      | inr (system, h) ↦ elim (Option-cases (s.heap a)) [
        | inl n ↦ rw (e, h, n) tt
        | inr (id, n) ↦
            elim (Bool-cases
              (not id.is_platform_admin && not (system_in_allowed system id.allowed_systems))) [
                | inl refused ↦ rw (e, h, n, refused) tt
                | inr passed ↦ rw (e, h, n, passed) (refl, refl)
              ]
      ]
    ]
  ]

  module _ (provider sub : Text) where
    -- The cache has the identity at the address of the answer, for a while.
    abbrev Remembers : ℕ → Result ApiError ℕ × Server → Type 0
    Remembers now (ok a, s) = (lookup (cache_key provider sub) now s.cache).0 ≡ some a
    Remembers now (err e, s) = Unit

    SameCache-Remembers :
        (now a : ℕ) (c : Cache) (p : Result ApiError ℕ × Server)
        → (lookup (cache_key provider sub) now c).0 ≡ some a
        → SameCache a c p
        → Remembers now p
    SameCache-Remembers now a c (err e, s) hit h = tt
    SameCache-Remembers now a c (ok b, s) hit (e, k) = rw (k, e) hit

    authenticate-Remembers :
        (has_mtls : Bool) (r : Request) (s : Server) (now : ℕ)
        → Presents provider sub r
        → (lookup (cache_key provider sub) r.asked_at s.cache).0 ≡ none
        → now < r.stored_at + ttl
        → Remembers now
            (authenticate parse_uuid authenticate_raw repo capacity ttl (text "jwt") has_mtls r s)
    unfolding authenticate identify resolve_jwt cached_resolve allocate same
    authenticate-Remembers has_mtls r s now (token, given, cut, raw) miss early =
        let key = cache_key provider sub in
        let looked = (lookup key r.asked_at s.cache).1 in
        let stored = store capacity ttl key s.next_address r.stored_at looked in
        elim (Result-cases (resolve repo provider sub)) [
          | inr (e, h) ↦
              rw (authenticate, identify, resolve_jwt, given, cut, raw, cached_resolve, miss, h) tt
          | inl (id, h) ↦
              rw (authenticate, identify, resolve_jwt, given, cut, raw, cached_resolve, miss, h)
                (SameCache-Remembers now s.next_address stored _
                  (lookup-store capacity ttl key s.next_address r.stored_at now looked early)
                  (set_active_system-SameCache r.system_header s.next_address _))
        ]

    authenticate-cached :
        (has_mtls : Bool) (r : Request) (s : Server) (a : ℕ)
        → same r.system_header [] ≡ true
        → Presents provider sub r
        → (lookup (cache_key provider sub) r.asked_at s.cache).0 ≡ some a
        → authenticate parse_uuid authenticate_raw repo capacity ttl (text "jwt") has_mtls r s
          ≡ (ok a, record s { cache = (lookup (cache_key provider sub) r.asked_at s.cache).1 })
    unfolding authenticate identify resolve_jwt cached_resolve set_active_system same
    authenticate-cached has_mtls r s a no_header (token, given, cut, raw) hit =
        rw
          (
            authenticate, identify, resolve_jwt, given, cut, raw, cached_resolve, hit,
            set_active_system, no_header,
          )
          refl

    -- In mode jwt, when a request with the header X-OAD-System-Id passes whose subject the cache had nothing for, the
    -- next request of the subject, if it has no such header and comes before the time to live is over, passes with the
    -- same identity on the heap, in which the system that the header of the first one named is still active.
    pub authenticate_shared :
        (has_mtls : Bool) (first later : Request) (s s₁ : Server) (a : ℕ)
        → Presents provider sub first
        → Presents provider sub later
        → (lookup (cache_key provider sub) first.asked_at s.cache).0 ≡ none
        → later.asked_at < first.stored_at + ttl
        → same first.system_header [] ≡ false
        → same later.system_header [] ≡ true
        → authenticate parse_uuid authenticate_raw repo capacity ttl (text "jwt") has_mtls first s
          ≡ (ok a, s₁)
        → (s₂ : Server) × (authenticate parse_uuid authenticate_raw repo capacity ttl
              (text "jwt")
              has_mtls
              later
              s₁
            ≡ (ok a, s₂))
          × IsScoped parse_uuid first.system_header a s₂
    authenticate_shared has_mtls first later s s₁ a p q miss early given no_header passed =
        let hit =
          subst (Remembers later.asked_at) passed
            (authenticate-Remembers has_mtls first s later.asked_at p miss early) in
        (
          record s₁ { cache = (lookup (cache_key provider sub) later.asked_at s₁.cache).1 },
          authenticate-cached has_mtls later s₁ a no_header q hit,
          authenticate-IsScoped parse_uuid authenticate_raw repo capacity ttl (text "jwt") has_mtls
              first s s₁ a given passed,
        )
