-- ===== src/Scim/Users/Evicted.antt =====
-- What the calls of internal/scim/users/service.go do to the identity cache (internal/auth/cache.go).
use oad.Base.{
  ℕ, ◌≡◌, refl, sym, ap, ◌∙◌, subst, false, Option, none, some, List, [], ◌∷◌, Bool-cases,
  Option-cases, inl, inr, Result, ok, err, guard, Yields, >>=-Yields,
}
use oad.Auth.Cache.{Cache, cache_key, set_item, invalidate, drop_element}
use oad.Scim.Text.{Text, same, same_refl}
use oad.Scim.Patch.{PatchOp}
use oad.Scim.Properties.{Properties, get_property, user_name_key}
use oad.Scim.Users.{patch_user}
use oad.Scim.Users.Mapper.{User, to_properties}
use oad.Scim.Store.{
  ScimError, attribute_required, Tables, Conditions, find_subject, overwrite, unlink, write_entry,
}
use oad.Scim.Store.Settled.{Settled, transaction-Settled}
use oad.Scim.Users.Service.{
  StoredUser, Server, user_type, as_scim, is_string, after_commit, invalidated, read_user,
  replace_audited, replace_in, delete_audited, replace_user, delete_user, patch_in, patch_stored,
}
use oad.Scim.Users.Changes.{Read, read_user-Read}

invalidate-absent : (key : Text) (c : Cache) → (invalidate key c).items key ≡ none
unfolding invalidate drop_element set_item
invalidate-absent key c = elim (Option-cases (c.items key)) [
  | inl n ↦ rw (invalidate, n) n
  | inr (el, h) ↦ rw (invalidate, h, same_refl key) refl
]

invalidate-other :
    (key : Text) (c : Cache) (k : Text)
    → same key k ≡ false
    → (invalidate key c).items k ≡ c.items k
unfolding invalidate drop_element set_item
invalidate-other key c k other = elim (Option-cases (c.items key)) [
  | inl n ↦ rw (invalidate, n) refl
  | inr (el, h) ↦ rw (invalidate, h, other) refl
]

-- The cache, if it is wired, has nothing under the key any more, and under each other key what it had.
abbrev Lacks : Text → Option Cache → Option Cache → Type 0
Lacks key none c' = c' ≡ none
Lacks key (some c) none = ⊥
Lacks key (some c) (some c') =
    (c'.items key ≡ none) × ((k : Text) → same key k ≡ false → c'.items k ≡ c.items k)

-- A call that fails changes neither the tables nor the cache, and after one that succeeds the cache has no identity under
-- the provider and the subject of the answer, by which the provider linked the user, and is as it was under other keys.
abbrev pub Evicts : Text → ℕ → Server → Result ScimError StoredUser × Server → Type 0
Evicts provider id s (err e, s') = s' ≡ s
Evicts provider id s (ok u, s') =
    (find_subject id provider s.tables.links ≡ some u.external_subject)
    × Lacks (cache_key provider u.external_subject) s.cache s'.cache

module _ (env : Conditions) (provider : Text) where
  abbrev Names : ℕ → Tables → StoredUser → Type 0
  Names id t u = find_subject id provider t.links ≡ some u.external_subject

  read-Names :
      (id : ℕ) (t : Tables) (u : StoredUser) → read_user env provider id t ≡ ok u → Names id t u
  read-Names id t u h =
      let read = subst (Yields (Read env provider id t)) h (read_user-Read env provider id t) in
      read.1.1 ∙ ap some (sym (ap (λ (v : StoredUser). v.external_subject) read.2))

  invalidated-Lacks :
      (u : StoredUser) (t : Tables) (c : Option Cache)
      → Lacks (cache_key provider u.external_subject) c (invalidated provider (ok u, t) c)
  unfolding invalidated
  invalidated-Lacks u t none = refl
  invalidated-Lacks u t (some c) =
      let key = cache_key provider u.external_subject in
      (invalidate-absent key c, invalidate-other key c)

  after_commit-Evicts :
      (id : ℕ) (s : Server) (p : Result ScimError StoredUser × Tables)
      → Settled (λ u t'. Names id s.tables u) s.tables p
      → Evicts provider id s (after_commit provider s p)
  unfolding invalidated
  after_commit-Evicts id s (err e, t') h = ap (λ t. record s { tables = t }) h
  after_commit-Evicts id s (ok u, t') h = (h, invalidated-Lacks u t' s.cache)

  abbrev HasNames : ℕ → Tables → StoredUser × Tables → Type 0
  HasNames id t p = Names id t p.0

  replaced-Names :
      (id : ℕ) (before : StoredUser) (props : Properties) (t : Tables)
      → Names id t before
      → Yields (HasNames id t) (replace_audited env provider before props t)
  unfolding replace_audited
  replaced-Names id before props t h =
      >>=-Yields (HasNames id t) (overwrite env user_type provider before.entity_id props t) _
        (λ (found, t₁) k. >>=-Yields (HasNames id t) (write_entry env _ t₁) _ (λ t₂ l. h))

  replace_user-Evicts :
      (id : ℕ) (u : User) (s : Server) → Evicts provider id s (replace_user env provider id u s)
  unfolding replace_user replace_in
  replace_user-Evicts id u s = elim (Bool-cases (same u.user_name [])) [
    | inl e ↦ rw (replace_user, e) refl
    | inr e ↦
        rw (replace_user, e)
          (after_commit-Evicts id s _ (
            transaction-Settled (λ v t'. Names id s.tables v) env (replace_in env provider id u)
              s.tables
              (>>=-Yields (HasNames id s.tables) (read_user env provider id s.tables) _ (λ before h.
                replaced-Names id before (to_properties u) s.tables
                  (read-Names id s.tables before h)))))
  ]

  delete_user-Evicts : (id : ℕ) (s : Server) → Evicts provider id s (delete_user env provider id s)
  unfolding delete_user delete_audited
  delete_user-Evicts id s = after_commit-Evicts id s _ (
      transaction-Settled (λ v t'. Names id s.tables v) env (delete_audited env provider id)
        s.tables
        (>>=-Yields (HasNames id s.tables) (read_user env provider id s.tables) _ (λ before h.
          >>=-Yields (HasNames id s.tables) (unlink env provider id s.tables) _ (λ t₁ k.
            >>=-Yields (HasNames id s.tables) (write_entry env _ t₁) _
              (λ t₂ l. read-Names id s.tables before h)))))

  module _ {F : Type 0} (parse_float : Text → Option F) where
    patch_stored-Evicts :
        (id : ℕ) (o : PatchOp) (ops : List PatchOp) (s : Server)
        → Evicts provider id s (patch_stored env provider parse_float id (o ∷ ops) s)
    unfolding patch_stored patch_in
    patch_stored-Evicts id o ops s = after_commit-Evicts id s _ (
        transaction-Settled (λ v t'. Names id s.tables v) env
          (patch_in env provider parse_float id (o ∷ ops)) s.tables
          (>>=-Yields (HasNames id s.tables) (read_user env provider id s.tables) _ (λ before h.
            >>=-Yields (HasNames id s.tables)
              (as_scim (patch_user parse_float (o ∷ ops) before.properties)) _
              (λ props k.
                >>=-Yields (HasNames id s.tables)
                  (guard (is_string (get_property user_name_key props)) attribute_required) _
                  (λ _ _.
                    replaced-Names id before props s.tables (read-Names id s.tables before h))))))

    -- A PUT, a PATCH with an operation, and a DELETE of a user by an identity provider either fail and change neither the
    -- tables nor the cache, or the cache, if it is wired, has afterwards no identity under that provider and the subject
    -- by which that provider linked the user, and under every other key, those of other providers that linked
    -- the user included, what it had.
    pub user_changes-Evict :
        (id : ℕ) (u : User) (o : PatchOp) (ops : List PatchOp) (s : Server)
        → Evicts provider id s (replace_user env provider id u s)
          × Evicts provider id s (patch_stored env provider parse_float id (o ∷ ops) s)
          × Evicts provider id s (delete_user env provider id s)
    user_changes-Evict id u o ops s =
        (replace_user-Evicts id u s, patch_stored-Evicts id o ops s, delete_user-Evicts id s)
