-- ===== src/Auth/Cache/History.antt =====
-- IdentityCache (internal/auth/cache.go) after any sequence of its operations, with the history of what was stored.
use oad.Base.{
  ℕ, zero, suc, ◌+◌, ◌<◌, ◌≡◌, refl, sym, ap, ◌∙◌, subst, Option, none, some, List, [], ◌∷◌, length,
  ltb, ltb→lt, leb, if◌then◌else◌, Bool-cases, Option-cases, inl, inr,
}
use oad.Scim.Text.{Text, same, same→eq}
use oad.Auth.Cache.{Cache, set_item, new_cache, drop_element, lookup, evict, store, invalidate}
use oad.Auth.Cache.Elements.{Element, back, find}
use oad.Auth.Cache.Invariant.{
  WellFormed, kept_item, some_injective, lookup-WellFormed, evict-WellFormed, push-WellFormed,
  invalidate-WellFormed,
}

-- What changes which identity a key stands for: the identity, and the time at which it was stored.
pub data Event : Type 0 where
  stored : Text → ℕ → ℕ → Event
  invalidated : Text → Event

-- The states that the cache can get into, by the operations of any number of callers in any order,
-- each at any time, with the events, the last one first.
pub data Reachable (capacity ttl : ℕ) : List Event → Cache → Type 0 where
  started : Reachable capacity ttl [] new_cache
  looked_up :
      {h : List Event} {c : Cache} (key : Text) (now : ℕ)
      → Reachable capacity ttl h c
      → Reachable capacity ttl h (lookup key now c).1
  has_stored :
      {h : List Event} {c : Cache} (key : Text) (identity now : ℕ)
      → Reachable capacity ttl h c
      → Reachable capacity ttl (stored key identity now ∷ h) (store capacity ttl key identity now c)
  has_invalidated :
      {h : List Event} {c : Cache} (key : Text)
      → Reachable capacity ttl h c
      → Reachable capacity ttl (invalidated key ∷ h) (invalidate key c)

-- The identity that was stored last under the key, and when, unless it was invalidated since.
unfoldable pub latest : Text → List Event → Option (ℕ × ℕ)
unfolding same
latest k [] = none
latest k (stored key identity now ∷ h) = if same key k then some (identity, now) else latest k h
latest k (invalidated key ∷ h) = if same key k then none else latest k h

-- The map holds nothing but what was stored last.
abbrev Agrees : ℕ → List Event → Cache → Type 0
Agrees ttl h c =
    (k : Text) (el : Element)
    → c.items k ≡ some el
    → (t : ℕ) × (latest k h ≡ some (el.identity, t)) × (el.expires_at ≡ t + ttl)

-- No entry of the one map is missing from the other.
abbrev Within : Cache → Cache → Type 0
Within c' c = (k : Text) (el : Element) → c'.items k ≡ some el → c.items k ≡ some el

drop_element-Within : (el : Element) (key : Text) (c : Cache) → Within (drop_element el key c) c
unfolding drop_element
drop_element-Within el key c k e h = (kept_item c.items key k e h).1

lookup-Within : (key : Text) (now : ℕ) (c : Cache) → Within (lookup key now c).1 c
unfolding lookup
lookup-Within key now c = elim (Option-cases (c.items key)) [
  | inl h ↦ rw (h, lookup) (λ k el e. e)
  | inr (el, h) ↦ elim (Bool-cases (ltb now el.expires_at)) [
    | inl live ↦ rw (h, lookup, live) (λ k el e. e)
    | inr late ↦ rw (h, lookup, late) (drop_element-Within el key c)
  ]
]

evict-Within : (capacity fuel : ℕ) (c : Cache) → Within (evict capacity fuel c) c
unfolding evict
evict-Within capacity zero c = λ k el e. e
evict-Within capacity (suc fuel) c = elim (Option-cases (back c.lru)) [
  | inl h ↦ rw (h, evict) (λ k el e. e)
  | inr (el, h) ↦ elim (Bool-cases (leb capacity (length c.lru))) [
    | inr room ↦ rw (h, evict, room) (λ k el e. e)
    | inl full ↦
        rw (h, evict, full)
          (λ k d e.
            drop_element-Within el el.key c k d
              (evict-Within capacity fuel (drop_element el el.key c) k d e))
  ]
]

invalidate-Agrees :
    (ttl : ℕ) (key : Text) (h : List Event) (c : Cache)
    → Agrees ttl h c
    → Agrees ttl (invalidated key ∷ h) (invalidate key c)
unfolding invalidate latest
invalidate-Agrees ttl key h c agrees = elim (Option-cases (c.items key)) [
  | inl n ↦
      rw (n, invalidate)
        (λ k el e. elim (Bool-cases (same key k)) [
          | inl s ↦ let gone : c.items k ≡ none = rw (sym (same→eq key k s)) n in cc
          | inr s ↦ rw s (agrees k el e)
        ])
  | inr (el, n) ↦
      rw (n, invalidate)
        (λ k d e. let (s, e') = kept_item c.items key k d e in rw s (agrees k d e'))
]

store-Agrees :
    (capacity ttl : ℕ) (key : Text) (identity now : ℕ) (h : List Event) (c : Cache)
    → Agrees ttl h c
    → Agrees ttl (stored key identity now ∷ h) (store capacity ttl key identity now c)
unfolding store latest set_item
store-Agrees capacity ttl key identity now h c agrees k el e = elim (Bool-cases (same key k)) [
  | inl s ↦
      let new : Element = record {
        id = (evict capacity (length c.lru) c).next;
        key = key;
        identity = identity;
        expires_at = now + ttl;
      } in
      let one : new ≡ el = some_injective (sym (rw s refl) ∙ e) in
      (now, rw s (ap (λ x. some (x.identity, now)) one), sym (ap (λ x. x.expires_at) one))
  | inr s ↦ rw s (agrees k el (evict-Within capacity (length c.lru) c k el ((rw s refl) ∙ e)))
]

module _ {capacity ttl : ℕ} where
  Reachable-Agrees : {h : List Event} {c : Cache} → Reachable capacity ttl h c → Agrees ttl h c
  Reachable-Agrees started = λ k el e. cc
  Reachable-Agrees (looked_up {h} {c} key now r) =
      λ k el e. Reachable-Agrees r k el (lookup-Within key now c k el e)
  Reachable-Agrees (has_stored {h} {c} key identity now r) =
      store-Agrees capacity ttl key identity now h c (Reachable-Agrees r)
  Reachable-Agrees (has_invalidated {h} {c} key r) =
      invalidate-Agrees ttl key h c (Reachable-Agrees r)

  -- Whatever callers do, each entry of the map is an element of the list, under its own key, and no
  -- two elements of the list are the same.
  pub Reachable-WellFormed :
      {h : List Event} {c : Cache} → Reachable capacity ttl h c → WellFormed c
  unfolding store find
  Reachable-WellFormed started = ((λ k el e. cc), tt, (λ x l. refl))
  Reachable-WellFormed (looked_up {h} {c} key now r) =
      lookup-WellFormed key now c (Reachable-WellFormed r)
  Reachable-WellFormed (has_stored {h} {c} key identity now r) =
      push-WellFormed _ _ (evict-WellFormed capacity (length c.lru) c (Reachable-WellFormed r)) refl
  Reachable-WellFormed (has_invalidated {h} {c} key r) =
      invalidate-WellFormed key c (Reachable-WellFormed r)

  -- Whatever callers do, a hit returns the identity that was stored last under its key, not longer ago
  -- than the time to live, and not invalidated since.
  pub lookup-latest :
      (h : List Event) (c : Cache) (key : Text) (now identity : ℕ)
      → Reachable capacity ttl h c
      → (lookup key now c).0 ≡ some identity
      → (t : ℕ) × (latest key h ≡ some (identity, t)) × (now < t + ttl)
  unfolding lookup
  lookup-latest h c key now identity r hit = elim (Option-cases (c.items key)) [
    | inl n ↦ let miss : none ≡ some identity = rw (sym hit, lookup, n) refl in cc
    | inr (el, n) ↦ elim (Bool-cases (ltb now el.expires_at)) [
      | inr late ↦ let miss : none ≡ some identity = rw (sym hit, lookup, n, late) refl in cc
      | inl live ↦
          let (t, e, x) = Reachable-Agrees r key el n in
          let found : el.identity ≡ identity =
            some_injective (rw (sym hit, lookup, n, live) refl) in
          (
            t,
            e ∙ ap (λ i. some (i, t)) found,
            subst (λ m. now < m) x (ltb→lt now el.expires_at live),
          )
    ]
  ]
