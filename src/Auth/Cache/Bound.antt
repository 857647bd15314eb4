-- ===== src/Auth/Cache/Bound.antt =====
-- How many identities IdentityCache (internal/auth/cache.go) keeps.
use oad.Base.{
  ℕ, zero, suc, ◌+◌, ◌-◌, ◌≤◌, ◌<◌, ◌≡◌, refl, false, none, List, [], ◌∷◌, length, arith, ltb, leb,
  Bool-cases, Option-cases, inl, inr,
}
use oad.Scim.Text.{Text}
use oad.Auth.Cache.{Cache, drop_element, lookup, evict, store, invalidate}
use oad.Auth.Cache.Elements.{Element, remove, back, find-back, length-remove_le, length-remove_lt}
use oad.Auth.Cache.Invariant.{WellFormed, drop_element-WellFormed}
use oad.Auth.Cache.History.{
  Event, Reachable, started, looked_up, has_stored, has_invalidated, Reachable-WellFormed,
}

lookup-length :
    (key : Text) (now : ℕ) (c : Cache)
    → WellFormed c
    → length (lookup key now c).1.lru ≤ length c.lru
unfolding lookup drop_element
lookup-length key now c w = elim (Option-cases (c.items key)) [
  | inl h ↦ rw (h, lookup) (omega arith)
  | inr (el, h) ↦ elim (Bool-cases (ltb now el.expires_at)) [
    | inl live ↦
        let shorter = length-remove_lt el.id c.lru el (w.0 key el h).0 in
        rw (h, lookup, live) (omega arith)
    | inr late ↦ rw (h, lookup, late, drop_element) (length-remove_le el.id c.lru)
  ]
]

invalidate-length : (key : Text) (c : Cache) → length (invalidate key c).lru ≤ length c.lru
unfolding invalidate drop_element
invalidate-length key c = elim (Option-cases (c.items key)) [
  | inl h ↦ rw (h, invalidate) (omega arith)
  | inr (el, h) ↦ rw (h, invalidate, drop_element) (length-remove_le el.id c.lru)
]

back-none : (es : List Element) → back es ≡ none → length es ≡ 0
unfolding back
back-none [] h = refl
back-none (e ∷ []) h = cc
back-none (e ∷ d ∷ es) h = let none_left = back-none (d ∷ es) h in omega arith

leb-false : (a b : ℕ) → leb a b ≡ false → b < a
leb-false a b h = ground arith

dropped :
    (el : Element) (c : Cache) (fuel : ℕ)
    → length (remove el.id c.lru) < length c.lru
    → length c.lru ≤ suc fuel
    → length (drop_element el el.key c).lru ≤ fuel
unfolding drop_element
dropped el c fuel h k = omega arith

-- Given as many runs as there are elements, the loop ends with room for one more.
evict-length :
    (capacity fuel : ℕ) (c : Cache)
    → WellFormed c
    → length c.lru ≤ fuel
    → length (evict capacity fuel c).lru ≤ capacity - 1
unfolding evict
evict-length capacity zero c w h = omega arith
evict-length capacity (suc fuel) c w h = elim (Option-cases (back c.lru)) [
  | inl e ↦ let empty = back-none c.lru e in rw (e, evict) (omega arith)
  | inr (el, e) ↦ elim (Bool-cases (leb capacity (length c.lru))) [
    | inr room ↦
        let less = leb-false capacity (length c.lru) room in rw (e, evict, room) (omega arith)
    | inl full ↦
        let there = find-back c.lru el w.1 e in
        let shorter = length-remove_lt el.id c.lru el there in
        rw (e, evict, full)
          (evict-length capacity fuel (drop_element el el.key c)
            (drop_element-WellFormed el c w there) (dropped el c fuel shorter h))
  ]
]

module _ {capacity ttl : ℕ} where
  -- Whatever callers do, the cache keeps at most as many identities as its capacity, and one if the
  -- capacity is 0.
  pub Reachable-length :
      {h : List Event} {c : Cache} → Reachable capacity ttl h c → length c.lru ≤ 1 + (capacity - 1)
  unfolding store
  Reachable-length started = omega arith
  Reachable-length (looked_up {h} {c} key now r) =
      let kept = lookup-length key now c (Reachable-WellFormed r) in
      let before = Reachable-length r in omega arith
  Reachable-length (has_stored {h} {c} key identity now r) =
      let room = evict-length capacity (length c.lru) c (Reachable-WellFormed r) (omega arith) in
      omega arith
  Reachable-length (has_invalidated {h} {c} key r) =
      let kept = invalidate-length key c in let before = Reachable-length r in omega arith
