-- ===== src/Auth/Cache.antt =====
-- internal/auth/cache.go: IdentityCache. Each function that holds the lock is one operation, and Resolve, which
-- lets it go while the resolver works, is two; a theorem over all sequences of them covers every interleaving.
pub mod Elements
pub mod Invariant
pub mod History
pub mod Bound
use oad.Base.{
  ℕ, zero, suc, ◌+◌, Bool, true, false, not, Option, none, some, List, [], ◌∷◌, ◌++◌, length, ltb,
  leb, ◌==◌, if◌then◌else◌,
}
use oad.Scim.Text.{Text, text, same}
use Elements.{Element, remove, back}

-- `items` is the map; the address of an identity stands for the pointer. `next` numbers the elements.
pub record Cache : Type 0 where
  pub items : Text → Option Element
  pub lru : List Element
  pub next : ℕ

unfoldable pub set_item : (Text → Option Element) → Text → Option Element → Text → Option Element
unfolding same
set_item items key el k = if same key k then el else items k

-- NewIdentityCache
abbrev pub new_cache : Cache
new_cache = record { items = λ k. none; lru = []; next = 0 }

-- provider + ":" + sub
unfoldable pub cache_key : Text → Text → Text
cache_key provider sub = provider ++ (b':' ∷ sub)

unfoldable pub drop_element : Element → Text → Cache → Cache
unfolding remove set_item
drop_element el key c = record c { items = set_item c.items key none; lru = remove el.id c.lru }

-- The first locked part of Resolve.
unfoldable pub lookup : Text → ℕ → Cache → Option ℕ × Cache
unfolding remove drop_element
lookup key now c = elim (c.items key) [
  | none ↦ (none, c)
  | some el ↦
      if ltb now el.expires_at
      then (some el.identity, record c { lru = el ∷ remove el.id c.lru })
      else (none, drop_element el key c)
]

-- The loop that makes room; it takes an element out each time, so as many runs as there are elements are enough.
unfoldable pub evict : ℕ → ℕ → Cache → Cache
unfolding back drop_element
evict capacity zero c = c
evict capacity (suc fuel) c = elim (back c.lru) [
  | none ↦ c
  | some oldest ↦
      let rest = evict capacity fuel (drop_element oldest oldest.key c) in
      if leb capacity (length c.lru) then rest else c
]

-- The second locked part of Resolve.
unfoldable pub store : ℕ → ℕ → Text → ℕ → ℕ → Cache → Cache
unfolding evict set_item
store capacity ttl key identity now c =
    let room = evict capacity (length c.lru) c in
    let el : Element = record {
      id = room.next;
      key = key;
      identity = identity;
      expires_at = now + ttl;
    } in
    record { items = set_item room.items key (some el); lru = el ∷ room.lru; next = suc room.next }

-- Invalidate
unfoldable pub invalidate : Text → Cache → Cache
unfolding drop_element
invalidate key c = elim (c.items key) [ none ↦ c | some el ↦ drop_element el key c ]
