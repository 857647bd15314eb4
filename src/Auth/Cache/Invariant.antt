-- ===== src/Auth/Cache/Invariant.antt =====
-- What holds of IdentityCache (internal/auth/cache.go) after any sequence of its operations.
use oad.Base.{
  ℕ, zero, suc, ◌≡◌, ◌≤◌, refl, sym, ap, ◌∙◌, subst, true, false, Option, none, some, List, ◌∷◌,
  length, arith, ltb, leb, ◌==◌, ==_iff, ==_refl, Bool-cases, Option-cases, inl, inr,
}
use oad.Scim.Text.{Text, same, same→eq, same_refl}
use oad.Auth.Cache.{Cache, set_item, drop_element, lookup, evict, invalidate}
use oad.Auth.Cache.Elements.{
  Element, remove, back, find, Distinct, find-remove, find-remove_other, find-remove-none,
  remove-Distinct, find-back,
}

-- Each entry of the map is an element of the list, under its own key, and no number is taken twice.
abbrev Points : Cache → Type 0
Points c =
    (k : Text) (el : Element) → c.items k ≡ some el → (find el.id c.lru ≡ some el) × (el.key ≡ k)

abbrev pub WellFormed : Cache → Type 0
WellFormed c = Points c × Distinct c.lru × ((x : ℕ) → c.next ≤ x → find x c.lru ≡ none)

pub some_injective {ℓ} : {A : Type ℓ} {a b : A} → some a ≡ some b → a ≡ b
some_injective h = cc

-- An entry that is still in the map after a removal is that of another key.
pub kept_item :
    (items : Text → Option Element) (key k : Text) (e : Element)
    → set_item items key none k ≡ some e
    → (same key k ≡ false) × (items k ≡ some e)
unfolding set_item
kept_item items key k e h = elim (Bool-cases (same key k)) [
  | inl s ↦ let absurd : none ≡ some e = rw (sym h, set_item, s) refl in cc
  | inr s ↦ (s, (rw s refl) ∙ h)
]

same_element :
    (a b : Element) (es : List Element)
    → find a.id es ≡ some a
    → find b.id es ≡ some b
    → (a.id == b.id) ≡ true
    → a ≡ b
same_element a b es f g d =
    some_injective (sym f ∙ (ap (λ x. find x es) ((==_iff a.id b.id).0 d) ∙ g))

pub drop_element-WellFormed :
    (el : Element) (c : Cache)
    → WellFormed c
    → find el.id c.lru ≡ some el
    → WellFormed (drop_element el el.key c)
unfolding drop_element
drop_element-WellFormed el c (points, distinct, fresh) there = (
  (λ k e h.
      let (other, h₁) = kept_item c.items el.key k e h in
      let (found, its) = points k e h₁ in
      elim (Bool-cases (el.id == e.id)) [
        | inr d ↦ (find-remove_other el.id e.id c.lru d ∙ found, its)
        | inl d ↦
            let one : el ≡ e = same_element el e c.lru there found d in
            let yes : same el.key k ≡ true = rw (ap (λ x. x.key) one ∙ its) (same_refl k) in cc
      ]),
  remove-Distinct el.id c.lru distinct,
  (λ x h. find-remove-none el.id x c.lru (fresh x h)),
)

find-to_front :
    (el : Element) (es : List Element) (x : ℕ)
    → find el.id es ≡ some el
    → find x (el ∷ remove el.id es) ≡ find x es
unfolding find
find-to_front el es x there = elim (Bool-cases (el.id == x)) [
  | inl h ↦ rw (h, ← (==_iff el.id x).0 h) (sym there)
  | inr h ↦ rw h (find-remove_other el.id x es h)
]

to_front :
    (el : Element) (c : Cache)
    → WellFormed c
    → find el.id c.lru ≡ some el
    → WellFormed (record c { lru = el ∷ remove el.id c.lru })
to_front el c w there = (
  (λ k e h. (find-to_front el c.lru e.id there ∙ (w.0 k e h).0, (w.0 k e h).1)),
  (find-remove el.id c.lru, remove-Distinct el.id c.lru w.1),
  (λ x h. find-to_front el c.lru x there ∙ w.2 x h),
)

pub lookup-WellFormed :
    (key : Text) (now : ℕ) (c : Cache) → WellFormed c → WellFormed (lookup key now c).1
unfolding lookup
lookup-WellFormed key now c w = elim (Option-cases (c.items key)) [
  | inl h ↦ rw (h, lookup) w
  | inr (el, h) ↦ elim (Bool-cases (ltb now el.expires_at)) [
    | inl live ↦ rw (h, lookup, live) (to_front el c w ((w.0 key el h).0))
    | inr late ↦
        rw (h, lookup, late)
          (subst (λ k. WellFormed (drop_element el k c)) (w.0 key el h).1
            (drop_element-WellFormed el c w (w.0 key el h).0))
  ]
]

pub evict-WellFormed :
    (capacity fuel : ℕ) (c : Cache) → WellFormed c → WellFormed (evict capacity fuel c)
unfolding evict
evict-WellFormed capacity zero c w = w
evict-WellFormed capacity (suc fuel) c w = elim (Option-cases (back c.lru)) [
  | inl h ↦ rw (h, evict) w
  | inr (el, h) ↦ elim (Bool-cases (leb capacity (length c.lru))) [
    | inr room ↦ rw (h, evict, room) w
    | inl full ↦
        rw (h, evict, full)
          (evict-WellFormed capacity fuel (drop_element el el.key c)
            (drop_element-WellFormed el c w (find-back c.lru el w.1 h)))
  ]
]

pub invalidate-WellFormed : (key : Text) (c : Cache) → WellFormed c → WellFormed (invalidate key c)
unfolding invalidate
invalidate-WellFormed key c w = elim (Option-cases (c.items key)) [
  | inl h ↦ rw (h, invalidate) w
  | inr (el, h) ↦
      rw (h, invalidate)
        (subst (λ k. WellFormed (drop_element el k c)) (w.0 key el h).1
          (drop_element-WellFormed el c w (w.0 key el h).0))
]

-- Adding an element with a fresh number.
pub push-WellFormed :
    (el : Element) (c : Cache)
    → WellFormed c
    → el.id ≡ c.next
    → WellFormed
        (record { items = set_item c.items el.key (some el); lru = el ∷ c.lru; next = suc c.next })
unfolding set_item find
push-WellFormed el c (points, distinct, fresh) e = (
  (λ k d h. elim (Bool-cases (same el.key k)) [
    | inl s ↦
        let one : el ≡ d = some_injective (sym (rw s refl) ∙ h) in
        subst (λ d. (find d.id (el ∷ c.lru) ≡ some d) × (d.key ≡ k)) one
          (rw (==_refl el.id) refl, same→eq el.key k s)
    | inr s ↦
        let (found, its) = points k d ((rw s refl) ∙ h) in
        elim (Bool-cases (el.id == d.id)) [
          | inr n ↦ (rw n found, its)
          | inl y ↦ let absent = fresh d.id (ground (arith, ==_iff el.id d.id)) in cc
        ]
  ]),
  (fresh el.id (omega arith), distinct),
  (λ x h. ground (arith, fresh x)),
)
