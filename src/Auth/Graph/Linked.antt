-- ===== src/Auth/Graph/Linked.antt =====
-- The link and the active flag of an account, as the queries of internal/auth/resolver.go read them.
use oad.Base.{
  ℕ, ◌≡◌, refl, sym, ap, ◌∙◌, Bool, true, ◌&&◌, Option, none, some, List, [], ◌∷◌, ◌↔◌, arith,
  Bool-cases, inl, inr, ok, err,
}
use mathlib.Core.List.Memᴰ
use mathlib.Core.List.{Memᴰ}
use oad.Scim.Text.{Text, same, same→eq, same_refl}
use oad.Scim.Json.{Json, null, bool, number, str, arr, obj}
use oad.Scim.Properties.{get_property, active_key}
use oad.Scim.Store.{EntityRow, ExternalIdentity, row_id}
use oad.Auth.{AuthError, failed}
use oad.Auth.Graph.{Graph, linked_entity, active_flag}
use oad.Table.{find_by_id}

-- A link of the provider and the subject to the entity.
abbrev pub IsLinked : Text → Text → List ExternalIdentity → ℕ → Type 0
IsLinked provider subject links x =
    (l : ExternalIdentity) × Memᴰ l links
    × (l.provider_name ≡ provider)
    × (l.external_subject ≡ subject)
    × (l.entity_id ≡ x)

-- UNIQUE (provider_name, external_subject)
abbrev pub Unambiguous : List ExternalIdentity → Type 0
Unambiguous links =
    (provider subject : Text) (x y : ℕ)
    → IsLinked provider subject links x
    → IsLinked provider subject links y
    → x ≡ y

pub linked_entity-IsLinked :
    (provider subject : Text) (links : List ExternalIdentity) (x : ℕ)
    → linked_entity provider subject links ≡ some x
    → IsLinked provider subject links x
unfolding linked_entity
linked_entity-IsLinked provider subject [] x h = cc
linked_entity-IsLinked provider subject (l ∷ ls) x h =
    elim (Bool-cases (same l.provider_name provider && same l.external_subject subject)) [
      | inl e ↦
          let q : some l.entity_id ≡ some x = rw e at h in
          (
            l,
            Memᴰ.head refl,
            same→eq l.provider_name provider (ground arith),
            same→eq l.external_subject subject (ground arith),
            cc,
          )
      | inr e ↦
          let (m, mem, p, s, i) = linked_entity-IsLinked provider subject ls x (rw e at h) in
          (m, Memᴰ.tail mem, p, s, i)
    ]

-- Where there is a link, one is found.
IsLinked-linked_entity :
    (provider subject : Text) (links : List ExternalIdentity) (x : ℕ)
    → IsLinked provider subject links x
    → (y : ℕ) × (linked_entity provider subject links ≡ some y)
unfolding linked_entity
IsLinked-linked_entity provider subject [] x (l, mem, p, s, e) = absurd (Memᴰ.not-nil mem)
IsLinked-linked_entity provider subject (l ∷ ls) x (m, Memᴰ.head q, p, s, e) =
    let same_provider : l.provider_name ≡ provider =
      ap (λ (k : ExternalIdentity). k.provider_name) (sym q) ∙ p in
    let same_subject : l.external_subject ≡ subject =
      ap (λ (k : ExternalIdentity). k.external_subject) (sym q) ∙ s in
    (l.entity_id, rw (same_provider, same_subject, same_refl provider, same_refl subject) refl)
IsLinked-linked_entity provider subject (l ∷ ls) x (m, Memᴰ.tail mem, p, s, i) =
    elim (Bool-cases (same l.provider_name provider && same l.external_subject subject)) [
      | inl e ↦ (l.entity_id, rw e refl)
      | inr e ↦
          let (y, h) = IsLinked-linked_entity provider subject ls x (m, mem, p, s, i) in (y, rw e h)
    ]

pub linked_entity_iff :
    (provider subject : Text) (links : List ExternalIdentity) (x : ℕ)
    → Unambiguous links
    → (linked_entity provider subject links ≡ some x) ↔ IsLinked provider subject links x
linked_entity_iff provider subject links x one = (
  linked_entity-IsLinked provider subject links x,
  λ l.
      let (y, h) = IsLinked-linked_entity provider subject links x l in
      h ∙ ap some (one provider subject y x (linked_entity-IsLinked provider subject links y h) l),
)

module _ (cast_boolean : Json → Option Bool) where
  -- What the flag says: true if it is absent or null, and of another kind what the database reads it as.
  abbrev pub Reads : Bool → Option Json → Type 0
  Reads b none = b ≡ true
  Reads b (some null) = b ≡ true
  Reads b (some (bool c)) = c ≡ b
  Reads b (some v) = cast_boolean v ≡ some b

  cast-some :
      (c : Option Bool) (b : Bool)
      → elim c [ none ↦ err failed | some b ↦ ok b ] ≡ ok b
      → c ≡ some b
  cast-some none b h = cc
  cast-some (some c) b h = cc

  pub active_flag-Reads :
      (b : Bool) (flag : Option Json) → active_flag cast_boolean flag ≡ ok b → Reads b flag
  unfolding active_flag
  active_flag-Reads b none h = cc
  active_flag-Reads b (some null) h = cc
  active_flag-Reads b (some (bool c)) h = cc
  active_flag-Reads b (some (number t)) h = cast-some (cast_boolean (number t)) b h
  active_flag-Reads b (some (str t)) h = cast-some (cast_boolean (str t)) b h
  active_flag-Reads b (some (arr xs)) h = cast-some (cast_boolean (arr xs)) b h
  active_flag-Reads b (some (obj fs)) h = cast-some (cast_boolean (obj fs)) b h

  pub Reads-active_flag :
      (b : Bool) (flag : Option Json) → Reads b flag → active_flag cast_boolean flag ≡ ok b
  unfolding active_flag
  Reads-active_flag b none h = rw h refl
  Reads-active_flag b (some null) h = rw h refl
  Reads-active_flag b (some (bool c)) h = rw h refl
  Reads-active_flag b (some (number t)) h = rw (active_flag, h) refl
  Reads-active_flag b (some (str t)) h = rw (active_flag, h) refl
  Reads-active_flag b (some (arr xs)) h = rw (active_flag, h) refl
  Reads-active_flag b (some (obj fs)) h = rw (active_flag, h) refl

  cast-failed :
      (c : Option Bool) (q : AuthError)
      → elim c [ none ↦ err failed | some b ↦ ok b ] ≡ err q
      → q ≡ failed
  cast-failed none q h = cc
  cast-failed (some b) q h = cc

  pub active_flag-failed :
      (flag : Option Json) (q : AuthError) → active_flag cast_boolean flag ≡ err q → q ≡ failed
  unfolding active_flag
  active_flag-failed none q h = cc
  active_flag-failed (some null) q h = cc
  active_flag-failed (some (bool c)) q h = cc
  active_flag-failed (some (number t)) q h = cast-failed (cast_boolean (number t)) q h
  active_flag-failed (some (str t)) q h = cast-failed (cast_boolean (str t)) q h
  active_flag-failed (some (arr xs)) q h = cast-failed (cast_boolean (arr xs)) q h
  active_flag-failed (some (obj fs)) q h = cast-failed (cast_boolean (obj fs)) q h

  -- An entity that is there, to which a link leads, and whose active flag has the property.
  abbrev pub HasAccount : Graph → Text → Text → (Option Json → Type 0) → Type 0
  HasAccount g provider subject P =
      (x : ℕ) × (e : EntityRow) × IsLinked provider subject g.links x
      × (find_by_id row_id x g.entities ≡ some e)
      × P (get_property active_key e.properties)
