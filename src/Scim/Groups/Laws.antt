-- ===== src/Scim/Groups/Laws.antt =====
-- What PATCH promises about the members of a group (internal/scim/groups/patch.go).
use oad.Base.{
  ℕ, ◌≡◌, refl, sym, ap, ◌∙◌, Bool, true, false, ◌||◌, ◌&&◌, not, List, [], ◌∷◌, ◌++◌, append_assoc,
  append-nil, arith, ◌==◌, ==_iff, Bool-cases, inl, inr,
}
use oad.Scim.Groups.Members.{
  contains, add_unseen, merge_members, dedup_members, remove_first, remove_member,
}

-- No member occurs twice.
abbrev pub Distinct : List ℕ → Type 0
Distinct [] = Unit
Distinct (x ∷ xs) = (contains xs x ≡ false) × Distinct xs

or_assoc : (a b c : Bool) → ((a || b) || c) ≡ (a || (b || c))
or_assoc true b c = refl
or_assoc false b c = refl

contains-append :
    (xs ys : List ℕ) (x : ℕ) → contains (xs ++ ys) x ≡ (contains xs x || contains ys x)
unfolding contains
contains-append [] ys x = refl
contains-append (y ∷ xs) ys x = ground (arith, contains-append xs ys x)

-- The maps of seen members agree with the list that is built.
abbrev Agree : List ℕ → List ℕ → Type 0
Agree seen out = (x : ℕ) → contains seen x ≡ contains out x

Agree-push : (seen out : List ℕ) (id : ℕ) → Agree seen out → Agree (id ∷ seen) (out ++ id ∷ [])
unfolding contains
Agree-push seen out id h x = ground (arith, contains-append out (id ∷ []) x, h x)

contains-add_unseen :
    (seen out ids : List ℕ) (x : ℕ)
    → Agree seen out
    → contains (add_unseen seen out ids) x ≡ (contains out x || contains ids x)
unfolding add_unseen
contains-add_unseen seen out [] x h = ground arith
contains-add_unseen seen out (id ∷ ids) x h = ground (
  arith,
  contains-add_unseen seen out ids x h,
  contains-add_unseen (id ∷ seen) (out ++ id ∷ []) ids x (Agree-push seen out id h),
  contains-append out (id ∷ []) x,
  h x,
  h id,
  ==_iff id x,
)

-- After a merge the members are those that were there and those that were added, and no others.
contains-merge_members :
    (base to_add : List ℕ) (x : ℕ)
    → contains (merge_members base to_add) x ≡ (contains base x || contains to_add x)
unfolding merge_members
contains-merge_members base to_add x = contains-add_unseen base base to_add x (λ y. refl)

add_unseen-append :
    (seen out ids : List ℕ) → (more : List ℕ) × (add_unseen seen out ids ≡ out ++ more)
unfolding add_unseen
add_unseen-append seen out [] = ([], ground (arith, append-nil out))
add_unseen-append seen out (id ∷ ids) = elim (Bool-cases (contains seen id)) [
  | inl old ↦ let (more, e) = add_unseen-append seen out ids in (more, rw old e)
  | inr new ↦
      let (more, e) = add_unseen-append (id ∷ seen) (out ++ id ∷ []) ids in
      (id ∷ more, rw new (e ∙ append_assoc out (id ∷ []) more))
]

-- The members that were there keep their places: what is new stands behind them.
merge_members-append :
    (base to_add : List ℕ) → (more : List ℕ) × (merge_members base to_add ≡ base ++ more)
unfolding merge_members
merge_members-append base to_add = add_unseen-append base base to_add

Distinct-push :
    (out : List ℕ) (id : ℕ) → Distinct out → contains out id ≡ false → Distinct (out ++ id ∷ [])
unfolding contains
Distinct-push [] id d h = (refl, tt)
Distinct-push (y ∷ ys) id d h = (
  ground (arith, contains-append ys (id ∷ []) y, ==_iff y id, ==_iff id y),
  Distinct-push ys id d.1 (ground arith),
)

Distinct-add_unseen :
    (seen out ids : List ℕ) → Agree seen out → Distinct out → Distinct (add_unseen seen out ids)
unfolding add_unseen
Distinct-add_unseen seen out [] h d = d
Distinct-add_unseen seen out (id ∷ ids) h d = elim (Bool-cases (contains seen id)) [
  | inl old ↦ rw old (Distinct-add_unseen seen out ids h d)
  | inr new ↦ rw new (
      Distinct-add_unseen (id ∷ seen) (out ++ id ∷ []) ids (Agree-push seen out id h)
        (Distinct-push out id d (sym (h id) ∙ new)))
]

pub merge_members-Distinct :
    (base to_add : List ℕ) → Distinct base → Distinct (merge_members base to_add)
unfolding merge_members
merge_members-Distinct base to_add d = Distinct-add_unseen base base to_add (λ x. refl) d

pub dedup_members-Distinct : (ids : List ℕ) → Distinct (dedup_members ids)
unfolding dedup_members
dedup_members-Distinct ids = Distinct-add_unseen [] [] ids (λ x. refl) tt

-- Deduplication loses no member and adds none.
contains-dedup_members : (ids : List ℕ) (x : ℕ) → contains (dedup_members ids) x ≡ contains ids x
unfolding dedup_members contains
contains-dedup_members ids x = contains-add_unseen [] [] ids x (λ y. refl)

remove_first-true : (ids : List ℕ) (target : ℕ) → remove_first true ids target ≡ ids
unfolding remove_first
remove_first-true [] target = refl
remove_first-true (id ∷ ids) target = ap (λ t. id ∷ t) (remove_first-true ids target)

-- From a list without repetitions exactly the target goes.
contains-remove_first :
    (ids : List ℕ) (target x : ℕ)
    → Distinct ids
    → contains (remove_first false ids target) x ≡ (contains ids x && not (x == target))
unfolding remove_first contains
contains-remove_first [] target x d = refl
contains-remove_first (id ∷ ids) target x d = ground (
  arith,
  remove_first-true ids target,
  contains-remove_first ids target x d.1,
  ==_iff id target,
  ==_iff id x,
  ==_iff x target,
)

-- Where no member occurs twice, removing one takes that one away and leaves the others.
contains-remove_member :
    (ids : List ℕ) (target x : ℕ)
    → Distinct ids
    → contains (remove_member ids target) x ≡ (contains ids x && not (x == target))
unfolding remove_member
contains-remove_member ids target x d = contains-remove_first ids target x d

remove_first-Distinct :
    (ids : List ℕ) (target : ℕ) → Distinct ids → Distinct (remove_first false ids target)
unfolding remove_first
remove_first-Distinct [] target d = tt
remove_first-Distinct (id ∷ ids) target d = elim (Bool-cases (id == target)) [
  | inl found ↦ rw (found, remove_first-true ids target) d.1
  | inr other ↦ rw other (
    ground (arith, contains-remove_first ids target id d.1),
    remove_first-Distinct ids target d.1,
  )
]

pub remove_member-Distinct :
    (ids : List ℕ) (target : ℕ) → Distinct ids → Distinct (remove_member ids target)
unfolding remove_member
remove_member-Distinct ids target d = remove_first-Distinct ids target d

-- For a list without repetitions: after a merge the members are those of both lists, and those that were there keep their
-- places in front; deduplication keeps exactly the members of a list; and removing a member takes that one away and
-- leaves the others.
member_lists :
    (base ids : List ℕ) (target x : ℕ)
    → Distinct base
    → (contains (merge_members base ids) x ≡ (contains base x || contains ids x))
      × ((more : List ℕ) × (merge_members base ids ≡ base ++ more))
      × (contains (dedup_members ids) x ≡ contains ids x)
      × (contains (remove_member base target) x ≡ (contains base x && not (x == target)))
member_lists base ids target x d = (
  contains-merge_members base ids x,
  merge_members-append base ids,
  contains-dedup_members ids x,
  contains-remove_member base target x d,
)
