-- ===== src/Table/Rows.antt =====
-- What appending, replacing and removing rows keeps of a table.
use oad.Base.{
  ℕ, ◌≡◌, refl, ◌∙◌, Bool, true, false, ◌||◌, some, List, [], ◌∷◌, ◌++◌, All, arith, ◌==◌,
  Bool-cases, inl, inr,
}
use oad.Table.{find_by_id, put_by_id, remove_by_id, has_clash}

-- No two rows have the same key.
abbrev pub NoDouble : {R : Type 0} → (R → R → Bool) → List R → Type 0
NoDouble clash [] = Unit
NoDouble clash (r ∷ rs) = (has_clash clash r rs ≡ false) × NoDouble clash rs

module _ {R : Type 0} (id_of : R → ℕ) (clash : R → R → Bool)
    (clash_comm : (r s : R) → clash r s ≡ clash s r) where
  has_clash-append :
      (r s : R) (rs : List R)
      → has_clash clash r rs ≡ false
      → clash s r ≡ false
      → has_clash clash r (rs ++ (s ∷ [])) ≡ false
  unfolding has_clash
  has_clash-append r s [] h k = rw k refl
  has_clash-append r s (q ∷ rs) h k = ground (arith, has_clash-append r s rs)

  pub NoDouble-append :
      (s : R) (rs : List R)
      → NoDouble clash rs
      → has_clash clash s rs ≡ false
      → NoDouble clash (rs ++ (s ∷ []))
  unfolding has_clash
  NoDouble-append s [] h k = (refl, tt)
  NoDouble-append s (r ∷ rs) h k =
      let k' : (clash r s || has_clash clash s rs) ≡ false = k in
      let differs : clash r s ≡ false = ground arith in
      let rest : has_clash clash s rs ≡ false = ground arith in
      (has_clash-append r s rs h.0 (clash_comm s r ∙ differs), NoDouble-append s rs h.1 rest)

  has_clash-remove :
      (r : R) (id : ℕ) (rs : List R)
      → has_clash clash r rs ≡ false
      → has_clash clash r (remove_by_id id_of id rs) ≡ false
  unfolding has_clash remove_by_id
  has_clash-remove r id [] h = refl
  has_clash-remove r id (q ∷ rs) h = elim (Bool-cases (clash q r)) [
    | inl e ↦ let w : true ≡ false = rw e at h in cc
    | inr e ↦ elim (Bool-cases (id_of q == id)) [
      | inl k ↦ rw k (rw e at h)
      | inr k ↦ rw (k, e) (has_clash-remove r id rs (rw e at h))
    ]
  ]

  pub NoDouble-remove :
      (id : ℕ) (rs : List R) → NoDouble clash rs → NoDouble clash (remove_by_id id_of id rs)
  unfolding remove_by_id
  NoDouble-remove id [] h = tt
  NoDouble-remove id (r ∷ rs) h = elim (Bool-cases (id_of r == id)) [
    | inl e ↦ rw e h.1
    | inr e ↦ rw e (has_clash-remove r id rs h.0, NoDouble-remove id rs h.1)
  ]

  -- A row that has the key of the row that it replaces.
  module _ (new old : R) (same_key : (r : R) → clash new r ≡ clash old r) where
    has_clash-put :
        (r : R) (rs : List R)
        → find_by_id id_of (id_of new) rs ≡ some old
        → has_clash clash r (put_by_id id_of new rs) ≡ has_clash clash r rs
    unfolding has_clash put_by_id find_by_id
    has_clash-put r [] h = cc
    has_clash-put r (q ∷ rs) h = elim (Bool-cases (id_of q == id_of new)) [
      | inl e ↦ let q' : q ≡ old = ground (arith, (rw e at h)) in rw e (rw (same_key r, q') refl)
      | inr e ↦ rw e (rw (has_clash-put r rs (rw e at h)) refl)
    ]

    has_clash-key : (rs : List R) → has_clash clash new rs ≡ has_clash clash old rs
    unfolding has_clash
    has_clash-key [] = refl
    has_clash-key (q ∷ rs) =
        rw (clash_comm q new, same_key q, clash_comm old q, has_clash-key rs) refl

    pub NoDouble-put :
        (rs : List R)
        → find_by_id id_of (id_of new) rs ≡ some old
        → NoDouble clash rs
        → NoDouble clash (put_by_id id_of new rs)
    unfolding put_by_id find_by_id
    NoDouble-put [] found h = tt
    NoDouble-put (q ∷ rs) found h = elim (Bool-cases (id_of q == id_of new)) [
      | inl e ↦
          let q' : q ≡ old = ground (arith, (rw e at found)) in
          rw e (has_clash-key rs ∙ rw (← q') h.0, h.1)
      | inr e ↦ rw e (has_clash-put q rs (rw e at found) ∙ h.0, NoDouble-put rs (rw e at found) h.1)
    ]

module _ {R : Type 0} (id_of : R → ℕ) (P : R → Type 0) where
  pub All-remove : (id : ℕ) (rs : List R) → All P rs → All P (remove_by_id id_of id rs)
  unfolding remove_by_id
  All-remove id [] h = tt
  All-remove id (r ∷ rs) h = elim (Bool-cases (id_of r == id)) [
    | inl e ↦ rw e h.1
    | inr e ↦ rw e (h.0, All-remove id rs h.1)
  ]

  pub All-put : (new : R) (rs : List R) → P new → All P rs → All P (put_by_id id_of new rs)
  unfolding put_by_id
  All-put new [] p h = tt
  All-put new (r ∷ rs) p h = elim (Bool-cases (id_of r == id_of new)) [
    | inl e ↦ rw e (p, h.1)
    | inr e ↦ rw e (h.0, All-put new rs p h.1)
  ]

module _ {R : Type 0} (id_of : R → ℕ) where
  pub find_by_id-append :
      (id : ℕ) (rs more : List R) (row : R)
      → find_by_id id_of id rs ≡ some row
      → find_by_id id_of id (rs ++ more) ≡ some row
  unfolding find_by_id
  find_by_id-append id [] more row h = cc
  find_by_id-append id (r ∷ rs) more row h = elim (Bool-cases (id_of r == id)) [
    | inl e ↦ rw e (rw e at h)
    | inr e ↦ rw e (find_by_id-append id rs more row (rw e at h))
  ]

  -- Other rows stay where one is replaced or removed.
  pub find_by_id-put :
      (id : ℕ) (new : R) (rs : List R)
      → (id_of new == id) ≡ false
      → find_by_id id_of id (put_by_id id_of new rs) ≡ find_by_id id_of id rs
  unfolding find_by_id put_by_id
  find_by_id-put id new [] h = refl
  find_by_id-put id new (r ∷ rs) h = elim (Bool-cases (id_of r == id_of new)) [
    | inl e ↦ let e' : (id_of r == id) ≡ false = ground arith in rw (e, h, e') refl
    | inr e ↦ rw e (rw (find_by_id-put id new rs h) refl)
  ]

  pub find_by_id-remove :
      (id other : ℕ) (rs : List R)
      → (other == id) ≡ false
      → find_by_id id_of id (remove_by_id id_of other rs) ≡ find_by_id id_of id rs
  unfolding find_by_id remove_by_id
  find_by_id-remove id other [] h = refl
  find_by_id-remove id other (r ∷ rs) h = elim (Bool-cases (id_of r == other)) [
    | inl e ↦ let e' : (id_of r == id) ≡ false = ground arith in rw (e, e') refl
    | inr e ↦ rw e (rw (find_by_id-remove id other rs h) refl)
  ]
