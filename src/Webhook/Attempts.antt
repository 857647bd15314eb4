-- ===== src/Webhook/Attempts.antt =====
-- What the status of a delivery says of its attempts (internal/webhook/dispatcher.go).
use oad.Base.{
  ℕ, zero, suc, ◌≤◌, ◌<◌, ◌≡◌, refl, Bool, true, false, ◌&&◌, Option, none, some, List, [], ◌∷◌,
  All, All-append, arith, ltb, ltb→lt, leb, ◌==◌, Bool-cases, inl, inr,
}
use oad.Webhook.{
  Status, pending, delivered, failed, Delivery, Subscription, AuditRow, outcome, retry_at, attempt,
  is_due, has_subscription, take_due, save, Answer, dispatch_each, dispatch, create_deliveries,
  undelivered, take, enqueue, cycle,
}

-- What the status says of the attempts: a delivery that failed for good has had all of them.
abbrev pub Fits : Status → ℕ → Option ℕ → Type 0
Fits pending n retry = (n ≡ 0) × (retry ≡ none)
Fits delivered n retry = (1 ≤ n) × (n ≤ 5) × (retry ≡ none)
Fits failed n none = n ≡ 5
Fits failed n (some t) = (1 ≤ n) × (n < 5)

abbrev pub IsConsistent : Delivery → Type 0
IsConsistent d = Fits d.status d.attempts d.next_retry_at

-- A delivery that is due has attempts left.
Fits-due :
    (status : Status) (n : ℕ) (retry : Option ℕ) (now : ℕ) (d : Delivery)
    → d.status ≡ status
    → d.next_retry_at ≡ retry
    → Fits status n retry
    → is_due now d ≡ true
    → n < 5
unfolding is_due
Fits-due pending n retry now d e e' f due = omega (arith, f.0)
Fits-due delivered n retry now d e e' f due =
    let undue : is_due now d ≡ false = rw (is_due, e) refl in cc
Fits-due failed n none now d e e' f due =
    let undue : is_due now d ≡ false = rw (is_due, e, e') refl in cc
Fits-due failed n (some t) now d e e' f due = f.1

IsConsistent-due : (now : ℕ) (d : Delivery) → IsConsistent d → is_due now d ≡ true → d.attempts < 5
IsConsistent-due now d c due = Fits-due d.status d.attempts d.next_retry_at now d refl refl c due

ltb-false : (a b : ℕ) → ltb a b ≡ false → b ≤ a
ltb-false a b h = ground arith

exhausted : (n : ℕ) → n < 5 → ltb (suc n) 5 ≡ false → suc n ≡ 5
exhausted n h last = let bound = ltb-false (suc n) 5 last in omega arith

Fits-outcome :
    (response : Option ℕ) (n now : ℕ)
    → n < 5
    → Fits (outcome response) (suc n) (retry_at (outcome response) (suc n) now)
unfolding outcome retry_at
Fits-outcome none n now h = elim (Bool-cases (ltb (suc n) 5)) [
  | inl more ↦ rw more (omega arith, ltb→lt (suc n) 5 more)
  | inr last ↦ rw last (exhausted n h last)
]
Fits-outcome (some code) n now h = elim (Bool-cases (leb 200 code && ltb code 300)) [
  | inl success ↦ rw success (omega arith, omega arith, refl)
  | inr failure ↦ elim (Bool-cases (ltb (suc n) 5)) [
    | inl more ↦ rw (failure, more) (omega arith, ltb→lt (suc n) 5 more)
    | inr last ↦ rw (failure, last) (exhausted n h last)
  ]
]

attempt-IsConsistent :
    (response : Option ℕ) (now : ℕ) (d : Delivery)
    → d.attempts < 5
    → IsConsistent (attempt response now d)
unfolding attempt
attempt-IsConsistent response now d h = Fits-outcome response d.attempts now h

-- Rows that may be attempted.
abbrev AllReady : List Delivery → Type 0
AllReady = All (λ d. d.attempts < 5)

take_due-Ready :
    (n now : ℕ) (ss : List Subscription) (ds : List Delivery)
    → All IsConsistent ds
    → AllReady (take_due n now ss ds)
unfolding take_due
take_due-Ready zero now ss ds c = tt
take_due-Ready (suc n) now ss [] c = tt
take_due-Ready (suc n) now ss (d ∷ ds) c =
    elim (Bool-cases (is_due now d && has_subscription d.subscription_id ss)) [
      | inl taken ↦
          let due : is_due now d ≡ true = ground arith in
          rw taken (IsConsistent-due now d c.0 due, take_due-Ready n now ss ds c.1)
      | inr left ↦ rw left (take_due-Ready (suc n) now ss ds c.1)
    ]

save-All :
    (d : Delivery) (es : List Delivery)
    → IsConsistent d
    → All IsConsistent es
    → All IsConsistent (save d es)
unfolding save
save-All d [] h c = tt
save-All d (e ∷ es) h c = elim (Bool-cases (e.id == d.id)) [
  | inl found ↦ rw found (h, c.1)
  | inr other ↦ rw other (c.0, save-All d es h c.1)
]

dispatch_each-All :
    (answers : ℕ → Answer) (ds table : List Delivery)
    → AllReady ds
    → All IsConsistent table
    → All IsConsistent (dispatch_each answers ds table)
unfolding dispatch_each
dispatch_each-All answers [] table r c = c
dispatch_each-All answers (d ∷ ds) table r c = elim (Bool-cases (answers d.id).saved) [
  | inl stored ↦ rw stored (
      dispatch_each-All answers ds _ r.1
        (save-All _ table (attempt-IsConsistent (answers d.id).response (answers d.id).at d r.0) c))
  | inr skipped ↦ rw skipped (dispatch_each-All answers ds table r.1 c)
]

create_deliveries-All :
    (next : ℕ) (ps : List (ℕ × ℕ)) → All IsConsistent (create_deliveries next ps)
unfolding create_deliveries
create_deliveries-All next [] = tt
create_deliveries-All next ((audit, sub) ∷ ps) = ((refl, refl), create_deliveries-All (suc next) ps)

enqueue-All :
    (fails : Bool) (now next : ℕ) (rows : List AuditRow) (ss : List Subscription)
    (ds : List Delivery)
    → All IsConsistent ds
    → All IsConsistent (enqueue fails now next rows ss ds)
unfolding enqueue
enqueue-All true now next rows ss ds c = c
enqueue-All false now next rows ss ds c =
    All-append IsConsistent ds _ c
      (create_deliveries-All next (take 100 (undelivered now rows ss ds)))

-- A cycle keeps the table consistent, whatever the receivers answer and whatever fails: no delivery
-- counts more than five attempts, one that has succeeded or has had five is not to be retried, and every other one is.
pub cycle-IsConsistent :
    (fails : Bool) (answers : ℕ → Answer) (now next : ℕ) (rows : List AuditRow)
    (ss : List Subscription) (ds : List Delivery)
    → All IsConsistent ds
    → All IsConsistent (cycle fails answers now next rows ss ds)
unfolding cycle dispatch
cycle-IsConsistent fails answers now next rows ss ds c =
    let table = enqueue fails now next rows ss ds in
    let consistent = enqueue-All fails now next rows ss ds c in
    dispatch_each-All answers (take_due 50 now ss table) table
      (take_due-Ready 50 now ss table consistent) consistent
