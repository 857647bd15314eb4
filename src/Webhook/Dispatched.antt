-- ===== src/Webhook/Dispatched.antt =====
-- What dispatch of internal/webhook/dispatcher.go makes of the table of deliveries.
use oad.Base.{
  ℕ, zero, suc, ◌+◌, ◌*◌, ◌^◌, ◌<◌, ◌≡◌, refl, ap, ◌∙◌, Bool, true, false, ◌&&◌, Option, none, some,
  List, [], ◌∷◌, All, arith, ltb, leb, ◌==◌, ==_refl, Bool-cases, inl, inr, if◌then◌else◌,
}
use oad.Webhook.{
  Status, pending, delivered, failed, Delivery, Subscription, second, backoff, backoff_time,
  outcome, retry_at, attempt, is_due, has_subscription, take_due, save, Answer, dispatch_each,
  dispatch,
}

-- No row has the id.
abbrev pub Unused : ℕ → List Delivery → Type 0
Unused id = All (λ (e : Delivery). (e.id == id) ≡ false)

-- The primary key of webhook_delivery.
abbrev pub DistinctIds : List Delivery → Type 0
DistinctIds [] = Unit
DistinctIds (d ∷ ds) = Unused d.id ds × DistinctIds ds

-- A row after a failed attempt: the next one is due 30 seconds later, doubled with each attempt before, and none is
-- after the fifth.
abbrev refused : Option ℕ → ℕ → Delivery → Delivery
refused response at d = record d {
  status = failed;
  attempts = suc d.attempts;
  next_retry_at = if ltb d.attempts 4 then some (at + 30 * second * 2 ^ d.attempts) else none;
  last_response_code = response;
}

abbrev accepted : ℕ → Delivery → Delivery
accepted code d = record d {
  status = delivered;
  attempts = suc d.attempts;
  next_retry_at = none;
  last_response_code = some code;
}

-- The receiver has accepted with a code from 200 to 299.
abbrev answered : Option ℕ → ℕ → Delivery → Delivery
answered none at d = refused none at d
answered (some code) at d =
    if leb 200 code && ltb code 300 then accepted code d else refused (some code) at d

-- A row after its attempt: as it was, if the update is not saved.
abbrev pub tried : Answer → Delivery → Delivery
tried answer d = if answer.saved then answered answer.response answer.at d else d

abbrev pub is_ready : ℕ → Status → Option ℕ → Bool
is_ready now pending retry = true
is_ready now delivered retry = false
is_ready now failed none = false
is_ready now failed (some t) = leb t now

-- A row that is to be sent now, to a subscription that is there.
abbrev pub is_next : ℕ → List Subscription → Delivery → Bool
is_next now ss d = is_ready now d.status d.next_retry_at && has_subscription d.subscription_id ss

-- Each of the first n rows that are to be sent has been tried, once.
unfoldable pub tried_first :
    (ℕ → Answer) → ℕ → ℕ → List Subscription → List Delivery → List Delivery
unfolding has_subscription
tried_first answers zero now ss ds = ds
tried_first answers (suc n) now ss [] = []
tried_first answers (suc n) now ss (d ∷ ds) =
    let passed = d ∷ tried_first answers (suc n) now ss ds in
    let taken = tried (answers d.id) d ∷ tried_first answers n now ss ds in
    if is_next now ss d then taken else passed

is_due-is_ready :
    (now : ℕ) (d : Delivery) (status : Status) (retry : Option ℕ)
    → d.status ≡ status
    → d.next_retry_at ≡ retry
    → is_due now d ≡ is_ready now status retry
unfolding is_due
is_due-is_ready now d pending retry e k = rw (is_due, e) refl
is_due-is_ready now d delivered retry e k = rw (is_due, e) refl
is_due-is_ready now d failed none e k = rw (is_due, e, k) refl
is_due-is_ready now d failed (some t) e k = rw (is_due, e, k) refl

backoff_time-exact : (now n : ℕ) → n < 4 → backoff_time now (suc n) ≡ now + 30 * second * 2 ^ n
unfolding backoff_time backoff
backoff_time-exact now zero h = refl
backoff_time-exact now (suc zero) h = refl
backoff_time-exact now (suc (suc zero)) h = refl
backoff_time-exact now (suc (suc (suc zero))) h = refl
backoff_time-exact now (suc (suc (suc (suc n)))) h = omega (arith, h)

retry_at-failed :
    (n at : ℕ)
    → retry_at failed (suc n) at ≡ (if ltb n 4 then some (at + 30 * second * 2 ^ n) else none)
unfolding retry_at
retry_at-failed n at = elim (Bool-cases (ltb n 4)) [
  | inl few ↦
      let more : ltb (suc n) 5 ≡ true = ground arith in
      let less : n < 4 = ground arith in rw (few, more) (ap some (backoff_time-exact at n less))
  | inr last ↦ let done : ltb (suc n) 5 ≡ false = ground arith in rw (last, done) refl
]

attempt-accepted :
    (code at : ℕ) (d : Delivery)
    → outcome (some code) ≡ delivered
    → attempt (some code) at d ≡ accepted code d
unfolding attempt retry_at
attempt-accepted code at d h = rw h refl

attempt-refused :
    (response : Option ℕ) (at : ℕ) (d : Delivery)
    → outcome response ≡ failed
    → attempt response at d ≡ refused response at d
unfolding attempt
attempt-refused response at d h = rw h (
    ap (λ retry. record (refused response at d) { next_retry_at = retry })
      (retry_at-failed d.attempts at))

attempt-answered :
    (response : Option ℕ) (at : ℕ) (d : Delivery) → attempt response at d ≡ answered response at d
unfolding outcome
attempt-answered none at d = attempt-refused none at d refl
attempt-answered (some code) at d = elim (Bool-cases (leb 200 code && ltb code 300)) [
  | inl success ↦ rw success (attempt-accepted code at d (rw success refl))
  | inr failure ↦ rw failure (attempt-refused (some code) at d (rw failure refl))
]

take_due-Unused :
    (id n now : ℕ) (ss : List Subscription) (ds : List Delivery)
    → Unused id ds
    → Unused id (take_due n now ss ds)
unfolding take_due
take_due-Unused id zero now ss ds u = tt
take_due-Unused id (suc n) now ss [] u = tt
take_due-Unused id (suc n) now ss (d ∷ ds) u =
    elim (Bool-cases (is_due now d && has_subscription d.subscription_id ss)) [
      | inl taken ↦ rw taken (u.0, take_due-Unused id n now ss ds u.1)
      | inr left ↦ rw left (take_due-Unused id (suc n) now ss ds u.1)
    ]

-- A row in front that no attempt is about stays there.
dispatch_each-skip :
    (answers : ℕ → Answer) (d : Delivery) (ds table : List Delivery)
    → Unused d.id ds
    → dispatch_each answers ds (d ∷ table) ≡ d ∷ dispatch_each answers ds table
unfolding dispatch_each save attempt
dispatch_each-skip answers d [] table u = refl
dispatch_each-skip answers d (e ∷ es) table u = elim (Bool-cases (answers e.id).saved) [
  | inl stored ↦
      let other : (d.id == e.id) ≡ false = ground arith in
      rw (stored, other) (dispatch_each-skip answers d es _ u.1)
  | inr lost ↦ rw lost (dispatch_each-skip answers d es table u.1)
]

dispatch_each-take_due :
    (answers : ℕ → Answer) (n now : ℕ) (ss : List Subscription) (ds : List Delivery)
    → DistinctIds ds
    → dispatch_each answers (take_due n now ss ds) ds ≡ tried_first answers n now ss ds
unfolding dispatch_each take_due tried_first save attempt
dispatch_each-take_due answers zero now ss ds u = refl
dispatch_each-take_due answers (suc n) now ss [] u = refl
dispatch_each-take_due answers (suc n) now ss (d ∷ ds) (u, v) =
    let same_test = is_due-is_ready now d d.status d.next_retry_at refl refl in
    elim (Bool-cases (is_next now ss d)) [
      | inr left ↦
          rw (same_test, left)
            (dispatch_each-skip answers d (take_due (suc n) now ss ds) ds
                (take_due-Unused d.id (suc n) now ss ds u)
              ∙ ap (λ es. d ∷ es) (dispatch_each-take_due answers (suc n) now ss ds v))
      | inl taken ↦ elim (Bool-cases (answers d.id).saved) [
        | inl stored ↦
            rw (same_test, taken, stored, ==_refl d.id)
              (dispatch_each-skip answers (attempt (answers d.id).response (answers d.id).at d)
                  (take_due n now ss ds) ds (take_due-Unused d.id n now ss ds u)
                ∙ ap (λ es. attempt (answers d.id).response (answers d.id).at d ∷ es)
                    (dispatch_each-take_due answers n now ss ds v)
                ∙ ap (λ (e : Delivery). e ∷ tried_first answers n now ss ds)
                    (attempt-answered (answers d.id).response (answers d.id).at d))
        | inr lost ↦
            rw (same_test, taken, lost)
              (dispatch_each-skip answers d (take_due n now ss ds) ds
                  (take_due-Unused d.id n now ss ds u)
                ∙ ap (λ es. d ∷ es) (dispatch_each-take_due answers n now ss ds v))
      ]
    ]

-- Where the ids are distinct, dispatch tries each of the first 50 rows that are pending, or failed with a retry that is
-- due, and whose subscription is shown, once and from what the row was, and leaves all else and the order of the rows
-- as it was. A code from 200 to 299 makes a row delivered; anything else makes it failed, to be retried 30 seconds
-- later, doubled with each attempt before, or never after the fifth. Of a row whose update is not saved nothing
-- changes: its attempt is not counted.
pub dispatch-tried_first :
    (answers : ℕ → Answer) (now : ℕ) (ss : List Subscription) (table : List Delivery)
    → DistinctIds table
    → dispatch answers now ss table ≡ tried_first answers 50 now ss table
unfolding dispatch
dispatch-tried_first answers now ss table u = dispatch_each-take_due answers 50 now ss table u
