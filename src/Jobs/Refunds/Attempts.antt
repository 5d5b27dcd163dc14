-- ===== src/Jobs/Refunds/Attempts.antt =====
-- jobs/provider-sync.ts: what one try of a refund leaves, and how many there are.
use kaktus.Base.{
  ℕ, suc, ◌+◌, ◌-◌, ◌*◌, ◌^◌, ◌≤◌, ◌<◌, min, Bool, true, Bool-cases, inl, inr, ◌⊎◌, leb, Option,
  none, some, ◌≡◌, refl, sym, ap, ◌∙◌, arith, ◌==◌, ==_refl, ==→eq, ok, err, any-find, find,
  find-holds, find-update_where, update_where, if◌then◌else◌,
}
use mathlib.Core.Path.{subst}
use native.Mathlib.Nat.{one-le-pow}
use kaktus.Database.{Refund, RefundStatus, Store, provider_rejected}
use kaktus.Services.Run.{in_transaction, and_then, and_then-store}
use kaktus.Jobs.Refunds.{
  RefundOutcome, refunded, retryable, permanent, unreachable, max_attempts, is_pending, is_due,
  update_refund, mark_submitted, mark_settled, mark_failed, mark_retry, delay_minutes, settle,
  schedule_retry, note_refund, send_refund, submit_refund,
}

-- How often a refund will still be tried at most.
abbrev tries_left : Refund → ℕ
tries_left r = if is_pending r.status then max_attempts - r.attempts else 0

abbrev pub refund_by_id : ℕ → Store → Option Refund
refund_by_id id s = find (λ (r : Refund). r.id == id) s.refunds

update_refund-eq :
    (id : ℕ) (change : Refund → Refund) (s : Store) {r : Refund}
    → refund_by_id id s ≡ some r
    → in_transaction (update_refund id change) s
      ≡ (record s { refunds = update_where (λ (x : Refund). x.id == id) change s.refunds }, ok tt)
unfolding update_refund in_transaction
update_refund-eq id change s h = rw (any-find (λ (x : Refund). x.id == id) s.refunds h) refl

-- A row that a write changes is found again, changed.
update_refund-find :
    (id : ℕ) (change : Refund → Refund) (s : Store) {r : Refund}
    → refund_by_id id s ≡ some r
    → (r.id == id) ≡ true
    → ((x : Refund) → (change x).id ≡ x.id)
    → refund_by_id id (in_transaction (update_refund id change) s).0 ≡ some (change r)
update_refund-find id change s {r} h hit same = rw (update_refund-eq id change s h) (
    find-update_where (λ (x : Refund). x.id == id) change (λ (x : Refund). x.id == id) s.refunds
      (λ x. ap (λ n. n == id) (same x)) hit h)

tries_left-bound : (r : Refund) → tries_left r ≤ 6
tries_left-bound r = ground arith

-- What a try makes of its row.
abbrev tried : Option ℕ → RefundOutcome → ℕ → Refund → Refund
tried none o now r = mark_settled none (mark_submitted r)
tried (some item) (refunded ref) now r = mark_settled ref (mark_submitted r)
tried (some item) retryable now r = mark_retry (r.attempts + 1) now (mark_submitted r)
tried (some item) permanent now r = mark_failed (mark_submitted r)
tried (some item) unreachable now r = mark_retry (r.attempts + 1) now (mark_submitted r)

module _ (r : Refund) (s : Store) (sent : refund_by_id r.id s ≡ some (mark_submitted r)) where
  written :
      (change : Refund → Refund)
      → ((x : Refund) → (change x).id ≡ x.id)
      → refund_by_id r.id (in_transaction (update_refund r.id change) s).0
        ≡ some (change (mark_submitted r))
  written change same = update_refund-find r.id change s sent (==_refl r.id) same

  settle-find :
      (ref : Option ℕ)
      → refund_by_id r.id (settle r.id ref s).0 ≡ some (mark_settled ref (mark_submitted r))
  unfolding settle
  settle-find ref =
      ap (refund_by_id r.id) (and_then-store (in_transaction (update_refund r.id _)) (ok true) s)
      ∙ written (mark_settled ref) (λ x. refl)

  schedule_retry-find :
      (attempts now : ℕ)
      → refund_by_id r.id (schedule_retry r.id attempts now s).0
        ≡ some (mark_retry attempts now (mark_submitted r))
  unfolding schedule_retry
  schedule_retry-find attempts now =
      ap (refund_by_id r.id) (
        and_then-store {B = Bool} (in_transaction (update_refund r.id _)) (err provider_rejected) s)
      ∙ written (mark_retry attempts now) (λ x. refl)

  note_refund-find :
      (now item : ℕ) (o : RefundOutcome)
      → refund_by_id r.id (note_refund now r o s).0 ≡ some (tried (some item) o now r)
  unfolding note_refund
  note_refund-find now item (refunded ref) = settle-find ref
  note_refund-find now item retryable = schedule_retry-find (r.attempts + 1) now
  note_refund-find now item permanent =
      ap (refund_by_id r.id) (
        and_then-store {B = Bool} (in_transaction (update_refund r.id mark_failed))
          (err provider_rejected) s)
      ∙ written mark_failed (λ x. refl)
  note_refund-find now item unreachable = schedule_retry-find (r.attempts + 1) now

  send_refund-find :
      (answer : Refund → RefundOutcome) (now : ℕ) (item : Option ℕ)
      → refund_by_id r.id (send_refund answer now r item s).0 ≡ some (tried item (answer r) now r)
  unfolding send_refund
  send_refund-find answer now none = settle-find none
  send_refund-find answer now (some item) = note_refund-find now item (answer r)

submit_refund-find :
    (answer : Refund → RefundOutcome) (now : ℕ) (r : Refund) (s : Store)
    → refund_by_id r.id s ≡ some r
    → refund_by_id r.id (submit_refund answer now r s).0
      ≡ some (tried r.payment_transaction_id (answer r) now r)
unfolding submit_refund and_then
submit_refund-find answer now r s h =
    let sent = update_refund-find r.id mark_submitted s h (==_refl r.id) (λ x. refl) in
    let eq = update_refund-eq r.id mark_submitted s h in
    rw eq (send_refund-find r _ (rw eq at sent) answer now r.payment_transaction_id)

capped : (n : ℕ) → 1 ≤ n → (5 ≤ min (n * 5) 360) × (min (n * 5) 360 ≤ 360)
capped n one = (omega arith, omega arith)

delay_bounds : (attempts : ℕ) → (5 ≤ delay_minutes attempts) × (delay_minutes attempts ≤ 360)
unfolding delay_minutes
delay_bounds attempts = capped (2 ^ attempts) (one-le-pow attempts 2 (omega arith))

tried-fewer :
    (item : Option ℕ) (o : RefundOutcome) (now : ℕ) (r : Refund)
    → is_due now r ≡ true
    → tries_left (tried item o now r) < tries_left r
tried-fewer none o now r due = ground arith
tried-fewer (some item) (refunded ref) now r due = ground arith
tried-fewer (some item) retryable now r due = ground arith
tried-fewer (some item) permanent now r due = ground arith
tried-fewer (some item) unreachable now r due = ground arith

-- A row after a try that could not go through: given up at the sixth, else to be tried again.
abbrev pub IsPutOff : ℕ → ℕ → Refund → Type 0
IsPutOff attempts now r =
    (r.attempts ≡ attempts)
    × (((6 ≤ attempts) × (r.status ≡ RefundStatus.failed))
        ⊎ ((attempts < 6)
            × (r.status ≡ RefundStatus.pending)
            × (now + 5 * 60000 ≤ r.next_attempt_at)
            × (r.next_attempt_at ≤ now + 360 * 60000)))

-- What the provider's answer means for the row, by the handle of the item and the attempts made.
abbrev pub IsTried : Option ℕ → RefundOutcome → ℕ → ℕ → Refund → Type 0
IsTried none o attempts now r = (r.status ≡ RefundStatus.settled) × (r.provider_ref ≡ none)
IsTried (some item) (refunded ref) attempts now r =
    (r.status ≡ RefundStatus.settled) × (r.provider_ref ≡ ref)
IsTried (some item) retryable attempts now r = IsPutOff attempts now r
IsTried (some item) permanent attempts now r = r.status ≡ RefundStatus.failed
IsTried (some item) unreachable attempts now r = IsPutOff attempts now r

retry-IsPutOff :
    (now : ℕ) (r : Refund)
    → IsPutOff (r.attempts + 1) now (mark_retry (r.attempts + 1) now (mark_submitted r))
retry-IsPutOff now r =
    let (low, high) = delay_bounds (r.attempts + 1) in
    elim (Bool-cases (leb max_attempts (r.attempts + 1))) [
      | inl spent ↦ (omega arith, inl (ground arith, rw spent refl))
      | inr left ↦ (omega arith, inr (ground arith, rw left refl, omega arith, omega arith))
    ]

tried-IsTried :
    (item : Option ℕ) (o : RefundOutcome) (now : ℕ) (r : Refund)
    → IsTried item o (r.attempts + 1) now (tried item o now r)
tried-IsTried none o now r = (refl, refl)
tried-IsTried (some item) (refunded ref) now r = (refl, refl)
tried-IsTried (some item) retryable now r = retry-IsPutOff now r
tried-IsTried (some item) permanent now r = refl
tried-IsTried (some item) unreachable now r = retry-IsPutOff now r

-- Tries of one refund, one after another, each at a time when it is due.
pub data Tries (answer : Refund → RefundOutcome) (id : ℕ) : ℕ → Store → Store → Type 0 where
  done : {s : Store} → Tries answer id 0 s s
  again :
      {n : ℕ} {s t : Store} {r : Refund} (now : ℕ)
      → refund_by_id id s ≡ some r
      → is_due now r ≡ true
      → Tries answer id n (submit_refund answer now r s).0 t
      → Tries answer id (suc n) s t

-- A try of a refund leaves its row as the provider's answer says: settled with the reference that a
-- refund answers, or without one where there is no item to refund; failed after a permanent
-- refusal; and after any other, or a call that throws, failed if six attempts are made, else pending
-- again in five minutes to six hours.
pub submit_refund-IsTried :
    (answer : Refund → RefundOutcome) (now : ℕ) (r : Refund) (s : Store)
    → refund_by_id r.id s ≡ some r
    → (r' : Refund) × (refund_by_id r.id (submit_refund answer now r s).0 ≡ some r')
      × IsTried r.payment_transaction_id (answer r) (r.attempts + 1) now r'
submit_refund-IsTried answer now r s h = (
  _,
  submit_refund-find answer now r s h,
  tried-IsTried r.payment_transaction_id (answer r) now r,
)

Tries-fit :
    (answer : Refund → RefundOutcome) (id : ℕ) {n : ℕ} {s t : Store} (r : Refund)
    → Tries answer id n s t
    → refund_by_id id s ≡ some r
    → n ≤ tries_left r
Tries-fit answer id r done h = omega arith
Tries-fit answer id r (again {s = s} {r = x} now found due rest) h =
    let same : x ≡ r = cc (sym found ∙ h) in
    let hit : x.id ≡ id = ==→eq x.id id (find-holds (λ (y : Refund). y.id == id) s.refunds found) in
    let row =
      submit_refund-find answer now x s (subst (λ j. refund_by_id j s ≡ some x) (sym hit) found) in
    let after = tried x.payment_transaction_id (answer x) now x in
    let fits =
      Tries-fit answer id after rest
        (subst (λ j. refund_by_id j (submit_refund answer now x s).0 ≡ some after) hit row) in
    let fewer = tried-fewer x.payment_transaction_id (answer x) now x due in
    rw (← same) (omega arith)

-- However long the job runs and however the provider answers, a refund is tried at most six times.
pub refund-Tries_bounded :
    (answer : Refund → RefundOutcome) (id : ℕ) {n : ℕ} {s t : Store} (r : Refund)
    → refund_by_id id s ≡ some r
    → Tries answer id n s t
    → n ≤ 6
refund-Tries_bounded answer id r h tries =
    let fits = Tries-fit answer id r tries h in let six = tries_left-bound r in omega arith
