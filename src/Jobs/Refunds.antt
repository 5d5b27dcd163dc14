-- ===== src/Jobs/Refunds.antt =====
-- jobs/provider-sync.ts: submitPendingRefunds, with settle and scheduleRetry.
pub mod Attempts
use kaktus.Base.{
  ℕ, suc, ◌+◌, ◌*◌, ◌^◌, min, Bool, true, false, ◌&&◌, not, Option, none, some, List, [], ltb, leb,
  ◌==◌, Result, ok, err, any, select, update_where, take, if◌then◌else◌,
}
use kaktus.Database.{
  Refund, RefundStatus, Store, Tx, ⊤, ◌>>=◌, ◌>>◌, throw_if, gets, modify, ServiceError, not_found,
  provider_rejected,
}
use kaktus.Services.Run.{Run, in_transaction, and_then, return}
use kaktus.Services.Milestones.{JobResult, empty_result, sweep, skips_none}

-- ProviderActionResult of a refund, or that the call throws.
pub data RefundOutcome : Type 0 where
  refunded : Option ℕ → RefundOutcome
  retryable permanent unreachable : RefundOutcome

abbrev pub max_attempts : ℕ
max_attempts = 6

abbrev pub is_pending : RefundStatus → Bool
is_pending RefundStatus.pending = true
is_pending _ = false

abbrev pub is_due : ℕ → Refund → Bool
is_due now r = is_pending r.status && leb r.next_attempt_at now && ltb r.attempts max_attempts

abbrev pub due_refunds : ℕ → Store → List Refund
due_refunds now s = take 50 (select (is_due now) s.refunds)

unfoldable pub update_refund : ℕ → (Refund → Refund) → Tx ⊤
update_refund id change = do
  rows ← gets (λ s. s.refunds)
  throw_if (not (any (λ (r : Refund). r.id == id) rows)) not_found
  modify λ s. record s { refunds = update_where (λ r. r.id == id) change s.refunds }

abbrev pub mark_submitted : Refund → Refund
mark_submitted r = record r { attempts = suc r.attempts; status = RefundStatus.submitted }

abbrev pub mark_settled : Option ℕ → Refund → Refund
mark_settled ref r = record r { status = RefundStatus.settled; provider_ref = ref }

abbrev pub mark_failed : Refund → Refund
mark_failed r = record r { status = RefundStatus.failed }

-- Exponential backoff, capped at six hours.
unfoldable pub delay_minutes : ℕ → ℕ
delay_minutes attempts = min (2 ^ attempts * 5) (6 * 60)

abbrev pub mark_retry : ℕ → ℕ → Refund → Refund
mark_retry attempts now r = record r {
  status = if leb max_attempts attempts then RefundStatus.failed else RefundStatus.pending;
  next_attempt_at = now + delay_minutes attempts * 60000;
}

unfoldable pub settle : ℕ → Option ℕ → Run Bool
settle id ref = and_then (in_transaction (update_refund id (mark_settled ref))) λ _. return true

-- The retry is written and the row counts as failed.
unfoldable pub schedule_retry : ℕ → ℕ → ℕ → Run Bool
schedule_retry id attempts now =
    and_then (in_transaction (update_refund id (mark_retry attempts now)))
      λ _ s. (s, err provider_rejected)

unfoldable pub note_refund : ℕ → Refund → RefundOutcome → Run Bool
note_refund now r (refunded ref) s = settle r.id ref s
note_refund now r retryable s = schedule_retry r.id (r.attempts + 1) now s
note_refund now r permanent s =
    and_then (in_transaction (update_refund r.id mark_failed)) (λ _ t. (t, err provider_rejected)) s
note_refund now r unreachable s = schedule_retry r.id (r.attempts + 1) now s

-- The handle of the item at the provider: without one there is nothing to send.
unfoldable pub send_refund : (Refund → RefundOutcome) → ℕ → Refund → Option ℕ → Run Bool
send_refund answer now r none s = settle r.id none s
send_refund answer now r (some item) s = note_refund now r (answer r) s

-- `answer` is what the provider answers to the refund of a row; the row has the count of attempts,
-- so two attempts may be answered differently.
unfoldable pub submit_refund : (Refund → RefundOutcome) → ℕ → Refund → Run Bool
submit_refund answer now r =
    and_then (in_transaction (update_refund r.id mark_submitted))
      λ _. send_refund answer now r r.payment_transaction_id

unfoldable pub submit_pending_refunds : (Refund → RefundOutcome) → ℕ → Store → Store × JobResult
submit_pending_refunds answer now s =
    sweep skips_none (submit_refund answer now) (due_refunds now s) empty_result s
