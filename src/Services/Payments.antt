-- ===== src/Services/Payments.antt =====
-- server/services/payment-service.ts: reconcileCheckout, the single way to PAID_IN_ESCROW. What the
-- payment provider answers (lib/payments/provider.ts) is a parameter.
pub mod Checkout
pub mod Capture
mod Tests
use kaktus.Base.{
  ℕ, Bool, true, false, ◌&&◌, ◌||◌, not, Option, none, some, List, [], ◌∷◌, map, ◌==◌, Result, ok,
  err, any, find, update_where,
}
use kaktus.Base.Sums.{sum}
use kaktus.Offers.StateMachine.{TransitionCode, illegal_transition, system, payment_captured}
use kaktus.Payments.Ledger.{has_id}
use kaktus.Database.{
  Milestone, Payment, PaymentStatus, Store, Tx, ⊤, ◌>>=◌, ◌>>◌, pure, throw_if, gets, modify,
  for_each, or_throw, ServiceError, not_found, concurrent_modification, illegal, unknown_token,
  amount_mismatch, offer_not_payable, is_captured,
}
use kaktus.Services.Run.{Run, in_transaction, and_then, return}
use kaktus.Services.Offers.{TransitionRequest, transition_offer}

-- ItemTransaction
pub record ItemTransaction : Type 0 where
  pub item_id : ℕ
  pub payment_transaction_id : ℕ
  pub price_minor : ℕ

-- The CAPTURED member of CheckoutRetrieveResult.
pub record Captured : Type 0 where
  pub payment_id : ℕ
  pub paid_price_minor : ℕ
  pub item_transactions : List ItemTransaction

pub data CheckoutRetrieveResult : Type 0 where
  captured : Captured → CheckoutRetrieveResult
  pending failed : CheckoutRetrieveResult

pub data Outcome : Type 0 where
  captured pending failed already_processed : Outcome

pub record ReconcileResult : Type 0 where
  pub outcome : Outcome
  pub offer_id : Option ℕ
  pub payment_id : Option ℕ

-- assertAmountsMatch, as the test that throws.
unfoldable pub amounts_differ : Captured → ℕ → Bool
amounts_differ r expected =
    not (r.paid_price_minor == expected)
    || not (sum (map (λ (t : ItemTransaction). t.price_minor) r.item_transactions) == expected)

-- `payment.update` by id, which throws where there is no such row.
unfoldable pub update_payment : ℕ → (Payment → Payment) → Tx ⊤
update_payment id change = do
  rows ← gets (λ s. s.payments)
  throw_if (not (any (λ (p : Payment). p.id == id) rows)) not_found
  modify λ s. record s { payments = update_where (λ p. p.id == id) change s.payments }

-- Each basket item goes back onto its milestone.
unfoldable pub map_item : ItemTransaction → Tx ⊤
map_item item = modify λ s. record s {
  milestones =
      update_where (λ (m : Milestone). m.id == item.item_id)
        (λ m. record m { provider_transaction_id = some item.payment_transaction_id }) s.milestones;
}

abbrev pub mark_captured : ℕ → Payment → Payment
mark_captured ref p = record p { status = PaymentStatus.captured; provider_ref = some ref }

-- `if (fresh.status === 'CAPTURED') return`: another caller won.
unfoldable pub record_capture : Captured → Payment → Tx ⊤
record_capture r fresh = elim (is_captured fresh.status) [
  | true ↦ pure tt
  | false ↦
      update_payment fresh.id (mark_captured r.payment_id) >> for_each map_item r.item_transactions
]

abbrev pub payment_by_id : ℕ → Store → Option Payment
payment_by_id id s = find (λ (p : Payment). p.id == id) s.payments

unfoldable pub capture_transaction : Captured → ℕ → Tx ⊤
capture_transaction r id s =
    (or_throw (payment_by_id id s) not_found >>= λ fresh. record_capture r fresh) s

abbrev pub capture_request : ℕ → TransitionRequest
capture_request offer = record {
  offer_id = offer;
  event = payment_captured;
  actor = system;
  actor_profile_id = none;
  expected_status = none;
  superseded_by_offer_id = none;
}

-- 'modified concurrently' and 'No transition' are swallowed, every other error is thrown again.
unfoldable pub is_swallowed : ServiceError → Bool
is_swallowed concurrent_modification = true
is_swallowed (illegal illegal_transition) = true
is_swallowed _ = false

unfoldable pub swallow :
    {A : Type 0} → Store × Result ServiceError A → Store × Result ServiceError ⊤
swallow (s, ok _) = (s, ok tt)
swallow (s, err e) = elim (is_swallowed e) [ true ↦ (s, ok tt) | false ↦ (s, err e) ]

unfoldable pub move_offer : ℕ → ℕ → Run ⊤
move_offer offer now s = swallow (in_transaction (transition_offer (capture_request offer) now) s)

abbrev pub reconciled : Outcome → Payment → Option ℕ → ReconcileResult
reconciled o p id = record { outcome = o; offer_id = p.offer_id; payment_id = id }

unfoldable pub capture : Captured → Payment → Option ℕ → ℕ → Run ReconcileResult
capture r p none now = λ s. (s, err offer_not_payable)
capture r p (some offer) now =
    and_then (in_transaction (capture_transaction r p.id))
      λ _. and_then (move_offer offer now) λ _. return (reconciled captured p (some p.id))

unfoldable pub apply_answer : CheckoutRetrieveResult → Payment → ℕ → Run ReconcileResult
apply_answer pending p now s = (s, ok (reconciled pending p none))
apply_answer failed p now s =
    and_then
      (in_transaction (update_payment p.id (λ x. record x { status = PaymentStatus.failed })))
      (λ _. return (reconciled failed p none)) s
apply_answer (captured r) p now s = elim (amounts_differ r p.amount_minor) [
  | true ↦ (s, err amount_mismatch)
  | false ↦ capture r p p.offer_id now s
]

-- `retrieve` is what the provider answers to a token.
unfoldable pub reconcile_found :
    (ℕ → CheckoutRetrieveResult) → ℕ → Option Payment → ℕ → Run ReconcileResult
reconcile_found retrieve token none now s = (s, err unknown_token)
reconcile_found retrieve token (some p) now s = elim (is_captured p.status) [
  | true ↦ (s, ok (reconciled already_processed p (some p.id)))
  | false ↦ apply_answer (retrieve token) p now s
]

abbrev pub payment_by_token : ℕ → Store → Option Payment
payment_by_token token s = find (λ (p : Payment). has_id token p.token) s.payments

unfoldable pub reconcile_checkout : (ℕ → CheckoutRetrieveResult) → ℕ → ℕ → Run ReconcileResult
reconcile_checkout retrieve token now s =
    reconcile_found retrieve token (payment_by_token token s) now s
