-- ===== src/Services/Payments/Tests.antt =====
-- An accepted offer of two months, 1500 in all; the provider answers with tokens of its own.
use kaktus.Base.{ℕ, false, none, some, [], ◌∷◌, ◌≡◌, refl, map, Result, ok, err, ◌+◌}
use kaktus.Base.Sums.{sum}
use kaktus.Offers.StateMachine.{
  accepted, expired, paid_in_escrow, OfferStatus, transition, terminal_state, transitions,
  index_get,
}
use kaktus.Database.{
  EngagementStatus, MilestoneStatus, Payment, PaymentStatus, Store, ServiceError, illegal,
}
use kaktus.Services.Run.{in_transaction, and_then}
use kaktus.Services.Samples.{engaged, month}
use kaktus.Services.Offers.{
  transition_offer, plan_transition, plan_found, plan_of, build_context, is_initiator,
}
use kaktus.Services.Payments.{
  CheckoutRetrieveResult, Captured, captured, reconcile_checkout, reconcile_found, apply_answer,
  capture, capture_transaction, record_capture, update_payment, map_item, mark_captured,
  amounts_differ, capture_request, payment_by_token, is_swallowed, reconciled, already_processed,
  ItemTransaction, move_offer, swallow,
}
use kaktus.Services.Payments.Checkout.{
  CheckoutInitInput, CheckoutInitResult, StartCheckoutResult, initialized, failed, start_checkout,
  ensure_milestones,
}
use kaktus.Services.Payments.Checkout
use kaktus.Services.Payments.Capture.{capture-Verified, stuck_capture}

abbrev payment : Payment
payment = record {
  id = 8;
  offer_id = some 1;
  amount_minor = 1500;
  status = PaymentStatus.requires_action;
  token = some 30;
  idempotency_key = (1, 1);
  provider_ref = none;
  created_at = 0;
}

-- A checkout is open; the offer's status is an argument.
abbrev waiting : OfferStatus → Store
waiting status = record (engaged status EngagementStatus.pending_payment [] []) {
  payments = payment ∷ [];
  ledger_entries = [];
  next_id = 10;
}

abbrev answer : Captured
answer = record {
  payment_id = 90;
  paid_price_minor = 1500;
  item_transactions =
      record { item_id = 3; payment_transaction_id = 91; price_minor = 1000 }
      ∷ record { item_id = 4; payment_transaction_id = 92; price_minor = 500 }
      ∷ [];
}

abbrev provider : ℕ → CheckoutRetrieveResult
provider _ = captured answer

abbrev tokens : ℕ → CheckoutInitInput → CheckoutInitResult
tokens n _ = initialized (40 + n)

abbrev recorded : Store
recorded = record (waiting expired) { payments = mark_captured 90 payment ∷ [] }

records : capture_transaction answer 8 (waiting expired) ≡ ok (tt, recorded)
unfolding capture_transaction record_capture update_payment map_item
records = refl

-- The offer ran out while the student paid.
refuses : transition_offer (capture_request 1) 50 recorded ≡ err (illegal terminal_state)
unfolding transition_offer plan_transition plan_found plan_of build_context is_initiator transition
refuses = refl

loud : is_swallowed (illegal terminal_state) ≡ false
unfolding is_swallowed
loud = refl

agrees : amounts_differ answer 1500 ≡ false
unfolding amounts_differ
agrees = refl

stuck_capture_example :
    (reconcile_checkout provider 30 50 (waiting expired) ≡ (recorded, err (illegal terminal_state)))
    × ((retrieve : ℕ → CheckoutRetrieveResult) (later : ℕ)
        → reconcile_checkout retrieve 30 later recorded
          ≡ (recorded, ok (reconciled already_processed (mark_captured 90 payment) (some 8))))
stuck_capture_example =
    stuck_capture provider 30 50 (waiting expired) refl refl refl refl agrees refl records refuses
      loud

abbrev reopened : Store
reopened = record (waiting accepted) {
  milestones =
      month 3 0 1000 MilestoneStatus.scheduled ∷ month 4 1 500 MilestoneStatus.scheduled ∷ [];
}

abbrev second_call : Store × Result ServiceError StartCheckoutResult
second_call = start_checkout tokens 1 50 50 reopened

captures : reconcile_checkout provider 30 50 (waiting paid_in_escrow) ≡ (
  record (waiting paid_in_escrow) { payments = mark_captured 90 payment ∷ [] },
  ok (reconciled captured payment (some 8)),
)
unfolding reconcile_checkout reconcile_found apply_answer amounts_differ capture capture_transaction
    record_capture update_payment map_item move_offer swallow is_swallowed in_transaction and_then
    transition_offer plan_transition plan_found plan_of build_context is_initiator transition
    transitions index_get
captures = refl

capture-Verified_example :
    (p : Payment) × (payment_by_token 30 (waiting paid_in_escrow) ≡ some p)
    × ((c : Captured) × (provider 30 ≡ captured c)
        × (c.paid_price_minor ≡ p.amount_minor)
        × (sum (map (λ (t : ItemTransaction). t.price_minor) c.item_transactions) ≡ p.amount_minor))
capture-Verified_example = capture-Verified provider 30 50 (waiting paid_in_escrow) captures refl
