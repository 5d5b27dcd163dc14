-- ===== src/Jobs/Sweeps.antt =====
-- jobs/workers.ts and jobs/provider-sync.ts: the sweeps over offers, checkouts and released
-- milestones.
use kaktus.Base.{
  ℕ, ◌*◌, ◌+◌, Bool, true, false, ◌&&◌, ◌||◌, not, Option, none, some, List, ltb, leb, ◌==◌, ok,
  err, any, select, take,
}
use kaktus.Offers.StateMachine.{
  OfferStatus, offered, countered, accepted, paid_in_escrow, same_status, OfferEventName, expire,
  engagement_started, system, guard_failed,
}
use kaktus.Payments.Ledger.{update_milestone}
use kaktus.Database.{
  Offer, Engagement, Milestone, MilestoneStatus, Payment, PaymentStatus, Store, ServiceError,
  illegal, provider_rejected, is_live, is_captured,
}
use kaktus.Services.Run.{Run, in_transaction, and_then, return}
use kaktus.Services.Offers.{TransitionRequest, transition_offer}
use kaktus.Services.Milestones.{JobResult, empty_result, sweep, is_concurrent, is_some, skips_none}
use kaktus.Services.Milestones.Actions.{ApproveOutcome, approved, rejected, unreachable, is_none}
use kaktus.Services.Payments.{CheckoutRetrieveResult, Outcome, captured, reconcile_checkout}

-- A transition that the system asks for, from the status that the query saw.
abbrev pub system_request : OfferEventName → Offer → TransitionRequest
system_request event o = record {
  offer_id = o.id;
  event = event;
  actor = system;
  actor_profile_id = none;
  expected_status = some o.status;
  superseded_by_offer_id = none;
}

unfoldable pub move_one : OfferEventName → ℕ → Offer → Run Bool
move_one event now o =
    and_then (in_transaction (transition_offer (system_request event o) now)) λ _. return true

-- expireOffers
abbrev pub is_expirable : OfferStatus → Bool
is_expirable status =
    same_status status offered || same_status status countered || same_status status accepted

abbrev pub stale_offers : ℕ → Store → List Offer
stale_offers now s =
    take 200 (select (λ (o : Offer). is_expirable o.status && leb o.expires_at now) s.offers)

-- 'Payment already captured', the guard of EXPIRE, and 'modified concurrently'.
abbrev pub skips_paid : ServiceError → Bool
skips_paid (illegal guard_failed) = true
skips_paid e = is_concurrent e

unfoldable pub expire_offers : ℕ → Store → Store × JobResult
expire_offers now s = sweep skips_paid (move_one expire now) (stale_offers now s) empty_result s

-- startEngagements
abbrev pub starts_by : ℕ → Offer → Store → Bool
starts_by now o s =
    any (λ (e : Engagement). (e.offer_id == o.id) && leb e.start_date now) s.engagements

abbrev pub due_offers : ℕ → Store → List Offer
due_offers now s =
    take 200
      (select (λ (o : Offer). same_status o.status paid_in_escrow && starts_by now o s) s.offers)

unfoldable pub start_engagements : ℕ → Store → Store × JobResult
start_engagements now s =
    sweep is_concurrent (move_one engagement_started now) (due_offers now s) empty_result s

-- reconcileStaleCheckouts: older than two minutes, younger than a day. Where the clock is below a
-- day every checkout is younger.
abbrev pub is_undecided : PaymentStatus → Bool
is_undecided status = is_live status && not (is_captured status)

abbrev pub in_sweep_window : ℕ → ℕ → Bool
in_sweep_window now created = ltb (created + 2 * 60000) now && ltb now (created + 24 * 3600000)

abbrev pub stale_checkouts : ℕ → Store → List Payment
stale_checkouts now s = take 100 (
    select
      (λ (p : Payment).
        is_undecided p.status && is_some p.token && in_sweep_window now p.created_at)
      s.payments)

abbrev pub is_capture : Outcome → Bool
is_capture captured = true
is_capture _ = false

unfoldable pub reconcile_stored : (ℕ → CheckoutRetrieveResult) → ℕ → Option ℕ → Run Bool
reconcile_stored retrieve now none s = (s, ok false)
reconcile_stored retrieve now (some token) s =
    and_then (reconcile_checkout retrieve token now) (λ r. return (is_capture r.outcome)) s

unfoldable pub reconcile_stale_checkouts :
    (ℕ → CheckoutRetrieveResult) → ℕ → Store → Store × JobResult
reconcile_stale_checkouts retrieve now s =
    sweep skips_none (λ (p : Payment). reconcile_stored retrieve now p.token)
      (stale_checkouts now s) empty_result s

-- approveReleasedMilestones
abbrev pub is_released : MilestoneStatus → Bool
is_released MilestoneStatus.released = true
is_released _ = false

abbrev pub unapproved : Store → List Milestone
unapproved s = take 100 (
    select
      (λ (m : Milestone).
        is_released m.status && is_none m.provider_approved_at && is_some m.provider_transaction_id)
      s.milestones)

-- A rejection and a call that throws are counted as failed; the text of the error is not stored.
unfoldable pub note_approved : ℕ → ℕ → ApproveOutcome → Run Bool
note_approved now milestone approved s =
    and_then
      (in_transaction
        (update_milestone milestone λ m. record m { provider_approved_at = some now }))
      (λ _. return true) s
note_approved now milestone rejected s = (s, err provider_rejected)
note_approved now milestone unreachable s = (s, err provider_rejected)

unfoldable pub approve_item_of : (ℕ → ApproveOutcome) → ℕ → ℕ → Option ℕ → Run Bool
approve_item_of approve now milestone none s = (s, ok false)
approve_item_of approve now milestone (some item) s = note_approved now milestone (approve item) s

unfoldable pub approve_released_milestones : (ℕ → ApproveOutcome) → ℕ → Store → Store × JobResult
approve_released_milestones approve now s =
    sweep skips_none (λ (m : Milestone). approve_item_of approve now m.id m.provider_transaction_id)
      (unapproved s) empty_result s
