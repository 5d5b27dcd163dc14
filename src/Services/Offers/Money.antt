-- ===== src/Services/Offers/Money.antt =====
-- server/services/offer-service.ts: applyEffect, the side effects on engagement, milestones and
-- escrow.
use kaktus.Base.{
  ℕ, ◌&&◌, Bool, true, false, Option, none, some, List, [], ◌∷◌, ◌++◌, leb, ◌==◌, any, find, select,
  update_where, length, String,
}
use kaktus.Base.Int.{pos, ◌-ℤ◌}
use kaktus.Base.Sums.{sum_by}
use kaktus.Offers.Scope.{BookingStatus}
use kaktus.Payments.Ledger.{
  post_escrow_funding, release_milestone, ReleaseArgs, refund_from_escrow, has_id,
}
use kaktus.Booking.Holds.{update_bookings, convert_holds_to_bookings, sort_milestones}
use kaktus.Database.{
  Offer, Engagement, EngagementStatus, Milestone, MilestoneStatus, Booking, Payment, RefundStatus,
  LedgerEntry, Store, Tx, ⊤, ◌>>=◌, ◌>>◌, pure, gets, modify, fresh, or_throw, for_each, when,
  not_found, no_captured_payment, is_freezable, is_unsettled, is_disputed, is_scheduled,
  is_captured, same_account, platform_escrow,
}
use kaktus.Services.Offers.Effects.{update_engagement, update_coach, engagement_of, milestones_of}

-- POST_ESCROW_FUNDING: once per payment.
abbrev pub escrow_entries_of : ℕ → Store → List LedgerEntry
escrow_entries_of payment s =
    select (λ e. has_id payment e.payment_id && same_account e.account platform_escrow)
      s.ledger_entries

unfoldable pub fund : ℕ → Payment → Tx ⊤
fund engagement p = do
  posted ← gets (escrow_entries_of p.id)
  when (length posted == 0) (do group ← post_escrow_funding engagement p.id p.amount_minor; pure tt)

abbrev pub first_payment : List Payment → Option Payment
first_payment [] = none
first_payment (p ∷ _) = some p

unfoldable pub fund_escrow : Offer → List Payment → Tx ⊤
fund_escrow offer payments = do
  found ← gets (engagement_of offer.id)
  e ← or_throw found not_found
  p ← or_throw (first_payment payments) no_captured_payment
  fund e.id p

-- CONVERT_HOLDS_TO_BOOKINGS
abbrev pub among : List Milestone → Milestone → Bool
among rows m = any (λ (k : Milestone). k.id == m.id) rows

unfoldable pub convert_holds : Offer → Tx ⊤
convert_holds offer = do
  found ← gets (engagement_of offer.id)
  e ← or_throw found not_found
  rows ← gets (milestones_of e.id)
  convert_holds_to_bookings offer.id e.id (among rows)

-- FREEZE_PENDING_MILESTONES
abbrev pub freezes : ℕ → Milestone → Bool
freezes engagement m = (m.engagement_id == engagement) && is_freezable m.status

unfoldable pub freeze_rows : ℕ → Tx ⊤
freeze_rows engagement = modify λ s. record s {
  milestones =
      update_where (freezes engagement) (λ m. record m { status = MilestoneStatus.disputed })
        s.milestones;
}

unfoldable pub freeze : Option Engagement → Tx ⊤
freeze none = pure tt
freeze (some e) = do
  freeze_rows e.id
  update_engagement e.id λ x. record x { status = EngagementStatus.disputed }

unfoldable pub freeze_pending_milestones : Offer → Tx ⊤
freeze_pending_milestones offer = do found ← gets (engagement_of offer.id); freeze found

-- RELEASE_REMAINING_MILESTONES
abbrev pub release_args : Engagement → Milestone → ReleaseArgs
release_args e m = record {
  engagement_id = e.id;
  milestone_id = m.id;
  coach_profile_id = e.coach_profile_id;
  amount_minor = m.amount_minor;
  commission_bps = e.commission_bps;
}

unfoldable pub release_one : Engagement → ℕ → Milestone → Tx ⊤
release_one e now m = do split ← release_milestone (release_args e m) now; pure tt

abbrev pub frozen_of : ℕ → Store → List Milestone
frozen_of engagement s =
    sort_milestones
      (select (λ m. (m.engagement_id == engagement) && is_disputed m.status) s.milestones)

unfoldable pub release_remaining_milestones : Offer → ℕ → Tx ⊤
release_remaining_milestones offer now = do
  found ← gets (engagement_of offer.id)
  e ← or_throw found not_found
  frozen ← gets (frozen_of e.id)
  for_each (release_one e now) frozen
  update_engagement e.id λ x. record x { status = EngagementStatus.active }

-- refundUnreleasedEscrow
pub record RefundRequest : Type 0 where
  pub engagement_id : ℕ
  pub offer_id : ℕ
  pub reason : String
  pub now : ℕ

abbrev pub refundable_of : ℕ → Store → List Milestone
refundable_of engagement s =
    sort_milestones
      (select (λ m. (m.engagement_id == engagement) && is_unsettled m.status) s.milestones)

abbrev pub captured_payment_of : ℕ → Store → Option Payment
captured_payment_of offer s =
    find (λ (p : Payment). has_id offer p.offer_id && is_captured p.status) s.payments

abbrev pub payment_id_of : Option Payment → Option ℕ
payment_id_of (some p) = some p.id
payment_id_of none = none

unfoldable pub add_refund : RefundRequest → Option Payment → Milestone → ℕ → Tx ⊤
add_refund req payment m id = modify λ s. record s {
  refunds =
      s.refunds
      ++ (record {
        id = id;
        engagement_id = req.engagement_id;
        payment_id = payment_id_of payment;
        milestone_id = some m.id;
        payment_transaction_id = m.provider_transaction_id;
        amount_minor = m.amount_minor;
        reason = req.reason;
        status = RefundStatus.pending;
        attempts = 0;
        next_attempt_at = req.now;
        provider_ref = none;
      }
          ∷ []);
}

unfoldable pub refund_one : RefundRequest → Option Payment → Milestone → Tx ℕ
refund_one req payment m = do
  group ← refund_from_escrow req.engagement_id (some m.id) m.amount_minor req.now
  id ← fresh
  add_refund req payment m id
  pure id

-- `firstRefundId ??= refund.id`
abbrev pub or_first : Option ℕ → ℕ → Option ℕ
or_first (some x) _ = some x
or_first none x = some x

unfoldable pub refund_all :
    RefundRequest → Option Payment → Option ℕ → List Milestone → Tx (Option ℕ)
refund_all req payment first [] = pure first
refund_all req payment first (m ∷ ms) =
    refund_one req payment m >>= λ id. refund_all req payment (or_first first id) ms

-- The future sessions of the engagement.
abbrev pub is_future_session : ℕ → ℕ → Booking → Bool
is_future_session engagement now b =
    has_id engagement b.engagement_id && is_scheduled b.status && leb now b.starts_at

unfoldable pub cancel_future_bookings : ℕ → ℕ → Tx ⊤
cancel_future_bookings engagement now =
    update_bookings (is_future_session engagement now)
      λ b. record b { status = BookingStatus.cancelled_by_student }

unfoldable pub refund_rows : RefundRequest → List Milestone → Tx (Option ℕ)
refund_rows req refundable = do
  row ← gets (λ s. find (λ (e : Engagement). e.id == req.engagement_id) s.engagements)
  e ← or_throw row not_found
  payment ← gets (captured_payment_of req.offer_id)
  first ← refund_all req payment none refundable
  cancel_future_bookings req.engagement_id req.now
  update_engagement req.engagement_id
      λ x. record x { status = EngagementStatus.cancelled; completed_at = some req.now }
  update_coach e.coach_profile_id
      λ c. record c { active_engagements = c.active_engagements -ℤ pos 1 }
  pure first

abbrev pub total_of : List Milestone → ℕ
total_of = sum_by (λ m. m.amount_minor)

unfoldable pub refund_some : RefundRequest → List Milestone → Bool → Tx (Option ℕ × ℕ)
refund_some req refundable true = pure (none, 0)
refund_some req refundable false =
    refund_rows req refundable >>= λ first. pure (first, total_of refundable)

unfoldable pub refund_unreleased_escrow : RefundRequest → Tx (Option ℕ × ℕ)
refund_unreleased_escrow req s =
    let refundable = refundable_of req.engagement_id s in
    refund_some req refundable (total_of refundable == 0) s
