-- ===== src/Services/Disputes/Tests.antt =====
-- A dispute over two frozen months of 1000 and 500: the coach is to have 1200.
use kaktus.Base.{ℕ, none, [], ◌∷◌, ◌≡◌, refl, map, ◌==◌, List, Result, ok, err}
use kaktus.Base.Int.{pos, ◌+ℤ◌, ◌-ℤ◌}
use kaktus.Offers.StateMachine.{
  disputed, refunded, student, transition, transitions, index_get, check_definition, check_guards,
}
use kaktus.Booking.Holds.{
  update_bookings, update_holds, release_holds, sort_milestones, insert_milestone,
}
use kaktus.Payments.Split.{split_amount, commission}
use kaktus.Payments.Ledger.{
  post_group, post_milestone_release, release_entries, release_milestone, update_milestone,
  mark_refunded, refund_from_escrow, engagement_escrow_balance_minor, coach_available_balance_minor,
}
use kaktus.Database
use kaktus.Database.{
  Offer, EngagementStatus, Milestone, MilestoneStatus, DisputeStatus, CoachProfile, Store,
  psp_receivable, platform_escrow, debit, credit,
}
use kaktus.Database.Samples.{empty_store}
use kaktus.Services.Samples.{month, engaged}
use kaktus.Services.Offers.{
  transition_offer, plan_transition, plan_found, plan_of, build_context, is_initiator,
  commit_transition, cas_status, apply_effects, apply_effect, refund_escrow, record_event,
}
use kaktus.Services.Offers.Effects.{update_engagement, update_coach}
use kaktus.Services.Offers.Money.{refund_some, cancel_future_bookings}
use kaktus.Services.Offers.Money
use kaktus.Services.Disputes.{
  resolve_dispute, resolve_loaded, resolve, split, settle_split, settle_frozen, settle_milestones,
  settle_milestone, release_part, refund_part, create_split_refund, add_split_refund, cas_dispute,
  close_split,
}
use kaktus.Services.Run.{in_transaction, and_then}
use kaktus.Services.Disputes
use kaktus.Services.Disputes.Conserved.{settle_milestones-escrow}
use kaktus.Services.Offers.Money.{total_of}
use kaktus.Payments.Ledger.Escrow.{only}

abbrev frozen_month : ℕ → ℕ → ℕ → Milestone
frozen_month id index amount = month id index amount MilestoneStatus.disputed

abbrev frozen : List Milestone
frozen = frozen_month 3 0 1000 ∷ frozen_month 4 1 500 ∷ []

abbrev quarrel : Store
quarrel = engaged disputed EngagementStatus.disputed frozen (
    record {
      id = 6;
      engagement_id = 2;
      status = DisputeStatus.under_review;
      coach_share_minor = none;
    }
    ∷ [])

abbrev after_split : Store
after_split = (resolve_dispute 6 50 (split (pos 1200)) quarrel).0

-- The escrow is empty, the coach has 820 of the first month and 164 of the second, the offer is
-- refunded; and the coach still counts an active engagement.
split_ends :
    (engagement_escrow_balance_minor after_split 2 ≡ pos 0)
    × (coach_available_balance_minor after_split 7 ≡ pos 984)
    × (map (λ (o : Offer). o.status) after_split.offers ≡ refunded ∷ [])
    × (map (λ (c : CoachProfile). c.active_engagements) after_split.coach_profiles ≡ pos 1 ∷ [])
unfolding resolve_dispute resolve_loaded resolve in_transaction and_then settle_split settle_frozen
    settle_milestones settle_milestone release_part refund_part create_split_refund add_split_refund
    cas_dispute close_split transition_offer plan_transition plan_found plan_of build_context
    is_initiator commit_transition cas_status apply_effects apply_effect refund_escrow record_event
    update_engagement update_coach refund_some cancel_future_bookings Money.refund_unreleased_escrow
    update_holds update_bookings release_holds sort_milestones insert_milestone split_amount
    commission post_group post_milestone_release release_entries release_milestone update_milestone
    mark_refunded refund_from_escrow engagement_escrow_balance_minor coach_available_balance_minor
    transition transitions index_get check_definition check_guards ◌+ℤ◌ ◌-ℤ◌
split_ends = (refl, refl, refl, refl)

abbrev terms : Disputes.SplitRequest
terms = record {
  engagement_id = 2;
  coach_profile_id = 7;
  commission_bps = 1800;
  coach_share_minor = pos 1200;
  now = 50;
}

abbrev left_by : Result Database.ServiceError (Database.⊤ × Store) → Store
left_by (ok (_, t)) = t
left_by (err _) = empty_store

abbrev settled_months : Store
settled_months = left_by (settle_milestones terms 1200 frozen quarrel)

rounds : settle_milestones terms 1200 frozen quarrel ≡ ok (tt, settled_months)
unfolding settle_milestones settle_milestone release_part refund_part split_amount commission
    post_group post_milestone_release release_entries release_milestone update_milestone
    mark_refunded refund_from_escrow ◌+ℤ◌ ◌-ℤ◌
rounds = refl

settle_milestones-escrow_example :
    engagement_escrow_balance_minor settled_months 2
    ≡ engagement_escrow_balance_minor quarrel 2 -ℤ only (2 == 2) (total_of frozen)
settle_milestones-escrow_example =
    settle_milestones-escrow terms 1200 frozen quarrel settled_months rounds 2

abbrev second_ticket : Store × Result Database.ServiceError ℕ
second_ticket = Disputes.open_dispute_on (Disputes.engagement_by_id 2 quarrel) student 50 quarrel
