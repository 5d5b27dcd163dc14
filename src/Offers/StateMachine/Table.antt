-- ===== src/Offers/StateMachine/Table.antt =====
-- `TRANSITIONS`, row by row; the rows that the source spreads from a list of states are mapped here
-- as there.
use kaktus.Base.{none, some, List, [], ◌∷◌, ◌++◌, map, ◌*◌}
use kaktus.Offers.StateMachine.Types.{
  OfferStatus, draft, offered, countered, accepted, paid_in_escrow, active, completed, disputed,
  refunded, cancelled, expired, student, coach, admin, system, submit, counter, accept,
  payment_captured, engagement_started, all_milestones_released, open_dispute,
  resolve_dispute_release, resolve_dispute_refund, refund, cancel, expire, to_both, to_admin,
  create_slot_holds, extend_slot_holds, release_slot_holds, convert_holds_to_bookings,
  create_engagement, create_milestones, post_escrow_funding, freeze_pending_milestones,
  release_remaining_milestones, refund_unreleased_escrow, supersede_parent_offer, notify, audit,
  TransitionDefinition,
}

abbrev pub submit_row : TransitionDefinition
submit_row = record {
  from = draft;
  to = offered;
  event = submit;
  allowed_actors = student ∷ coach ∷ [];
  effects =
      create_slot_holds (48 * 60) ∷ notify to_both "offer.received" ∷ audit "offer.submitted" ∷ [];
  requires = none;
}

abbrev pub counter_row : OfferStatus → TransitionDefinition
counter_row s = record {
  from = s;
  to = countered;
  event = counter;
  allowed_actors = student ∷ coach ∷ [];
  effects =
      supersede_parent_offer
      ∷ extend_slot_holds (48 * 60)
      ∷ notify to_both "offer.countered"
      ∷ audit "offer.countered"
      ∷ [];
  requires = some "counter must come from the party that did not send the current offer";
}

abbrev pub accept_row : OfferStatus → TransitionDefinition
accept_row s = record {
  from = s;
  to = accepted;
  event = accept;
  allowed_actors = student ∷ coach ∷ [];
  effects = extend_slot_holds 120 ∷ notify to_both "offer.accepted" ∷ audit "offer.accepted" ∷ [];
  requires = some "acceptor must be the counterparty, not the sender";
}

abbrev pub payment_captured_row : TransitionDefinition
payment_captured_row = record {
  from = accepted;
  to = paid_in_escrow;
  event = payment_captured;
  allowed_actors = system ∷ [];
  effects =
      create_engagement
      ∷ post_escrow_funding
      ∷ create_milestones
      ∷ convert_holds_to_bookings
      ∷ notify to_both "escrow.funded"
      ∷ audit "offer.paid"
      ∷ [];
  requires = some "a captured Payment row must exist for this offer";
}

abbrev pub engagement_started_row : TransitionDefinition
engagement_started_row = record {
  from = paid_in_escrow;
  to = active;
  event = engagement_started;
  allowed_actors = system ∷ [];
  effects = notify to_both "engagement.started" ∷ audit "engagement.started" ∷ [];
  requires = some "engagement start date must have been reached";
}

abbrev pub all_milestones_released_row : TransitionDefinition
all_milestones_released_row = record {
  from = active;
  to = completed;
  event = all_milestones_released;
  allowed_actors = system ∷ [];
  effects = notify to_both "engagement.completed" ∷ audit "engagement.completed" ∷ [];
  requires = some "every milestone must be RELEASED or REFUNDED, and no dispute open";
}

abbrev pub open_dispute_row : OfferStatus → TransitionDefinition
open_dispute_row s = record {
  from = s;
  to = disputed;
  event = open_dispute;
  allowed_actors = student ∷ coach ∷ admin ∷ [];
  effects =
      freeze_pending_milestones
      ∷ notify to_admin "dispute.opened"
      ∷ notify to_both "dispute.opened"
      ∷ audit "dispute.opened"
      ∷ [];
  requires = some "dispute window must still be open";
}

abbrev pub resolve_dispute_release_row : TransitionDefinition
resolve_dispute_release_row = record {
  from = disputed;
  to = active;
  event = resolve_dispute_release;
  allowed_actors = admin ∷ [];
  effects =
      release_remaining_milestones
      ∷ notify to_both "dispute.resolved.release"
      ∷ audit "dispute.resolved.release"
      ∷ [];
  requires = none;
}

abbrev pub resolve_dispute_refund_row : TransitionDefinition
resolve_dispute_refund_row = record {
  from = disputed;
  to = refunded;
  event = resolve_dispute_refund;
  allowed_actors = admin ∷ [];
  effects =
      refund_unreleased_escrow "dispute_resolved_refund"
      ∷ release_slot_holds
      ∷ notify to_both "dispute.resolved.refund"
      ∷ audit "dispute.resolved.refund"
      ∷ [];
  requires = none;
}

abbrev pub refund_row : TransitionDefinition
refund_row = record {
  from = paid_in_escrow;
  to = refunded;
  event = refund;
  allowed_actors = admin ∷ system ∷ [];
  effects =
      refund_unreleased_escrow "pre_start_cancellation"
      ∷ release_slot_holds
      ∷ notify to_both "escrow.refunded"
      ∷ audit "offer.refunded"
      ∷ [];
  requires = some "engagement must not have started";
}

abbrev pub cancel_row : OfferStatus → TransitionDefinition
cancel_row s = record {
  from = s;
  to = cancelled;
  event = cancel;
  allowed_actors = student ∷ coach ∷ admin ∷ [];
  effects = release_slot_holds ∷ notify to_both "offer.cancelled" ∷ audit "offer.cancelled" ∷ [];
  requires = some "no captured payment may exist";
}

abbrev pub expire_row : OfferStatus → TransitionDefinition
expire_row s = record {
  from = s;
  to = expired;
  event = expire;
  allowed_actors = system ∷ [];
  effects = release_slot_holds ∷ notify to_both "offer.expired" ∷ audit "offer.expired" ∷ [];
  requires = some "no captured payment may exist";
}

unfoldable pub transitions : List TransitionDefinition
transitions =
    (submit_row ∷ counter_row offered ∷ counter_row countered ∷ [])
    ++ (map accept_row (offered ∷ countered ∷ [])
        ++ ((payment_captured_row ∷ engagement_started_row ∷ all_milestones_released_row ∷ [])
            ++ (map open_dispute_row (active ∷ paid_in_escrow ∷ completed ∷ [])
                ++ ((resolve_dispute_release_row ∷ resolve_dispute_refund_row ∷ refund_row ∷ [])
                    ++ (map cancel_row (draft ∷ offered ∷ countered ∷ accepted ∷ [])
                        ++ map expire_row (offered ∷ countered ∷ accepted ∷ []))))))
