-- ===== src/Services/Offers.antt =====
-- server/services/offer-service.ts: transitionOffer. The plan is made on a snapshot; the commit is a
-- transaction of its own, which may run on a later store.
pub mod Effects
pub mod Money
pub mod Closed
pub mod Kept
pub mod Invariants
pub mod Appended
pub mod Create
pub mod Winner
pub mod Moved
mod Tests
use kaktus.Base.{
  ℕ, ◌+◌, ◌*◌, Bool, true, false, ◌&&◌, ◌||◌, not, Option, none, some, List, [], ◌∷◌, ◌++◌, ltb,
  leb, ◌==◌, if◌then◌else◌, Result, ok, err, any, every, find, select, update_where, length, String,
}
use kaktus.Offers.StateMachine.{
  OfferStatus, ActorRole, OfferEventName, SideEffect, Audience, TransitionContext,
  TransitionOutcome, TransitionCode, transition, same_status, same_actor, student, accepted,
  cancelled, expired, create_slot_holds, extend_slot_holds, release_slot_holds,
  convert_holds_to_bookings, create_engagement, create_milestones, post_escrow_funding,
  freeze_pending_milestones, release_remaining_milestones, refund_unreleased_escrow,
  supersede_parent_offer, notify, audit,
}
use kaktus.Payments.Ledger.{has_id}
use kaktus.Booking.Holds.{extend_holds, release_holds}
use kaktus.Database.{
  Offer, Engagement, Milestone, MilestoneStatus, Payment, Dispute, OfferEvent, Store, Tx, ⊤, ◌>>=◌,
  ◌>>◌, pure, throw_if, gets, modify, lift, ServiceError, not_found, concurrent_modification,
  illegal, is_captured, is_open,
}
use kaktus.Services.Offers.Effects
use kaktus.Services.Offers.Money

pub record TransitionRequest : Type 0 where
  pub offer_id : ℕ
  pub event : OfferEventName
  pub actor : ActorRole
  pub actor_profile_id : Option ℕ
  pub expected_status : Option OfferStatus
  pub superseded_by_offer_id : Option ℕ

pub data DeferredWork : Type 0 where
  notify_party : Audience → String → ℕ → DeferredWork
  provider_refund : ℕ → DeferredWork

-- The offer with what OFFER_INCLUDE loads beside it.
pub record LoadedOffer : Type 0 where
  pub offer : Offer
  pub payments : List Payment
  pub engagement : Option Engagement
  pub milestones : List Milestone
  pub disputes : List Dispute

abbrev pub milestones_for : Option Engagement → Store → List Milestone
milestones_for none s = []
milestones_for (some e) s = select (λ m. m.engagement_id == e.id) s.milestones

abbrev pub disputes_for : Option Engagement → Store → List Dispute
disputes_for none s = []
disputes_for (some e) s = select (λ d. (d.engagement_id == e.id) && is_open d.status) s.disputes

abbrev pub loaded : Store → Offer → LoadedOffer
loaded s o = record {
  offer = o;
  payments = select (λ (p : Payment). has_id o.id p.offer_id && is_captured p.status) s.payments;
  engagement = Effects.engagement_of o.id s;
  milestones = milestones_for (Effects.engagement_of o.id s) s;
  disputes = disputes_for (Effects.engagement_of o.id s) s;
}

abbrev pub is_settled : MilestoneStatus → Bool
is_settled MilestoneStatus.released = true
is_settled MilestoneStatus.refunded = true
is_settled _ = false

abbrev pub start_reached : Offer → Option Engagement → ℕ → Bool
start_reached offer (some e) now = leb e.start_date now
start_reached offer none now = leb offer.start_date now

unfoldable pub is_initiator : Offer → Option ℕ → Option Bool
is_initiator offer none = none
is_initiator offer (some profile) = some (
    if same_actor offer.initiator_role student
    then profile == offer.student_profile_id
    else profile == offer.coach_profile_id)

abbrev pub dispute_window_days : ℕ
dispute_window_days = 7

unfoldable pub build_context : LoadedOffer → Option ℕ → ℕ → TransitionContext
build_context o profile now = record {
  has_captured_payment = some (ltb 0 (length o.payments));
  has_open_dispute = some (ltb 0 (length o.disputes));
  all_milestones_settled =
      some (
        ltb 0 (length o.milestones) && every (λ (m : Milestone). is_settled m.status) o.milestones);
  start_date_reached = some (start_reached o.offer o.engagement now);
  within_dispute_window =
      some (leb now (o.offer.end_date + dispute_window_days * 24 * 60 * 60 * 1000));
  is_initiator_of_current_offer = is_initiator o.offer profile;
}

-- casStatus on offers: exactly one row must still have the status.
abbrev pub stands : ℕ → OfferStatus → Offer → Bool
stands id from o = (o.id == id) && same_status o.status from

unfoldable pub cas_status : ℕ → OfferStatus → (Offer → Offer) → Tx ⊤
cas_status id from change = do
  count ← gets (λ s. length (select (stands id from) s.offers))
  throw_if (not (count == 1)) concurrent_modification
  modify λ s. record s { offers = update_where (stands id from) change s.offers }

abbrev pub moved : OfferStatus → ℕ → Offer → Offer
moved to now o = record o {
  status = to;
  accepted_at = if same_status to accepted then some now else o.accepted_at;
  cancelled_at =
      if same_status to cancelled || same_status to expired then some now else o.cancelled_at;
}

abbrev pub provider_work : Option ℕ × ℕ → List DeferredWork
provider_work (some id, _) = provider_refund id ∷ []
provider_work (none, _) = []

abbrev pub refund_request : Engagement → ℕ → String → ℕ → Money.RefundRequest
refund_request e offer reason now = record {
  engagement_id = e.id;
  offer_id = offer;
  reason = reason;
  now = now;
}

unfoldable pub refund_escrow : Offer → Option Engagement → String → ℕ → Tx (List DeferredWork)
refund_escrow offer none reason now = pure []
refund_escrow offer (some e) reason now =
    Money.refund_unreleased_escrow (refund_request e offer.id reason now) >>= λ r.
    pure (provider_work r)

unfoldable pub apply_effect : SideEffect → LoadedOffer → Option ℕ → ℕ → Tx (List DeferredWork)
apply_effect (create_slot_holds minutes) o child now =
    Effects.create_slot_holds o.offer minutes now >> pure []
apply_effect (extend_slot_holds minutes) o child now =
    extend_holds o.offer.id minutes now >> pure []
apply_effect release_slot_holds o child now = release_holds o.offer.id >> pure []
apply_effect supersede_parent_offer o child now =
    Effects.supersede_parent_offer o.offer child >> pure []
apply_effect create_engagement o child now = Effects.create_engagement o.offer >> pure []
apply_effect create_milestones o child now = Effects.create_milestones o.offer >> pure []
apply_effect post_escrow_funding o child now = Money.fund_escrow o.offer o.payments >> pure []
apply_effect convert_holds_to_bookings o child now = Money.convert_holds o.offer >> pure []
apply_effect freeze_pending_milestones o child now =
    Money.freeze_pending_milestones o.offer >> pure []
apply_effect release_remaining_milestones o child now =
    Money.release_remaining_milestones o.offer now >> pure []
apply_effect (refund_unreleased_escrow reason) o child now =
    gets (Effects.engagement_of o.offer.id) >>= λ e. refund_escrow o.offer e reason now
apply_effect (notify audience template) o child now =
    pure (notify_party audience template o.offer.id ∷ [])
apply_effect (audit _) o child now = pure []

unfoldable pub apply_effects : List SideEffect → LoadedOffer → Option ℕ → ℕ → Tx (List DeferredWork)
apply_effects [] o child now = pure []
apply_effects (x ∷ xs) o child now = apply_effect x o child now >>= λ work.
    apply_effects xs o child now >>= λ rest. pure (work ++ rest)

unfoldable pub record_event : TransitionRequest → TransitionOutcome → Tx ⊤
record_event req plan = modify λ s. record s {
  offer_events =
      s.offer_events
      ++ (record {
        offer_id = req.offer_id;
        from_status = plan.from;
        to_status = plan.to;
        actor_role = req.actor;
      }
          ∷ []);
}

-- The transaction of `transitionOffer`.
unfoldable pub commit_transition :
    LoadedOffer → TransitionOutcome → TransitionRequest → ℕ → Tx (List DeferredWork)
commit_transition o plan req now = do
  cas_status req.offer_id plan.from (moved plan.to now)
  work ← apply_effects plan.effects o req.superseded_by_offer_id now
  record_event req plan
  pure work

abbrev pub unexpected : Option OfferStatus → OfferStatus → Bool
unexpected none status = false
unexpected (some expected) status = not (same_status status expected)

-- What `transitionOffer` does before its transaction: the snapshot and the plan.
unfoldable pub plan_of :
    TransitionRequest → ℕ → LoadedOffer → Result ServiceError (LoadedOffer × TransitionOutcome)
plan_of req now o =
    if unexpected req.expected_status o.offer.status
    then err concurrent_modification
    else (elim (transition o.offer.status req.event req.actor
        (build_context o req.actor_profile_id now)) [
          | ok plan ↦ ok (o, plan)
          | err code ↦ err (illegal code)
        ])

unfoldable pub plan_found :
    TransitionRequest
    → ℕ
    → Store
    → Option Offer
    → Result ServiceError (LoadedOffer × TransitionOutcome)
plan_found req now s none = err not_found
plan_found req now s (some o) = plan_of req now (loaded s o)

abbrev pub offer_by_id : ℕ → Store → Option Offer
offer_by_id id s = find (λ (o : Offer). o.id == id) s.offers

unfoldable pub plan_transition :
    TransitionRequest → ℕ → Store → Result ServiceError (LoadedOffer × TransitionOutcome)
plan_transition req now s = plan_found req now s (offer_by_id req.offer_id s)

pub record TransitionResult : Type 0 where
  pub offer_id : ℕ
  pub from : OfferStatus
  pub to : OfferStatus
  pub effects_applied : List SideEffect
  pub deferred : List DeferredWork

abbrev pub result_of : TransitionRequest → TransitionOutcome → List DeferredWork → TransitionResult
result_of req plan work = record {
  offer_id = req.offer_id;
  from = plan.from;
  to = plan.to;
  effects_applied = plan.effects;
  deferred = work;
}

abbrev pub commit_plan :
    TransitionRequest → ℕ → LoadedOffer × TransitionOutcome → Tx TransitionResult
commit_plan req now (o, plan) =
    commit_transition o plan req now >>= λ work. pure (result_of req plan work)

-- The whole call, where nothing comes between its snapshot and its transaction.
unfoldable pub transition_offer : TransitionRequest → ℕ → Tx TransitionResult
transition_offer req now s = (lift (λ e. e) (plan_transition req now s) >>= commit_plan req now) s
