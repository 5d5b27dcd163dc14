-- ===== src/Services/Disputes.antt =====
-- server/services/dispute-service.ts. A call runs several transactions one after another: what one
-- has committed stays when a later one is rolled back.
pub mod Conserved
pub mod NoShow
pub mod Resolved
pub mod Opened
mod Tests
use kaktus.Base.{
  ℕ, ◌-◌, Bool, true, false, ◌&&◌, ◌||◌, not, Option, none, some, List, [], ◌∷◌, ◌++◌, ltb, leb,
  ◌==◌, Result, ok, err, find, select, update_where, length,
}
use kaktus.Base.Int.{ℤ, pos, negsuc, ltb_ℤ}
use kaktus.Offers.StateMachine.{
  ActorRole, admin, open_dispute, resolve_dispute_release, resolve_dispute_refund, OfferEventName,
  illegal_transition, TransitionCode,
}
use kaktus.Payments.Ledger.{release_milestone, ReleaseArgs, refund_from_escrow}
use kaktus.Database
use kaktus.Database.{
  Dispute, DisputeStatus, Engagement, EngagementStatus, Milestone, Payment, Refund, Store, Tx, ⊤,
  ◌>>=◌, ◌>>◌, pure, throw_if, gets, modify, fresh, or_throw, when, ServiceError, not_found,
  share_out_of_range, already_resolved, concurrent_modification, illegal, is_open,
}
use kaktus.Services.Run.{Run, in_transaction, and_then}
use kaktus.Services.Offers.{TransitionRequest, TransitionResult, transition_offer}
use kaktus.Services.Offers.Effects.{update_engagement}
use kaktus.Services.Offers.Money.{
  frozen_of, total_of, cancel_future_bookings, captured_payment_of, payment_id_of,
}

-- settleSplit
pub record SplitRequest : Type 0 where
  pub engagement_id : ℕ
  pub coach_profile_id : ℕ
  pub commission_bps : ℕ
  pub coach_share_minor : ℤ
  pub now : ℕ

unfoldable pub release_part : SplitRequest → Milestone → ℕ → Tx ⊤
release_part req m amount = do
  split ←
      release_milestone
        (record {
          engagement_id = req.engagement_id;
          milestone_id = m.id;
          coach_profile_id = req.coach_profile_id;
          amount_minor = amount;
          commission_bps = req.commission_bps;
        })
        req.now
  pure tt

unfoldable pub refund_part : SplitRequest → Milestone → ℕ → Tx ⊤
refund_part req m amount = do
  group ← refund_from_escrow req.engagement_id (some m.id) amount req.now
  pure tt

-- One round of the loop, by `remainingToCoach >= amount` and `remainingToCoach > 0`; it returns what
-- then remains for the coach.
unfoldable pub settle_milestone : SplitRequest → ℕ → Milestone → Bool → Bool → Tx ℕ
settle_milestone req remaining m true _ =
    release_part req m m.amount_minor >> pure (remaining - m.amount_minor)
settle_milestone req remaining m false true =
    release_part req m remaining >> (refund_part req m (m.amount_minor - remaining) >> pure 0)
settle_milestone req remaining m false false = refund_part req m m.amount_minor >> pure remaining

unfoldable pub settle_milestones : SplitRequest → ℕ → List Milestone → Tx ⊤
settle_milestones req remaining [] = pure tt
settle_milestones req remaining (m ∷ ms) =
    settle_milestone req remaining m (leb m.amount_minor remaining) (ltb 0 remaining) >>= λ left.
    settle_milestones req left ms

unfoldable pub add_split_refund : SplitRequest → Option Payment → ℕ → ℕ → Tx ⊤
add_split_refund req payment amount id = modify λ s. record s {
  refunds =
      s.refunds
      ++ (record {
        id = id;
        engagement_id = req.engagement_id;
        payment_id = payment_id_of payment;
        milestone_id = none;
        payment_transaction_id = none;
        amount_minor = amount;
        reason = "dispute_split";
        status = Database.RefundStatus.pending;
        attempts = 0;
        next_attempt_at = req.now;
        provider_ref = none;
      }
          ∷ []);
}

abbrev pub engagement_by_id : ℕ → Store → Option Engagement
engagement_by_id id s = find (λ (e : Engagement). e.id == id) s.engagements

unfoldable pub create_split_refund : SplitRequest → ℕ → Tx ⊤
create_split_refund req amount = do
  row ← gets (engagement_by_id req.engagement_id)
  e ← or_throw row not_found
  payment ← gets (captured_payment_of e.offer_id)
  id ← fresh
  add_split_refund req payment amount id

abbrev pub share_of : ℤ → ℕ
share_of (pos n) = n
share_of (negsuc _) = 0

unfoldable pub settle_frozen : SplitRequest → List Milestone → Tx ⊤
settle_frozen req frozen = do
  throw_if
      (ltb_ℤ req.coach_share_minor (pos 0) || ltb_ℤ (pos (total_of frozen)) req.coach_share_minor)
      share_out_of_range
  settle_milestones req (share_of req.coach_share_minor) frozen
  cancel_future_bookings req.engagement_id req.now
  when (ltb 0 (total_of frozen - share_of req.coach_share_minor))
      (create_split_refund req (total_of frozen - share_of req.coach_share_minor))
  update_engagement req.engagement_id
      λ x. record x { status = EngagementStatus.cancelled; completed_at = some req.now }

unfoldable pub settle_split : SplitRequest → Tx ⊤
settle_split req s = settle_frozen req (frozen_of req.engagement_id s) s

-- casStatus on disputes, from any of the open statuses
abbrev pub open_with_id : ℕ → Dispute → Bool
open_with_id id d = (d.id == id) && is_open d.status

unfoldable pub cas_dispute : ℕ → (Dispute → Dispute) → Tx ⊤
cas_dispute id change = do
  count ← gets (λ s. length (select (open_with_id id) s.disputes))
  throw_if (not (count == 1)) concurrent_modification
  modify λ s. record s { disputes = update_where (open_with_id id) change s.disputes }

pub data Resolution : Type 0 where
  release refund : Resolution
  split : ℤ → Resolution

abbrev pub admin_request : ℕ → OfferEventName → TransitionRequest
admin_request offer event = record {
  offer_id = offer;
  event = event;
  actor = admin;
  actor_profile_id = none;
  expected_status = none;
  superseded_by_offer_id = none;
}

abbrev pub split_request : Engagement → ℤ → ℕ → SplitRequest
split_request e share now = record {
  engagement_id = e.id;
  coach_profile_id = e.coach_profile_id;
  commission_bps = e.commission_bps;
  coach_share_minor = share;
  now = now;
}

unfoldable pub close_split : Dispute → Engagement → ℤ → ℕ → Tx ⊤
close_split d e share now = do
  settle_split (split_request e share now)
  cas_dispute d.id λ x. record x {
    status = DisputeStatus.resolved_split;
    coach_share_minor = some (share_of share);
  }

unfoldable pub close_release : Dispute → Engagement → Tx ⊤
close_release d e = do
  cas_dispute d.id λ x. record x { status = DisputeStatus.resolved_release }
  update_engagement e.id λ x. record x { status = EngagementStatus.active }

unfoldable pub close_refund : Dispute → Tx ⊤
close_refund d = cas_dispute d.id λ x. record x { status = DisputeStatus.resolved_refund }

abbrev pub forget : {A : Type 0} → Tx A → Tx ⊤
forget m = m >>= λ _. pure tt

unfoldable pub resolve : Dispute → Engagement → ℕ → Resolution → Run ⊤
resolve d e now release =
    and_then
      (in_transaction (transition_offer (admin_request e.offer_id resolve_dispute_release) now))
      λ _. in_transaction (close_release d e)
resolve d e now refund =
    and_then
      (in_transaction (transition_offer (admin_request e.offer_id resolve_dispute_refund) now))
      λ _. in_transaction (close_refund d)
resolve d e now (split share) = and_then (in_transaction (close_split d e share now)) λ _.
    in_transaction (forget (transition_offer (admin_request e.offer_id resolve_dispute_refund) now))

unfoldable pub resolve_loaded : Option Dispute → ℕ → Resolution → Run ⊤
resolve_loaded none now resolution s = (s, err not_found)
resolve_loaded (some d) now resolution s = elim (engagement_by_id d.engagement_id s) [
  | none ↦ (s, err not_found)
  | some e ↦ elim (is_open d.status) [
    | false ↦ (s, err already_resolved)
    | true ↦ resolve d e now resolution s
  ]
]

unfoldable pub resolve_dispute : ℕ → ℕ → Resolution → Run ⊤
resolve_dispute id now resolution s =
    resolve_loaded (find (λ (d : Dispute). d.id == id) s.disputes) now resolution s

-- openDispute. An error that two callers racing each other cause hands back the open ticket.
abbrev pub is_collision : ServiceError → Bool
is_collision (illegal illegal_transition) = true
is_collision concurrent_modification = true
is_collision _ = false

-- The open dispute that was created last.
abbrev pub last_open : ℕ → List Dispute → Option Dispute
last_open engagement [] = none
last_open engagement (d ∷ ds) = elim (last_open engagement ds) [
  | some later ↦ some later
  | none ↦ elim ((d.engagement_id == engagement) && is_open d.status) [
    | true ↦ some d
    | false ↦ none
  ]
]

unfoldable pub add_dispute : ℕ → ℕ → Tx ⊤
add_dispute engagement id = modify λ s. record s {
  disputes =
      s.disputes
      ++ (record {
        id = id;
        engagement_id = engagement;
        status = DisputeStatus.open_;
        coach_share_minor = none;
      }
          ∷ []);
}

unfoldable pub create_dispute : ℕ → Tx ℕ
create_dispute engagement = do id ← fresh; add_dispute engagement id; pure id

unfoldable pub hand_back : ℕ → ServiceError → Bool → Run ℕ
hand_back engagement e false s = (s, err e)
hand_back engagement e true s = elim (last_open engagement s.disputes) [
  | some d ↦ (s, ok d.id)
  | none ↦ (s, err e)
]

unfoldable pub after_freeze :
    ℕ → Store × Result ServiceError TransitionResult → Store × Result ServiceError ℕ
after_freeze engagement (s, ok _) = in_transaction (create_dispute engagement) s
after_freeze engagement (s, err e) = hand_back engagement e (is_collision e) s

abbrev pub dispute_request : ℕ → ActorRole → TransitionRequest
dispute_request offer role = record {
  offer_id = offer;
  event = open_dispute;
  actor = role;
  actor_profile_id = none;
  expected_status = none;
  superseded_by_offer_id = none;
}

unfoldable pub open_dispute_on : Option Engagement → ActorRole → ℕ → Run ℕ
open_dispute_on none role now s = (s, err not_found)
open_dispute_on (some e) role now s =
    after_freeze e.id (in_transaction (transition_offer (dispute_request e.offer_id role) now) s)
