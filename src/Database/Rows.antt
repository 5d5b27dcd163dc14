-- ===== src/Database/Rows.antt =====
-- The rows. An id is a number, and so is an instant (milliseconds since the epoch); an amount is a
-- whole number of minor units, which the database's CHECK constraints keep positive. Every amount is
-- in the one currency of the program, so the currency columns are left out.
use kaktus.Base.{ℕ, Bool, Option, List, String}
use kaktus.Base.Int.{ℤ}
use kaktus.Offers.StateMachine.{OfferStatus, ActorRole}
use kaktus.Offers.Scope.{Slot, BookingStatus}
use kaktus.Database.Enums.{
  MilestoneStatus, EngagementStatus, HoldStatus, PaymentStatus, LedgerAccount, LedgerDirection,
  RefundStatus, DisputeStatus, PayoutStatus, InviteStatus,
}

-- `scope` is what `parseScope` returns of it: the slots, all that the modelled code reads of it.
pub record Offer : Type 0 where
  pub id : ℕ
  pub coach_profile_id : ℕ
  pub student_profile_id : ℕ
  pub initiator_role : ActorRole
  pub scope_slots : List Slot
  pub price_minor : ℕ
  pub commission_bps : ℕ
  pub start_date : ℕ
  pub end_date : ℕ
  pub milestone_count : ℕ
  pub status : OfferStatus
  pub version : ℕ
  pub parent_offer_id : Option ℕ
  pub expires_at : ℕ
  pub accepted_at : Option ℕ
  pub cancelled_at : Option ℕ

pub record Engagement : Type 0 where
  pub id : ℕ
  pub offer_id : ℕ
  pub coach_profile_id : ℕ
  pub student_profile_id : ℕ
  pub status : EngagementStatus
  pub start_date : ℕ
  pub end_date : ℕ
  pub total_minor : ℕ
  pub commission_bps : ℕ
  pub completed_at : Option ℕ

pub record Milestone : Type 0 where
  pub id : ℕ
  pub engagement_id : ℕ
  pub index : ℕ
  pub period_start : ℕ
  pub period_end : ℕ
  pub amount_minor : ℕ
  pub status : MilestoneStatus
  pub provider_transaction_id : Option ℕ
  pub provider_approved_at : Option ℕ
  pub auto_release_at : Option ℕ
  pub released_at : Option ℕ
  pub refunded_at : Option ℕ

pub record Booking : Type 0 where
  pub id : ℕ
  pub coach_profile_id : ℕ
  pub student_profile_id : ℕ
  pub engagement_id : Option ℕ
  pub milestone_id : Option ℕ
  pub starts_at : ℕ
  pub ends_at : ℕ
  pub status : BookingStatus
  pub coach_confirmed_at : Option ℕ
  pub student_confirmed_at : Option ℕ

pub record SlotHold : Type 0 where
  pub id : ℕ
  pub coach_profile_id : ℕ
  pub student_profile_id : ℕ
  pub offer_id : Option ℕ
  pub starts_at : ℕ
  pub ends_at : ℕ
  pub expires_at : ℕ
  pub status : HoldStatus

pub record LedgerEntry : Type 0 where
  pub entry_group_id : ℕ
  pub account : LedgerAccount
  pub direction : LedgerDirection
  pub amount_minor : ℕ
  pub engagement_id : Option ℕ
  pub milestone_id : Option ℕ
  pub payment_id : Option ℕ
  pub payout_id : Option ℕ
  pub coach_profile_id : Option ℕ

-- The idempotency key of a payment is made of its offer and the version of that.
pub record Payment : Type 0 where
  pub id : ℕ
  pub offer_id : Option ℕ
  pub amount_minor : ℕ
  pub status : PaymentStatus
  pub token : Option ℕ
  pub idempotency_key : ℕ × ℕ
  pub provider_ref : Option ℕ
  pub created_at : ℕ

pub record Refund : Type 0 where
  pub id : ℕ
  pub engagement_id : ℕ
  pub payment_id : Option ℕ
  pub milestone_id : Option ℕ
  pub payment_transaction_id : Option ℕ
  pub amount_minor : ℕ
  pub reason : String
  pub status : RefundStatus
  pub attempts : ℕ
  pub next_attempt_at : ℕ
  pub provider_ref : Option ℕ

pub record Dispute : Type 0 where
  pub id : ℕ
  pub engagement_id : ℕ
  pub status : DisputeStatus
  pub coach_share_minor : Option ℕ

pub record CoachProfile : Type 0 where
  pub id : ℕ
  pub user_id : ℕ
  pub is_approved : Bool
  pub submerchant_key : Option ℕ
  pub commission_bps_override : Option ℕ
  pub active_engagements : ℤ
  pub completed_engagements : ℕ

pub record StudentProfile : Type 0 where
  pub id : ℕ
  pub user_id : ℕ

-- The idempotency key of a payout is made of its coach and `week`, a year and a number.
pub record Payout : Type 0 where
  pub id : ℕ
  pub coach_profile_id : ℕ
  pub amount_minor : ℕ
  pub status : PayoutStatus
  pub week : ℕ × ℕ

pub record CommissionPolicy : Type 0 where
  pub default_bps : ℕ
  pub effective_from : ℕ
  pub effective_to : Option ℕ

-- Of the answers of a visitor, when they run out.
pub record OnboardingSession : Type 0 where
  pub id : ℕ
  pub expires_at : ℕ

pub record Conversation : Type 0 where
  pub id : ℕ
  pub last_message_at : Option ℕ

pub record MeetingInvite : Type 0 where
  pub id : ℕ
  pub engagement_id : ℕ
  pub booking_id : Option ℕ
  pub starts_at : ℕ
  pub ends_at : ℕ
  pub status : InviteStatus
  pub created_by_id : ℕ
  pub responded_at : Option ℕ

pub record OfferEvent : Type 0 where
  pub offer_id : ℕ
  pub from_status : OfferStatus
  pub to_status : OfferStatus
  pub actor_role : ActorRole

-- The whole database. `next_id` is above every id that was handed out: it stands for the ids that
-- the database and `randomUUID` make, of which the code needs that they are new.
pub record Store : Type 0 where
  pub offers : List Offer
  pub engagements : List Engagement
  pub milestones : List Milestone
  pub bookings : List Booking
  pub slot_holds : List SlotHold
  pub ledger_entries : List LedgerEntry
  pub payments : List Payment
  pub refunds : List Refund
  pub disputes : List Dispute
  pub coach_profiles : List CoachProfile
  pub student_profiles : List StudentProfile
  pub payouts : List Payout
  pub commission_policies : List CommissionPolicy
  pub onboarding_sessions : List OnboardingSession
  pub conversations : List Conversation
  pub meeting_invites : List MeetingInvite
  pub offer_events : List OfferEvent
  pub next_id : ℕ
