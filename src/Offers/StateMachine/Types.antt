-- ===== src/Offers/StateMachine/Types.antt =====
-- The data of the offer state machine.
use Prim.Native.String.{String}
use kaktus.Base.{ℕ, Bool, Option, List, [], ◌∷◌, ◌==◌, ◌≡◌, true, arith}

pub data OfferStatus : Type 0 where
  draft offered countered accepted paid_in_escrow active completed disputed refunded cancelled
        expired :
      OfferStatus

pub data ActorRole : Type 0 where
  student coach admin system : ActorRole

pub data OfferEventName : Type 0 where
  submit counter accept payment_captured engagement_started all_milestones_released open_dispute
        resolve_dispute_release resolve_dispute_refund refund cancel expire :
      OfferEventName

-- The comparison of two tags by `===` goes through their positions.
abbrev status_tag : OfferStatus → ℕ
status_tag draft = 0
status_tag offered = 1
status_tag countered = 2
status_tag accepted = 3
status_tag paid_in_escrow = 4
status_tag active = 5
status_tag completed = 6
status_tag disputed = 7
status_tag refunded = 8
status_tag cancelled = 9
status_tag expired = 10

abbrev actor_tag : ActorRole → ℕ
actor_tag student = 0
actor_tag coach = 1
actor_tag admin = 2
actor_tag system = 3

abbrev event_tag : OfferEventName → ℕ
event_tag submit = 0
event_tag counter = 1
event_tag accept = 2
event_tag payment_captured = 3
event_tag engagement_started = 4
event_tag all_milestones_released = 5
event_tag open_dispute = 6
event_tag resolve_dispute_release = 7
event_tag resolve_dispute_refund = 8
event_tag refund = 9
event_tag cancel = 10
event_tag expire = 11

abbrev pub same_status : OfferStatus → OfferStatus → Bool
same_status a b = status_tag a == status_tag b

abbrev pub same_actor : ActorRole → ActorRole → Bool
same_actor a b = actor_tag a == actor_tag b

abbrev pub same_event : OfferEventName → OfferEventName → Bool
same_event a b = event_tag a == event_tag b

pub same_status→eq : (a b : OfferStatus) → same_status a b ≡ true → a ≡ b
same_status→eq a b h = ground arith

pub same_event→eq : (a b : OfferEventName) → same_event a b ≡ true → a ≡ b
same_event→eq a b h = ground arith

pub same_actor→eq : (a b : ActorRole) → same_actor a b ≡ true → a ≡ b
same_actor→eq a b h = ground arith

pub data Audience : Type 0 where
  to_student to_coach to_both to_admin : Audience

pub data SideEffect : Type 0 where
  create_slot_holds : ℕ → SideEffect
  extend_slot_holds : ℕ → SideEffect
  release_slot_holds : SideEffect
  convert_holds_to_bookings : SideEffect
  create_engagement : SideEffect
  create_milestones : SideEffect
  post_escrow_funding : SideEffect
  freeze_pending_milestones : SideEffect
  release_remaining_milestones : SideEffect
  refund_unreleased_escrow : String → SideEffect
  supersede_parent_offer : SideEffect
  notify : Audience → String → SideEffect
  audit : String → SideEffect

pub record TransitionDefinition : Type 0 where
  pub from : OfferStatus
  pub to : OfferStatus
  pub event : OfferEventName
  pub allowed_actors : List ActorRole
  pub effects : List SideEffect
  pub requires : Option String

-- Every flag may be absent.
pub record TransitionContext : Type 0 where
  pub has_captured_payment : Option Bool
  pub has_open_dispute : Option Bool
  pub all_milestones_settled : Option Bool
  pub start_date_reached : Option Bool
  pub within_dispute_window : Option Bool
  pub is_initiator_of_current_offer : Option Bool

-- The `code` of an `OfferTransitionError`; its message is for the reader only.
pub data TransitionCode : Type 0 where
  illegal_transition forbidden_actor guard_failed terminal_state : TransitionCode

pub record TransitionOutcome : Type 0 where
  pub from : OfferStatus
  pub to : OfferStatus
  pub event : OfferEventName
  pub effects : List SideEffect

abbrev pub terminal_states : List OfferStatus
terminal_states = completed ∷ refunded ∷ cancelled ∷ expired ∷ []

abbrev pub escrow_funded_states : List OfferStatus
escrow_funded_states = paid_in_escrow ∷ active ∷ disputed ∷ []
