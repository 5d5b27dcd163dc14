-- ===== src/Services/Offers/Create/Tests.antt =====
-- An offer for an hour of the coach that a booking has taken.
use kaktus.Base.{ℕ, true, ◌&&◌, none, some, [], ◌∷◌, any, ◌≡◌, refl, ◌==◌, Result, ok, err}
use kaktus.Base.Int.{pos}
use kaktus.Offers.Scope.{BookingStatus}
use kaktus.Offers.StateMachine.{
  draft, same_status, student, transition, transitions, index_get, check_definition, check_guards,
}
use kaktus.Booking.Holds.{acquire_holds, check_slot, create_hold, is_taken}
use kaktus.Database.{Offer, Store, ServiceError, slot_taken}
use kaktus.Database.Samples.{empty_store}
use kaktus.Services.Offers.{
  transition_offer, plan_transition, plan_found, plan_of, build_context, is_initiator,
  commit_transition, cas_status, apply_effects, apply_effect,
}
use kaktus.Services.Offers.Effects.{
  create_slot_holds, reconcile_holds, release_stale, acquire_missing,
}
use kaktus.Services.Offers.Create.{
  CreateOfferInput, draft_transaction, resolve_commission_bps, rate_of, latest, insert_draft,
  insert_row, add_offer, touch_conversation, submit_request, create_offer,
}
use kaktus.Services.Offers.Create.Stranded.{draft_stays}

abbrev wanted : CreateOfferInput
wanted = record {
  conversation_id = 12;
  coach_profile_id = 7;
  student_profile_id = 5;
  initiator_role = student;
  actor_profile_id = 5;
  scope_slots = record { starts_at = 100; ends_at = 160 } ∷ [];
  price_minor = 40000;
  start_date = 90;
  end_date = 200;
  milestone_count = some 1;
  expires_in_hours = none;
  parent_offer_id = none;
}

abbrev taken : Store
taken = record empty_store {
  conversations = record { id = 12; last_message_at = none } ∷ [];
  coach_profiles =
      record {
        id = 7;
        user_id = 70;
        is_approved = true;
        submerchant_key = none;
        commission_bps_override = none;
        active_engagements = pos 0;
        completed_engagements = 0;
      }
      ∷ [];
  bookings =
      record {
        id = 20;
        coach_profile_id = 7;
        student_profile_id = 6;
        engagement_id = none;
        milestone_id = none;
        starts_at = 130;
        ends_at = 190;
        status = BookingStatus.scheduled;
        coach_confirmed_at = none;
        student_confirmed_at = none;
      }
      ∷ [];
}

abbrev left_by : Result ServiceError (ℕ × Store) → Store
left_by (ok (_, t)) = t
left_by (err _) = taken

abbrev drafted : Store
drafted = left_by (draft_transaction wanted none 50 taken)

drafts : draft_transaction wanted none 50 taken ≡ ok (100, drafted)
unfolding draft_transaction resolve_commission_bps rate_of latest insert_draft insert_row add_offer
    touch_conversation
drafts = refl

refuses : transition_offer (submit_request wanted 100) 50 drafted ≡ err slot_taken
unfolding transition_offer plan_transition plan_found plan_of build_context is_initiator transition
    transitions index_get check_definition check_guards commit_transition cas_status apply_effects
    apply_effect create_slot_holds reconcile_holds release_stale acquire_missing acquire_holds
    check_slot create_hold is_taken draft_transaction resolve_commission_bps rate_of latest
    insert_draft insert_row add_offer touch_conversation
refuses = refl

draft_stays_example :
    (create_offer wanted 50 taken ≡ (drafted, err slot_taken))
    × (any (λ (o : Offer). (o.id == 100) && same_status o.status draft) drafted.offers ≡ true)
draft_stays_example = draft_stays wanted 50 taken refl drafts refuses
