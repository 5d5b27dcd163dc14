-- ===== src/Services/Offers/Tests.antt =====
-- An offer of a student for one evening: submitted, then accepted and cancelled at once.
use kaktus.Base.{false, none, some, List, [], ◌∷◌, ◌≡◌, refl, arith, Result, ok, err}
use kaktus.Offers.StateMachine.{
  OfferStatus, TransitionOutcome, transition, transitions, index_get, check_definition,
  check_guards, student, coach, submit, accept, cancel, draft, offered, same_status,
}
use kaktus.Payments.Ledger.Balance.{IsBalanced}
use kaktus.Booking.Holds.{
  acquire_holds, create_hold, check_slot, update_holds, extend_holds, release_holds,
}
use kaktus.Booking.Holds.Exclusive.{IsExclusive}
use kaktus.Database.{Offer, Store, ServiceError, concurrent_modification}
use kaktus.Database.Samples.{empty_store}
use kaktus.Services.Offers.{
  LoadedOffer, DeferredWork, TransitionRequest, TransitionResult, loaded, plan_transition,
  commit_transition, transition_offer, cas_status, apply_effects, apply_effect, record_event,
  plan_of, plan_found, build_context, is_initiator,
}
use kaktus.Services.Offers.Effects.{
  create_slot_holds, reconcile_holds, release_stale, acquire_missing, extend_existing,
}
use kaktus.Services.Offers.Invariants.{transition_offer_sound}
use kaktus.Services.Offers.Winner.{one_winner}

abbrev an_offer : OfferStatus → Offer
an_offer status = record {
  id = 1;
  coach_profile_id = 7;
  student_profile_id = 5;
  initiator_role = student;
  scope_slots = record { starts_at = 10000000; ends_at = 13600000 } ∷ [];
  price_minor = 400000;
  commission_bps = 1800;
  start_date = 9000000;
  end_date = 20000000;
  milestone_count = 4;
  status = status;
  version = 1;
  parent_offer_id = none;
  expires_at = 172800000;
  accepted_at = none;
  cancelled_at = none;
}

abbrev with_offer : OfferStatus → Store
with_offer status = record empty_store { offers = an_offer status ∷ [] }

abbrev submission : TransitionRequest
submission = record {
  offer_id = 1;
  event = submit;
  actor = student;
  actor_profile_id = some 5;
  expected_status = some draft;
  superseded_by_offer_id = none;
}

abbrev acceptance : TransitionRequest
acceptance = record submission {
  event = accept;
  actor = coach;
  actor_profile_id = some 7;
  expected_status = none;
}

abbrev withdrawal : TransitionRequest
withdrawal = record submission { event = cancel; expected_status = none }

abbrev run : Result ServiceError (TransitionResult × Store)
run = transition_offer submission 0 (with_offer draft)

abbrev state_of : {A : Type 0} → Result ServiceError (A × Store) → Store
state_of (ok (_, t)) = t
state_of (err _) = empty_store

abbrev result_or : {A : Type 0} → A → Result ServiceError (A × Store) → A
result_or d (ok (a, _)) = a
result_or d (err _) = d

abbrev no_result : TransitionResult
no_result = record { offer_id = 0; from = draft; to = draft; effects_applied = []; deferred = [] }

submitted : run ≡ ok (result_or no_result run, state_of run)
unfolding transition_offer plan_transition plan_found plan_of build_context is_initiator transition
    transitions index_get check_definition check_guards commit_transition cas_status apply_effects
    apply_effect create_slot_holds reconcile_holds release_stale acquire_missing extend_existing
    acquire_holds create_hold check_slot update_holds extend_holds record_event
submitted = refl

transition_offer_sound_example : IsBalanced (state_of run) × IsExclusive (state_of run)
transition_offer_sound_example =
    transition_offer_sound submission 0 (with_offer draft) submitted (λ group. refl)
      (λ c t. omega arith)

abbrev plan_or :
    LoadedOffer × TransitionOutcome
    → Result ServiceError (LoadedOffer × TransitionOutcome)
    → LoadedOffer × TransitionOutcome
plan_or d (ok p) = p
plan_or d (err _) = d

abbrev no_plan : LoadedOffer × TransitionOutcome
no_plan = (
  loaded (with_offer offered) (an_offer offered),
  record { from = offered; to = offered; event = submit; effects = [] },
)

abbrev plan_for : TransitionRequest → LoadedOffer × TransitionOutcome
plan_for req = plan_or no_plan (plan_transition req 0 (with_offer offered))

abbrev first_commit : Result ServiceError (List DeferredWork × Store)
first_commit =
    commit_transition (plan_for acceptance).0 (plan_for acceptance).1 acceptance 0
      (with_offer offered)

planned :
    (plan_transition acceptance 0 (with_offer offered) ≡ ok (plan_for acceptance))
    × (plan_transition withdrawal 0 (with_offer offered) ≡ ok (plan_for withdrawal))
    × (same_status (plan_for acceptance).1.to (plan_for acceptance).1.from ≡ false)
    × (first_commit ≡ ok (result_or [] first_commit, state_of first_commit))
unfolding transition_offer plan_transition plan_found plan_of build_context is_initiator transition
    transitions index_get check_definition check_guards commit_transition cas_status apply_effects
    apply_effect extend_holds release_holds update_holds record_event
planned = (refl, refl, refl, refl)

one_winner_example :
    commit_transition
      (plan_for withdrawal).0
      (plan_for withdrawal).1
      withdrawal
      0
      (state_of first_commit)
    ≡ err concurrent_modification
one_winner_example =
    one_winner acceptance withdrawal 0 0 (with_offer offered) refl planned.0 planned.1 planned.2
      planned.3
