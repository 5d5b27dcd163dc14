-- ===== src/Services/Milestones/Tests.antt =====
-- An engagement of two months of 1000 and 500: the first awaits the student's answer until 40.
use kaktus.Base.{
  ◌⊎◌, some, length, select, ℕ, true, none, List, [], ◌∷◌, ◌≡◌, refl, arith, map, Result, ok, err,
}
use kaktus.Base.Int.{pos, ◌+ℤ◌, ◌-ℤ◌}
use kaktus.Offers.StateMachine.{
  active, paid_in_escrow, completed, transition, transitions, index_get, check_definition,
  check_guards, OfferStatus,
}
use kaktus.Booking.Holds.{update_bookings}
use kaktus.Payments.Split.{split_amount, commission}
use kaktus.Payments.Ledger.{
  update_milestone, post_group, post_milestone_release, release_entries,
  coach_available_balance_minor,
}
use kaktus.Database.{
  Offer, Engagement, EngagementStatus, Milestone, MilestoneStatus, Store, ServiceError,
  is_pending_confirmation,
}
use kaktus.Services.Samples.{month, engaged}
use kaktus.Services.Offers.{
  transition_offer, plan_transition, plan_found, plan_of, build_context, is_initiator,
  commit_transition, cas_status, apply_effects, apply_effect, record_event,
}
use kaktus.Services.Offers.Effects.{update_engagement, update_coach}
use kaktus.Services.Run.{in_transaction, and_then, check_all, run_unless}
use kaktus.Services.Milestones
use kaktus.Services.Milestones.{
  Candidate, cas_milestone, release_transaction, open_disputes, is_ready, pay_rows, pay_out,
  pay_out_unless, complete_bookings, release_one, run_milestone_worker, sweep, WorkerResult,
  is_no_show_coach, milestone_in, at_or_before, maybe_complete_engagement, complete_found, complete,
  cas_engagement, complete_engagement,
}
use kaktus.Services.Milestones.Actions.{
  ApproveOutcome, approved, approval_transaction, approve_milestone_release, confirm_by_student,
  refuse_disputed, load_milestone,
}
use kaktus.Services.Milestones.Actions
use kaktus.Services.Milestones.Actions.Granted.{
  IsApprovable, approve_milestone_release-IsApprovable,
}
use kaktus.Services.Milestones.Earned.{IsEarned, IsPosted, release_one-IsEarned}
use kaktus.Services.Milestones.Release.{approval-posts-release, released_rows}
use kaktus.Services.Milestones.Silence.{released_on_silence}

abbrev first_month : Milestone
first_month = month 3 0 1000 MilestoneStatus.pending_confirmation

abbrev second_month : Milestone
second_month = month 4 1 500 MilestoneStatus.released

-- The offer's status is an argument: the engagement is active whatever it says.
abbrev waiting : OfferStatus → Store
waiting status = engaged status EngagementStatus.active (first_month ∷ second_month ∷ []) []

abbrev running : Engagement
running = record {
  id = 2;
  offer_id = 1;
  coach_profile_id = 7;
  student_profile_id = 5;
  status = EngagementStatus.active;
  start_date = 0;
  end_date = 100;
  total_minor = 1500;
  commission_bps = 1800;
  completed_at = none;
}

abbrev candidate : Candidate
candidate = record { milestone = first_month; engagement = running; bookings = [] }

-- What the service has done with the offer once a round of the worker has run at 50.
abbrev statuses : Store → List OfferStatus × List EngagementStatus
statuses s =
    (map (λ (o : Offer). o.status) s.offers, map (λ (e : Engagement). e.status) s.engagements)

-- Of an active offer the round pays the coach 820 of the 1000 and completes both; of an offer whose
-- first session nobody has started it completes the engagement and leaves the offer.
worker_completes :
    (coach_available_balance_minor (run_milestone_worker 50 (waiting active)).0 7 ≡ pos 820)
    × (statuses (run_milestone_worker 50 (waiting active)).0
        ≡ (completed ∷ [], EngagementStatus.completed ∷ []))
    × (statuses (run_milestone_worker 50 (waiting paid_in_escrow)).0
        ≡ (paid_in_escrow ∷ [], EngagementStatus.completed ∷ []))
unfolding run_milestone_worker Milestones.activate_milestones Milestones.close_milestones
    Milestones.auto_release_milestones sweep release_one Milestones.release_if
    Milestones.after_release in_transaction and_then release_transaction pay_out_unless pay_out
    pay_rows cas_milestone post_milestone_release post_group release_entries split_amount commission
    complete_bookings update_bookings maybe_complete_engagement complete_found complete
    complete_engagement cas_engagement update_coach transition_offer plan_transition plan_found
    plan_of build_context is_initiator commit_transition cas_status apply_effects apply_effect
    record_event update_engagement transition transitions index_get check_definition check_guards
    coach_available_balance_minor ◌+ℤ◌ ◌-ℤ◌
worker_completes = (refl, refl, refl)

released_on_silence_example :
    ((t : Store) × (release_transaction candidate 50 (waiting active) ≡ ok (true, t))
      × (t.milestones ≡ released_rows candidate 50 (waiting active)))
    × IsPosted candidate (waiting active) (release_one 50 candidate (waiting active)).0
released_on_silence_example =
    released_on_silence candidate 50 (waiting active) (40, refl, omega arith) tt tt refl
      (omega arith) (omega arith)

release_one-IsEarned_example :
    ((release_one 50 candidate (waiting active)).0 ≡ waiting active)
    ⊎ (IsEarned candidate 50 (waiting active)
        × (length (select (milestone_in 3 is_pending_confirmation) (waiting active).milestones) ≡ 1)
        × IsPosted candidate (waiting active) (release_one 50 candidate (waiting active)).0)
release_one-IsEarned_example = release_one-IsEarned 50 candidate (waiting active)

abbrev left_by : {A : Type 0} → Result ServiceError (A × Store) → Store
left_by (ok (_, t)) = t
left_by (err _) = waiting active

worker_pays :
    release_transaction candidate 50 (waiting active)
    ≡ ok (true, left_by (release_transaction candidate 50 (waiting active)))
unfolding release_transaction pay_out_unless pay_out pay_rows cas_milestone post_milestone_release
    post_group release_entries split_amount commission complete_bookings update_bookings ◌+ℤ◌ ◌-ℤ◌
worker_pays = refl

student_pays :
    approval_transaction candidate 50 (waiting active)
    ≡ ok (tt, left_by (approval_transaction candidate 50 (waiting active)))
unfolding approval_transaction refuse_disputed confirm_by_student pay_rows cas_milestone
    post_milestone_release post_group release_entries split_amount commission complete_bookings
    update_bookings ◌+ℤ◌ ◌-ℤ◌
student_pays = refl

approval-posts-release_example :
    (open_disputes 2 (waiting active) ≡ 0)
    × ((left_by (release_transaction candidate 50 (waiting active))).ledger_entries
        ≡ (left_by (approval_transaction candidate 50 (waiting active))).ledger_entries)
    × ((left_by (release_transaction candidate 50 (waiting active))).milestones
        ≡ (left_by (approval_transaction candidate 50 (waiting active))).milestones)
approval-posts-release_example =
    approval-posts-release candidate 50 (waiting active) worker_pays student_pays

abbrev approves_all : ℕ → ApproveOutcome
approves_all _ = approved

approval_returns :
    (approve_milestone_release approves_all 3 50 50 (waiting active)).1 ≡ ok (1000, true)
unfolding approve_milestone_release Actions.approve_loaded Actions.approve_ready check_all
    run_unless Actions.attempt Actions.settle_item Actions.note_approval update_milestone
    in_transaction and_then approval_transaction refuse_disputed confirm_by_student pay_rows
    cas_milestone post_milestone_release post_group release_entries split_amount commission
    complete_bookings update_bookings maybe_complete_engagement complete_found complete
    complete_engagement cas_engagement update_coach transition_offer plan_transition plan_found
    plan_of build_context is_initiator commit_transition cas_status apply_effects apply_effect
    record_event update_engagement transition transitions index_get check_definition check_guards
    ◌+ℤ◌ ◌-ℤ◌
approval_returns = refl

approve_milestone_release-IsApprovable_example :
    (c : Candidate) × (load_milestone 3 (waiting active) ≡ some c)
    × IsApprovable c 50 (waiting active)
    × IsPosted c
        (waiting active)
        (approve_milestone_release approves_all 3 50 50 (waiting active)).0
approve_milestone_release-IsApprovable_example =
    approve_milestone_release-IsApprovable approves_all 3 50 50 (waiting active) approval_returns
