-- ===== src/Services/Milestones/Actions.antt =====
-- server/services/milestone-service.ts: the coach marks a milestone as done, the student approves
-- its release.
pub mod Sound
pub mod Granted
use kaktus.Base.{
  ℕ, Bool, true, false, ◌&&◌, ◌||◌, not, Option, none, some, List, [], ◌∷◌, ltb, leb, ◌==◌, Result,
  ok, err, is_ok, find, update_where,
}
use kaktus.Booking.Holds.{update_bookings}
use kaktus.Payments.Ledger.{post_milestone_release, ReleaseArgs, has_id, update_milestone}
use kaktus.Database.{
  Engagement, Milestone, MilestoneStatus, Booking, CoachProfile, StudentProfile, Store, Tx, ⊤,
  ◌>>=◌, ◌>>◌, pure, throw_if, gets, modify, when, ServiceError, not_found, forbidden, wrong_state,
  too_early, dispute_open, is_active, is_freezable, is_pending_confirmation, is_scheduled,
}
use kaktus.Services.Run.{Run, in_transaction, and_then, return, check_all, run_unless}
use kaktus.Services.Offers.Money.{release_args}
use kaktus.Services.Milestones.{
  cas_milestone, pay_rows, release_deadline, completable_at, open_disputes, mark_released,
  complete_bookings, maybe_complete_engagement, Candidate, bookings_of,
}

-- The owners' user ids, where the rows are there.
abbrev pub coach_user : ℕ → Store → Option ℕ
coach_user id s = elim (find (λ (c : CoachProfile). c.id == id) s.coach_profiles) [
  | some c ↦ some c.user_id
  | none ↦ none
]

abbrev pub student_user : ℕ → Store → Option ℕ
student_user id s = elim (find (λ (p : StudentProfile). p.id == id) s.student_profiles) [
  | some p ↦ some p.user_id
  | none ↦ none
]

abbrev pub candidate_with : Milestone → Store → Option Engagement → Option Candidate
candidate_with m s (some e) =
    some (record { milestone = m; engagement = e; bookings = bookings_of m.id s })
candidate_with m s none = none

-- MILESTONE_LOAD
abbrev pub load_milestone : ℕ → Store → Option Candidate
load_milestone id s = elim (find (λ (m : Milestone). m.id == id) s.milestones) [
  | some m ↦ candidate_with m s (find (λ (e : Engagement). e.id == m.engagement_id) s.engagements)
  | none ↦ none
]

abbrev pub completion_checks : Candidate → ℕ → ℕ → Store → List (Bool × ServiceError)
completion_checks c coach_user_id now s =
    (not (has_id coach_user_id (coach_user c.engagement.coach_profile_id s)), forbidden)
    ∷ (not (is_active c.engagement.status), wrong_state)
    ∷ (not (is_freezable c.milestone.status), wrong_state)
    ∷ (ltb now (completable_at c.milestone s), too_early)
    ∷ []

abbrev pub deadline_of : Milestone → ℕ → ℕ
deadline_of m now = elim m.auto_release_at [ some t ↦ t | none ↦ release_deadline now ]

abbrev pub is_open_period : MilestoneStatus → Bool
is_open_period MilestoneStatus.scheduled = true
is_open_period MilestoneStatus.in_progress = true
is_open_period _ = false

abbrev pub is_none : Option ℕ → Bool
is_none (some _) = false
is_none none = true

unfoldable pub confirm_by_coach : ℕ → ℕ → Tx ⊤
confirm_by_coach milestone now =
    update_bookings (λ b. has_id milestone b.milestone_id && is_none b.coach_confirmed_at)
      λ b. record b { coach_confirmed_at = some now }

unfoldable pub confirm_by_student : ℕ → ℕ → Tx ⊤
confirm_by_student milestone now =
    update_bookings (λ b. has_id milestone b.milestone_id && is_none b.student_confirmed_at)
      λ b. record b { student_confirmed_at = some now }

abbrev pub await_confirmation : ℕ → Milestone → Milestone
await_confirmation deadline m = record m {
  status = MilestoneStatus.pending_confirmation;
  auto_release_at = some deadline;
}

unfoldable pub refuse_disputed : ℕ → Tx ⊤
refuse_disputed engagement s = throw_if (ltb 0 (open_disputes engagement s)) dispute_open s

unfoldable pub completion_transaction : Candidate → ℕ → Tx ⊤
completion_transaction c now = do
  refuse_disputed c.engagement.id
  confirm_by_coach c.milestone.id now
  when (not (is_pending_confirmation c.milestone.status)) (
      cas_milestone c.milestone.id is_open_period
        (await_confirmation (deadline_of c.milestone now)))

unfoldable pub mark_loaded : Option Candidate → ℕ → ℕ → Run ℕ
mark_loaded none coach_user_id now s = (s, err not_found)
mark_loaded (some c) coach_user_id now s =
    run_unless (check_all (completion_checks c coach_user_id now s))
      (and_then (in_transaction (completion_transaction c now))
        λ _. return (deadline_of c.milestone now))
      s

unfoldable pub mark_milestone_completed : ℕ → ℕ → ℕ → Run ℕ
mark_milestone_completed id coach_user_id now s =
    mark_loaded (load_milestone id s) coach_user_id now s

abbrev pub approval_checks : Candidate → ℕ → Store → List (Bool × ServiceError)
approval_checks c student_user_id s =
    (not (has_id student_user_id (student_user c.engagement.student_profile_id s)), forbidden)
    ∷ (not (is_active c.engagement.status), wrong_state)
    ∷ (not (is_pending_confirmation c.milestone.status), wrong_state)
    ∷ []

abbrev pub any_end : Booking → Bool
any_end _ = true

unfoldable pub approval_transaction : Candidate → ℕ → Tx ⊤
approval_transaction c now = do
  refuse_disputed c.engagement.id
  confirm_by_student c.milestone.id now
  split ← pay_rows c now
  complete_bookings any_end c.milestone.id

-- A follow-up whose error is only logged: whether it went through.
unfoldable pub attempt : {A : Type 0} → Run A → Run Bool
attempt m s = ((m s).0, ok (is_ok (m s).1))

-- What the payment provider answers on an approval of a basket item, or that the call throws.
pub data ApproveOutcome : Type 0 where
  approved rejected unreachable : ApproveOutcome

unfoldable pub note_approval : Candidate → ℕ → ApproveOutcome → Run Bool
note_approval c now approved = attempt (
    in_transaction
      (update_milestone c.milestone.id λ m. record m { provider_approved_at = some now }))
note_approval c now rejected = return false
note_approval c now unreachable = return false

-- `approve_item` is the provider's call, which the program does not contain.
module _ (approve_item : ℕ → ApproveOutcome) where
  unfoldable pub settle_item : Candidate → ℕ → Option ℕ → Run Bool
  settle_item c now none = return false
  settle_item c now (some item) = note_approval c now (approve_item item)

  unfoldable pub approve_ready : Candidate → ℕ → Run (ℕ × Bool)
  approve_ready c now = and_then (in_transaction (approval_transaction c now)) λ _.
      and_then (attempt (maybe_complete_engagement c.engagement.id c.engagement.offer_id now)) λ _.
        and_then (settle_item c now c.milestone.provider_transaction_id)
          λ approved. return (c.milestone.amount_minor, approved)

  unfoldable pub approve_loaded : Option Candidate → ℕ → ℕ → Run (ℕ × Bool)
  approve_loaded none student_user_id now s = (s, err not_found)
  approve_loaded (some c) student_user_id now s =
      run_unless (check_all (approval_checks c student_user_id s)) (approve_ready c now) s

  unfoldable pub approve_milestone_release : ℕ → ℕ → ℕ → Run (ℕ × Bool)
  approve_milestone_release id student_user_id now s =
      approve_loaded (load_milestone id s) student_user_id now s
