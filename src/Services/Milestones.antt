-- ===== src/Services/Milestones.antt =====
-- jobs/milestones.ts: the worker that opens, closes and releases milestones. The lock that it tries
-- for is free where transactions run one after another.
pub mod Actions
pub mod Sound
pub mod Release
pub mod Earned
pub mod Silence
mod Tests
use kaktus.Base.{
  ℕ, suc, ◌+◌, ◌*◌, Bool, true, false, ◌&&◌, ◌||◌, not, Option, none, some, List, [], ◌∷◌, map, ltb,
  leb, ◌==◌, Result, ok, err, any, every, find, select, update_where, length, take,
}
use kaktus.Base.Int.{pos, ◌+ℤ◌, ◌-ℤ◌}
use kaktus.Offers.Scope.{BookingStatus, Session, milestone_completable_at}
use kaktus.Booking.Holds.{update_bookings}
use kaktus.Offers.StateMachine.{system, all_milestones_released}
use kaktus.Payments.Split.{Split}
use kaktus.Payments.Ledger.{post_milestone_release, ReleaseArgs, has_id}
use kaktus.Database.{
  Engagement, EngagementStatus, Milestone, MilestoneStatus, Booking, Store, Tx, ⊤, ◌>>=◌, ◌>>◌,
  pure, throw_if, gets, modify, ServiceError, concurrent_modification, is_open, is_active,
  is_unsettled, is_pending_confirmation, is_scheduled,
}
use kaktus.Services.Run.{Run, in_transaction, and_then, return}
use kaktus.Services.Offers.{TransitionRequest, transition_offer}
use kaktus.Services.Offers.Effects.{update_coach}
use kaktus.Services.Offers.Money.{release_args}

abbrev pub auto_release_days : ℕ
auto_release_days = 5

abbrev pub batch_size : ℕ
batch_size = 200

-- `errors` holds the id and the message of what failed; its length is `failed`.
pub record JobResult : Type 0 where
  pub processed : ℕ
  pub skipped : ℕ
  pub failed : ℕ

abbrev pub empty_result : JobResult
empty_result = record { processed = 0; skipped = 0; failed = 0 }

abbrev pub is_concurrent : ServiceError → Bool
is_concurrent concurrent_modification = true
is_concurrent _ = false

-- How the loops count: what ran, what had nothing to do, and what threw.
abbrev pub counted_error : Bool → JobResult → JobResult
counted_error true r = record r { skipped = suc r.skipped }
counted_error false r = record r { failed = suc r.failed }

abbrev pub counted : (ServiceError → Bool) → Result ServiceError Bool → JobResult → JobResult
counted skips (ok true) r = record r { processed = suc r.processed }
counted skips (ok false) r = record r { skipped = suc r.skipped }
counted skips (err e) r = counted_error (skips e) r

-- `for (const x of due) try { … } catch …`: an error never ends the loop.
unfoldable pub sweep :
    {A : Type 0}
    → (ServiceError → Bool)
    → (A → Run Bool)
    → List A
    → JobResult
    → Store
    → Store × JobResult
sweep skips job [] r s = (s, r)
sweep skips job (x ∷ xs) r s = sweep skips job xs (counted skips (job x s).1 r) (job x s).0

-- casStatus on milestones
abbrev pub milestone_in : ℕ → (MilestoneStatus → Bool) → Milestone → Bool
milestone_in id from m = (m.id == id) && from m.status

unfoldable pub cas_milestone : ℕ → (MilestoneStatus → Bool) → (Milestone → Milestone) → Tx ⊤
cas_milestone id from change = do
  count ← gets (λ s. length (select (milestone_in id from) s.milestones))
  throw_if (not (count == 1)) concurrent_modification
  modify λ s. record s { milestones = update_where (milestone_in id from) change s.milestones }

abbrev pub in_status_scheduled : MilestoneStatus → Bool
in_status_scheduled MilestoneStatus.scheduled = true
in_status_scheduled _ = false

abbrev pub in_status_in_progress : MilestoneStatus → Bool
in_status_in_progress MilestoneStatus.in_progress = true
in_status_in_progress _ = false

-- engagement: { status: 'ACTIVE' }
abbrev pub engagement_active : ℕ → Store → Bool
engagement_active id s = any (λ (e : Engagement). (e.id == id) && is_active e.status) s.engagements

abbrev pub bookings_of : ℕ → Store → List Booking
bookings_of milestone s = select (λ b. has_id milestone b.milestone_id) s.bookings

abbrev pub due_to_open : ℕ → Store → List Milestone
due_to_open now s = take batch_size (
    select
      (λ m.
        in_status_scheduled m.status
        && leb m.period_start now
        && engagement_active m.engagement_id s)
      s.milestones)

unfoldable pub activate_one : Milestone → Run Bool
activate_one m = in_transaction (
    cas_milestone m.id in_status_scheduled (λ x. record x { status = MilestoneStatus.in_progress })
    >> pure true)

unfoldable pub activate_milestones : ℕ → Store → Store × JobResult
activate_milestones now s = sweep is_concurrent activate_one (due_to_open now s) empty_result s

abbrev pub session_of : Booking → Session
session_of b = record { ends_at = b.ends_at; status = b.status }

abbrev pub completable_at : Milestone → Store → ℕ
completable_at m s = milestone_completable_at (map session_of (bookings_of m.id s)) m.period_end

abbrev pub due_to_close : ℕ → Store → List Milestone
due_to_close now s =
    select (λ m. leb (completable_at m s) now)
      (take batch_size (
        select
          (λ m.
            in_status_in_progress m.status
            && leb m.period_end now
            && engagement_active m.engagement_id s)
          s.milestones))

-- `autoReleaseAt`, five days from now.
abbrev pub release_deadline : ℕ → ℕ
release_deadline now = now + auto_release_days * 24 * 3600 * 1000

unfoldable pub close_one : ℕ → Milestone → Run Bool
close_one now m = in_transaction (
    cas_milestone m.id in_status_in_progress (λ x. record x {
      status = MilestoneStatus.pending_confirmation;
      auto_release_at = some (release_deadline now);
    })
    >> pure true)

unfoldable pub close_milestones : ℕ → Store → Store × JobResult
close_milestones now s = sweep is_concurrent (close_one now) (due_to_close now s) empty_result s

-- A candidate with what the query loads beside it.
pub record Candidate : Type 0 where
  pub milestone : Milestone
  pub engagement : Engagement
  pub bookings : List Booking

abbrev pub is_some : {A : Type 0} → Option A → Bool
is_some (some _) = true
is_some none = false

abbrev pub at_or_before : Option ℕ → ℕ → Bool
at_or_before (some t) now = leb t now
at_or_before none now = false

abbrev pub is_completed : BookingStatus → Bool
is_completed BookingStatus.completed = true
is_completed _ = false

abbrev pub is_no_show_coach : BookingStatus → Bool
is_no_show_coach BookingStatus.no_show_coach = true
is_no_show_coach _ = false

abbrev pub is_confirmed : Booking → Bool
is_confirmed b =
    is_completed b.status || (is_some b.coach_confirmed_at && is_some b.student_confirmed_at)

abbrev pub is_candidate : ℕ → Store → Milestone → Bool
is_candidate now s m =
    is_pending_confirmation m.status
    && engagement_active m.engagement_id s
    && (at_or_before m.auto_release_at now || every is_confirmed (bookings_of m.id s))

abbrev pub with_engagements : Store → List Milestone → List Candidate
with_engagements s [] = []
with_engagements s (m ∷ ms) =
    elim (find (λ (e : Engagement). e.id == m.engagement_id) s.engagements) [
      | some e ↦
          record { milestone = m; engagement = e; bookings = bookings_of m.id s }
          ∷ with_engagements s ms
      | none ↦ with_engagements s ms
    ]

abbrev pub due_to_release : ℕ → Store → List Candidate
due_to_release now s =
    with_engagements s (take batch_size (select (is_candidate now s) s.milestones))

-- Sessions with no outcome, that have ended, become completed.
unfoldable pub complete_bookings : (Booking → Bool) → ℕ → Tx ⊤
complete_bookings ended milestone =
    update_bookings (λ b. has_id milestone b.milestone_id && is_scheduled b.status && ended b)
      λ b. record b { status = BookingStatus.completed }

abbrev pub mark_released : ℕ → Milestone → Milestone
mark_released now m = record m { status = MilestoneStatus.released; released_at = some now }

-- The status write and the posting, which the student's approval shares.
unfoldable pub pay_rows : Candidate → ℕ → Tx Split
pay_rows c now =
    cas_milestone c.milestone.id is_pending_confirmation (mark_released now)
    >> post_milestone_release (release_args c.engagement c.milestone)

unfoldable pub pay_out : Candidate → ℕ → Tx Bool
pay_out c now = do
  split ← pay_rows c now
  complete_bookings (λ b. leb b.ends_at now) c.milestone.id
  pure true

abbrev pub open_disputes : ℕ → Store → ℕ
open_disputes engagement s =
    length (select (λ d. (d.engagement_id == engagement) && is_open d.status) s.disputes)

unfoldable pub pay_out_unless : Bool → Candidate → ℕ → Tx Bool
pay_out_unless true c now = pure false
pay_out_unless false c now = pay_out c now

-- The transaction of `releaseOne`.
unfoldable pub release_transaction : Candidate → ℕ → Tx Bool
release_transaction c now s = pay_out_unless (ltb 0 (open_disputes c.engagement.id s)) c now s

unfoldable pub cas_engagement : ℕ → (Engagement → Engagement) → Tx ⊤
cas_engagement id change = do
  count ←
      gets (λ s.
        length (select (λ (e : Engagement). (e.id == id) && is_active e.status) s.engagements))
  throw_if (not (count == 1)) concurrent_modification
  modify λ s. record s {
    engagements = update_where (λ e. (e.id == id) && is_active e.status) change s.engagements;
  }

unfoldable pub complete_engagement : Engagement → ℕ → Tx ⊤
complete_engagement e now = do
  cas_engagement e.id λ x. record x { status = EngagementStatus.completed; completed_at = some now }
  update_coach e.coach_profile_id λ c. record c {
    active_engagements = c.active_engagements -ℤ pos 1;
    completed_engagements = suc c.completed_engagements;
  }

abbrev pub completion_request : ℕ → TransitionRequest
completion_request offer = record {
  offer_id = offer;
  event = all_milestones_released;
  actor = system;
  actor_profile_id = none;
  expected_status = none;
  superseded_by_offer_id = none;
}

abbrev pub outstanding : ℕ → Store → ℕ
outstanding engagement s =
    length (select (λ m. (m.engagement_id == engagement) && is_unsettled m.status) s.milestones)

-- The engagement and then the offer, in a transaction each.
unfoldable pub complete : Engagement → ℕ → ℕ → Run Bool
complete e offer now = and_then (in_transaction (complete_engagement e now)) λ _.
    and_then (in_transaction (transition_offer (completion_request offer) now)) λ _. return true

unfoldable pub complete_found : Option Engagement → ℕ → ℕ → Run Bool
complete_found none offer now s = (s, ok false)
complete_found (some e) offer now s = elim (is_active e.status) [
  | true ↦ complete e offer now s
  | false ↦ (s, ok false)
]

unfoldable pub maybe_complete_engagement : ℕ → ℕ → ℕ → Run Bool
maybe_complete_engagement engagement offer now s = elim (ltb 0 (outstanding engagement s)) [
  | true ↦ (s, ok false)
  | false ↦ complete_found (find (λ (e : Engagement). e.id == engagement) s.engagements) offer now s
]

-- A coach no-show blocks the release whatever the clock says.
abbrev pub is_ready : Candidate → ℕ → Bool
is_ready c now =
    not (any (λ (b : Booking). is_no_show_coach b.status) c.bookings)
    && (at_or_before c.milestone.auto_release_at now
        || (ltb 0 (length c.bookings) && every is_confirmed c.bookings))

unfoldable pub after_release : Candidate → ℕ → Bool → Run Bool
after_release c now false = return false
after_release c now true =
    and_then (maybe_complete_engagement c.engagement.id c.engagement.offer_id now) λ _. return true

unfoldable pub release_if : Bool → Candidate → ℕ → Run Bool
release_if false c now = return false
release_if true c now = and_then (in_transaction (release_transaction c now)) (after_release c now)

unfoldable pub release_one : ℕ → Candidate → Run Bool
release_one now c = release_if (is_ready c now) c now

abbrev pub skips_none : ServiceError → Bool
skips_none _ = false

unfoldable pub auto_release_milestones : ℕ → Store → Store × JobResult
auto_release_milestones now s =
    sweep skips_none (release_one now) (due_to_release now s) empty_result s

pub record WorkerResult : Type 0 where
  pub activated : JobResult
  pub closed : JobResult
  pub released : JobResult

unfoldable pub run_milestone_worker : ℕ → Store → Store × WorkerResult
run_milestone_worker now s =
    let (s₁, activated) = activate_milestones now s in
    let (s₂, closed) = close_milestones now s₁ in
    let (s₃, released) = auto_release_milestones now s₂ in
    (s₃, record { activated = activated; closed = closed; released = released })
