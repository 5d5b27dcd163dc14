-- ===== src/Services/Milestones/Actions/Granted.antt =====
-- Who may approve or complete a milestone, and when: what a call that returns has checked and written.
use kaktus.Base.{
  ℕ, ◌≤◌, Bool, true, false, not, Option, none, some, ◌≡◌, refl, sym, ap, ◌∙◌, arith, ok, ==→eq,
  ◌⊎◌, update_where,
}
use mathlib.Core.Path.{subst}
use kaktus.Payments.Ledger.{has_id}
use kaktus.Database.{EngagementStatus, MilestoneStatus, Store, is_active, is_pending_confirmation}
use kaktus.Services.Run.{
  in_transaction, and_then-ok, in_transaction-ok, check_all, check_all-none, run_unless-ok,
}
use kaktus.Services.Offers.Appended.{Extends, Extends-IsClosed}
use kaktus.Services.Milestones.{Candidate, completable_at, milestone_in}
use kaktus.Services.Milestones.Earned.{IsUndisputed, IsPosted, Paid-IsPosted, undisputed}
use kaktus.Services.Milestones.Release.{approval_transaction-Paid}
use kaktus.Services.Milestones.Actions.{
  ApproveOutcome, approve_milestone_release, approve_loaded, approve_ready, approval_checks,
  approval_transaction, load_milestone, student_user, coach_user, is_open_period,
  await_confirmation,
}
use kaktus.Services.Milestones.Actions.Sound.{after_approval, after_approval-Leaves}

pub has_id-some : (n : ℕ) (o : Option ℕ) → has_id n o ≡ true → o ≡ some n
has_id-some n (some m) h = ap some (==→eq m n h)
has_id-some n none h = cc h

pub not-false : (b : Bool) → not b ≡ false → b ≡ true
not-false true h = refl
not-false false h = cc h

active : (e : EngagementStatus) → is_active e ≡ true → e ≡ EngagementStatus.active
active e h = ground arith

pending :
    (m : MilestoneStatus)
    → is_pending_confirmation m ≡ true
    → m ≡ MilestoneStatus.pending_confirmation
pending m h = ground arith

-- What an approval needs: the engagement's student asks, the engagement is active, the milestone
-- awaits confirmation, and no dispute is open.
abbrev pub IsApprovable : Candidate → ℕ → Store → Type 0
IsApprovable c user s =
    (student_user c.engagement.student_profile_id s ≡ some user)
    × (c.engagement.status ≡ EngagementStatus.active)
    × (c.milestone.status ≡ MilestoneStatus.pending_confirmation)
    × IsUndisputed c.engagement.id s

approval_checks-none :
    (c : Candidate) (user : ℕ) (s : Store)
    → check_all (approval_checks c user s) ≡ none
    → (student_user c.engagement.student_profile_id s ≡ some user)
      × (c.engagement.status ≡ EngagementStatus.active)
      × (c.milestone.status ≡ MilestoneStatus.pending_confirmation)
approval_checks-none c user s h =
    let (own, h₁) = check_all-none _ _ _ h in
    let (live, h₂) = check_all-none _ _ _ h₁ in
    let (waits, _) = check_all-none _ _ _ h₂ in
    (
      has_id-some user _ (not-false _ own),
      active _ (not-false _ live),
      pending _ (not-false _ waits),
    )

module _ (item : ℕ → ApproveOutcome) where
  approve_ready-inv :
      (c : Candidate) (now : ℕ) (s : Store) {r : ℕ × Bool}
      → (approve_ready item c now s).1 ≡ ok r
      → IsUndisputed c.engagement.id s × IsPosted c s (approve_ready item c now s).0
  unfolding approve_ready
  approve_ready-inv c now s h =
      let (_, goes, _, leaves) = and_then-ok (in_transaction (approval_transaction c now)) _ s h in
      let t = (in_transaction (approval_transaction c now) s).0 in
      let (calm, paid) =
        approval_transaction-Paid c now s (in_transaction-ok (approval_transaction c now) s goes) in
      (
        undisputed c.engagement.id s calm,
        subst (IsPosted c s) (sym leaves) (
            Paid-IsPosted c now s t (after_approval item c now)
              (after_approval-Leaves (Extends t.ledger_entries) (Extends-IsClosed t.ledger_entries)
                (λ u os e. e) item c now)
              paid),
      )

  approve_loaded-inv :
      (o : Option Candidate) (user now : ℕ) (s : Store) {r : ℕ × Bool}
      → (approve_loaded item o user now s).1 ≡ ok r
      → (c : Candidate) × (o ≡ some c)
        × IsApprovable c user s
        × IsPosted c s (approve_loaded item o user now s).0
  unfolding approve_loaded
  approve_loaded-inv none user now s h = cc h
  approve_loaded-inv (some c) user now s h =
      let (checked, same) =
        run_unless-ok (check_all (approval_checks c user s)) (approve_ready item c now) s h in
      let (own, live, waits) = approval_checks-none c user s checked in
      let (calm, posted) = approve_ready-inv c now s (ap (λ x. x.1) (sym same) ∙ h) in
      (c, refl, (own, live, waits, calm), subst (λ x. IsPosted c s x.0) (sym same) posted)

-- Where the approval of a milestone's release returns, the caller is the student of its engagement,
-- the engagement is active, the milestone awaited confirmation, and no dispute on the engagement is
-- open, waits for evidence or is under review; and, whatever the payment provider answers, the
-- ledger is extended by the entries of the release.
pub approve_milestone_release-IsApprovable :
    (item : ℕ → ApproveOutcome) (id user now : ℕ) (s : Store) {r : ℕ × Bool}
    → (approve_milestone_release item id user now s).1 ≡ ok r
    → (c : Candidate) × (load_milestone id s ≡ some c)
      × IsApprovable c user s
      × IsPosted c s (approve_milestone_release item id user now s).0
unfolding approve_milestone_release
approve_milestone_release-IsApprovable item id user now s h =
    approve_loaded-inv item (load_milestone id s) user now s h

-- What a completion needs: the engagement's coach asks, the engagement is active, the milestone is
-- not settled, its last session or its period is over, and no dispute is open.
abbrev pub IsCompletable : Candidate → ℕ → ℕ → Store → Type 0
IsCompletable c user now s =
    (coach_user c.engagement.coach_profile_id s ≡ some user)
    × (c.engagement.status ≡ EngagementStatus.active)
    × ((c.milestone.status ≡ MilestoneStatus.scheduled)
        ⊎ ((c.milestone.status ≡ MilestoneStatus.in_progress)
            ⊎ (c.milestone.status ≡ MilestoneStatus.pending_confirmation)))
    × (completable_at c.milestone s ≤ now)
    × IsUndisputed c.engagement.id s

-- What a completion writes: the milestone awaits confirmation until the deadline, unless it does so
-- already.
abbrev pub IsAwaited : Candidate → ℕ → Store → Store → Type 0
IsAwaited c deadline s u =
    ((c.milestone.status ≡ MilestoneStatus.pending_confirmation) × (u.milestones ≡ s.milestones))
    ⊎ (u.milestones
        ≡ update_where (milestone_in c.milestone.id is_open_period) (await_confirmation deadline)
            s.milestones)
