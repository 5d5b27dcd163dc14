-- ===== src/Jobs/Frequent.antt =====
-- jobs/workers.ts: everything on the five-minute tick, in its order.
use kaktus.Base.{ℕ, Bool, true, false, ◌&&◌, not, leb, select, update_where}
use kaktus.Booking.Holds.{expire_stale_holds}
use kaktus.Database.{OnboardingSession, MeetingInvite, InviteStatus, Refund, Store, Tx, ⊤, modify}
use kaktus.Services.Run.{in_transaction}
use kaktus.Services.Milestones.{run_milestone_worker}
use kaktus.Services.Milestones.Actions.{ApproveOutcome}
use kaktus.Services.Payments.{CheckoutRetrieveResult}
use kaktus.Jobs.Sweeps.{
  reconcile_stale_checkouts, expire_offers, start_engagements, approve_released_milestones,
}
use kaktus.Jobs.Refunds.{RefundOutcome, submit_pending_refunds}

unfoldable pub purge_expired_onboarding_sessions : ℕ → Tx ⊤
purge_expired_onboarding_sessions now = modify λ s. record s {
  onboarding_sessions =
      select (λ (o : OnboardingSession). not (leb o.expires_at now)) s.onboarding_sessions;
}

abbrev pub is_pending_invite : InviteStatus → Bool
is_pending_invite InviteStatus.pending = true
is_pending_invite _ = false

unfoldable pub expire_invites : ℕ → Tx ⊤
expire_invites now = modify λ s. record s {
  meeting_invites =
      update_where (λ (i : MeetingInvite). is_pending_invite i.status && leb i.starts_at now)
        (λ i. record i { status = InviteStatus.expired }) s.meeting_invites;
}

-- What the payment provider answers to each kind of call.
pub record Provider : Type 0 where
  pub retrieve_checkout : ℕ → CheckoutRetrieveResult
  pub approve_item : ℕ → ApproveOutcome
  pub refund_item : Refund → RefundOutcome

-- The counts that the jobs return are left out.
unfoldable pub run_frequent_jobs : Provider → ℕ → Store → Store
run_frequent_jobs provider now s₀ =
    let s₁ = (reconcile_stale_checkouts provider.retrieve_checkout now s₀).0 in
    let s₂ = (expire_offers now s₁).0 in
    let s₃ = (in_transaction (expire_stale_holds now) s₂).0 in
    let s₄ = (start_engagements now s₃).0 in
    let s₅ = (run_milestone_worker now s₄).0 in
    let s₆ = (approve_released_milestones provider.approve_item now s₅).0 in
    let s₇ = (submit_pending_refunds provider.refund_item now s₆).0 in
    let s₈ = (in_transaction (purge_expired_onboarding_sessions now) s₇).0 in
    (in_transaction (expire_invites now) s₈).0
