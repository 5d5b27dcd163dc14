-- ===== src/Services/Milestones/Sound.antt =====
-- The worker leaves the ledger balanced and the calendars free of double
-- bookings, whatever is due and wherever a step throws.
use kaktus.Base.{
  ℕ, Bool, true, false, Option, none, some, List, [], ◌∷◌, refl, Result, ok, ltb, ◌==◌, find,
}
use kaktus.Payments.Ledger.Balance.{IsBalanced}
use kaktus.Booking.Holds.Exclusive.{IsExclusive}
use kaktus.Database
use kaktus.Database.{
  Offer, Booking, Engagement, Milestone, MilestoneStatus, Store, Tx, ⊤, ◌>>=◌, ◌>>◌, pure,
  ServiceError, is_active, is_pending_confirmation,
}
use kaktus.Database.Keeps.{Keeps, bind-Keeps, pure-Keeps, throw_if-Keeps, modify-Keeps}
use kaktus.Services.Run.{Run}
use kaktus.Services.Run.Leaves.{Leaves, in_transaction-Leaves, and_then-Leaves}
use kaktus.Services.Offers.Closed.{
  IsClosed, elsewhere-Keeps, update_coach-Keeps, post_milestone_release-Keeps,
}
use kaktus.Services.Offers.Invariants.{
  transition_offer-Leaves, IsBalanced-IsClosed, IsExclusive-IsClosed,
}
use kaktus.Services.Milestones.{
  sweep, JobResult, cas_milestone, activate_one, activate_milestones, close_one, close_milestones,
  Candidate, complete_bookings, pay_rows, pay_out, pay_out_unless, release_transaction,
  cas_engagement, complete_engagement, complete, complete_found, maybe_complete_engagement,
  after_release, release_if, release_one, auto_release_milestones, run_milestone_worker,
  outstanding, open_disputes, is_ready, empty_result, due_to_open, due_to_close, due_to_release,
}

module _ (P : Store → Type 0) (c : IsClosed P)
    (free : (s : Store) (os : List Offer) → P s → P (record s { offers = os })) where
  pub return-Leaves : {A : Type 0} (a : A) → Leaves P (λ s. (s, ok a))
  return-Leaves a s p = p

  pub sweep-Leaves :
      {A : Type 0} (skips : ServiceError → Bool) (job : A → Run Bool) (xs : List A) (r : JobResult)
      → ((x : A) → Leaves P (job x))
      → (s : Store) → P s
      → P (sweep skips job xs r s).0
  unfolding sweep
  sweep-Leaves skips job [] r l s p = p
  sweep-Leaves skips job (x ∷ xs) r l s p = sweep-Leaves skips job xs _ l (job x s).0 (l x s p)

  pub cas_milestone-Keeps :
      (id : ℕ) (from : MilestoneStatus → Bool) (change : Milestone → Milestone)
      → Keeps P (cas_milestone id from change)
  unfolding cas_milestone
  cas_milestone-Keeps id from change s =
      bind-Keeps P (Database.throw_if _ _) _ (throw_if-Keeps P _ _)
        (λ _. modify-Keeps P _ (elsewhere-Keeps P c _ (λ t. (refl, refl, refl, refl)))) s

  activate_one-Leaves : (m : Milestone) → Leaves P (activate_one m)
  unfolding activate_one
  activate_one-Leaves m =
      in_transaction-Leaves P _
        (bind-Keeps P _ _ (cas_milestone-Keeps _ _ _) (λ _. pure-Keeps P true))

  close_one-Leaves : (now : ℕ) (m : Milestone) → Leaves P (close_one now m)
  unfolding close_one
  close_one-Leaves now m =
      in_transaction-Leaves P _
        (bind-Keeps P _ _ (cas_milestone-Keeps _ _ _) (λ _. pure-Keeps P true))

  pub complete_bookings-Keeps :
      (ended : Booking → Bool) (milestone : ℕ) → Keeps P (complete_bookings ended milestone)
  unfolding complete_bookings
  complete_bookings-Keeps ended milestone = c.withdraws _ _ (λ coach t b taken. cc)

  pub pay_rows-Keeps : (x : Candidate) (now : ℕ) → Keeps P (pay_rows x now)
  unfolding pay_rows
  pay_rows-Keeps x now =
      bind-Keeps P _ _ (cas_milestone-Keeps _ _ _) (λ _. post_milestone_release-Keeps P c _)

  pay_out-Keeps : (x : Candidate) (now : ℕ) → Keeps P (pay_out x now)
  unfolding pay_out
  pay_out-Keeps x now =
      bind-Keeps P _ _ (pay_rows-Keeps x now)
        (λ split. bind-Keeps P _ _ (complete_bookings-Keeps _ _) (λ _. pure-Keeps P true))

  pay_out_unless-Keeps : (b : Bool) (x : Candidate) (now : ℕ) → Keeps P (pay_out_unless b x now)
  unfolding pay_out_unless
  pay_out_unless-Keeps true x now = pure-Keeps P false
  pay_out_unless-Keeps false x now = pay_out-Keeps x now

  release_transaction-Keeps : (x : Candidate) (now : ℕ) → Keeps P (release_transaction x now)
  unfolding release_transaction
  release_transaction-Keeps x now s =
      pay_out_unless-Keeps (ltb 0 (open_disputes x.engagement.id s)) x now s

  cas_engagement-Keeps :
      (id : ℕ) (change : Engagement → Engagement) → Keeps P (cas_engagement id change)
  unfolding cas_engagement
  cas_engagement-Keeps id change s =
      bind-Keeps P (Database.throw_if _ _) _ (throw_if-Keeps P _ _)
        (λ _. modify-Keeps P _ (elsewhere-Keeps P c _ (λ t. (refl, refl, refl, refl)))) s

  complete-Leaves : (e : Engagement) (offer now : ℕ) → Leaves P (complete e offer now)
  unfolding complete complete_engagement
  complete-Leaves e offer now =
      and_then-Leaves P _ _
        (in_transaction-Leaves P (complete_engagement e now)
          (bind-Keeps P _ _ (cas_engagement-Keeps _ _) (λ _. update_coach-Keeps P c _ _)))
        (λ _.
          and_then-Leaves P _ _ (transition_offer-Leaves P c free _ now) (λ _. return-Leaves true))

  complete_found-Leaves :
      (e : Option Engagement) (offer now : ℕ) → Leaves P (complete_found e offer now)
  unfolding complete_found
  complete_found-Leaves none offer now s p = p
  complete_found-Leaves (some e) offer now s p =
      elim (is_active e.status)
        as (λ b.
          P
            (elim b as (λ _. Store × Result ServiceError Bool) [
              | true ↦ complete e offer now s
              | false ↦ (s, ok false)
            ]).0) [ true ↦ complete-Leaves e offer now s p | false ↦ p ]

  pub maybe_complete-Leaves :
      (engagement offer now : ℕ) → Leaves P (maybe_complete_engagement engagement offer now)
  unfolding maybe_complete_engagement
  maybe_complete-Leaves engagement offer now s p =
      let row = find (λ (e : Engagement). e.id == engagement) s.engagements in
      elim (ltb 0 (outstanding engagement s))
        as (λ b.
          P
            (elim b as (λ _. Store × Result ServiceError Bool) [
              | true ↦ (s, ok false)
              | false ↦ complete_found row offer now s
            ]).0) [ true ↦ p | false ↦ complete_found-Leaves row offer now s p ]

  pub after_release-Leaves : (x : Candidate) (now : ℕ) (b : Bool) → Leaves P (after_release x now b)
  unfolding after_release
  after_release-Leaves x now false = return-Leaves false
  after_release-Leaves x now true =
      and_then-Leaves P _ _ (maybe_complete-Leaves _ _ now) (λ _. return-Leaves true)

  release_if-Leaves : (b : Bool) (x : Candidate) (now : ℕ) → Leaves P (release_if b x now)
  unfolding release_if
  release_if-Leaves false x now = return-Leaves false
  release_if-Leaves true x now =
      and_then-Leaves P _ _
        (in_transaction-Leaves P (release_transaction x now) (release_transaction-Keeps x now))
        (after_release-Leaves x now)

  release_one-Leaves : (now : ℕ) (x : Candidate) → Leaves P (release_one now x)
  unfolding release_one
  release_one-Leaves now x = release_if-Leaves (is_ready x now) x now

  pub run_milestone_worker-Leaves : (now : ℕ) (s : Store) → P s → P (run_milestone_worker now s).0
  unfolding run_milestone_worker activate_milestones close_milestones auto_release_milestones
  run_milestone_worker-Leaves now s p =
      let p₁ =
        sweep-Leaves _ activate_one (due_to_open now s) empty_result activate_one-Leaves s p in
      let s₁ = (activate_milestones now s).0 in
      let p₂ =
        sweep-Leaves _ (close_one now) (due_to_close now s₁) empty_result (close_one-Leaves now) s₁
          p₁ in
      let s₂ = (close_milestones now s₁).0 in
      sweep-Leaves _ (release_one now) (due_to_release now s₂) empty_result (release_one-Leaves now)
        s₂ p₂

-- A round of the milestone worker, whatever is due and wherever one of its steps throws, leaves the
-- ledger balanced and no coach double-booked, if so they were before.
pub run_milestone_worker_sound :
    (now : ℕ) (s : Store)
    → IsBalanced s
    → IsExclusive s
    → IsBalanced (run_milestone_worker now s).0 × IsExclusive (run_milestone_worker now s).0
run_milestone_worker_sound now s balanced exclusive = (
  run_milestone_worker-Leaves IsBalanced IsBalanced-IsClosed (λ u os p. p) now s balanced,
  run_milestone_worker-Leaves IsExclusive IsExclusive-IsClosed (λ u os p. p) now s exclusive,
)
