-- ===== src/Services/Milestones/Actions/Sound.antt =====
-- What a student's approval runs once its transaction has gone through keeps what the operations
-- of the parts keep.
use kaktus.Base.{ℕ, Bool, false, Option, none, some, List}
use kaktus.Database.{Offer, Store}
use kaktus.Services.Run.{Run, and_then, return}
use kaktus.Services.Run.Leaves.{Leaves, in_transaction-Leaves, and_then-Leaves}
use kaktus.Services.Offers.Closed.{IsClosed, update_milestone-Keeps}
use kaktus.Services.Milestones.{Candidate, maybe_complete_engagement}
use kaktus.Services.Milestones.Actions.{
  attempt, ApproveOutcome, note_approval, approved, rejected, unreachable, settle_item,
}
use kaktus.Services.Milestones.Sound.{maybe_complete-Leaves, return-Leaves}

-- What follows the transaction of an approval.
abbrev pub after_approval : (ℕ → ApproveOutcome) → Candidate → ℕ → Run (ℕ × Bool)
after_approval item x now =
    and_then (attempt (maybe_complete_engagement x.engagement.id x.engagement.offer_id now)) λ _.
      and_then (settle_item item x now x.milestone.provider_transaction_id)
        λ accepted. return (x.milestone.amount_minor, accepted)

module _ (P : Store → Type 0) (c : IsClosed P)
    (free : (s : Store) (os : List Offer) → P s → P (record s { offers = os })) where
  attempt-Leaves : {A : Type 0} (m : Run A) → Leaves P m → Leaves P (attempt m)
  unfolding attempt
  attempt-Leaves m l s p = l s p

  note_approval-Leaves :
      (x : Candidate) (now : ℕ) (o : ApproveOutcome) → Leaves P (note_approval x now o)
  unfolding note_approval
  note_approval-Leaves x now approved =
      attempt-Leaves _ (in_transaction-Leaves P _ (update_milestone-Keeps P c _ _))
  note_approval-Leaves x now rejected = return-Leaves P c free false
  note_approval-Leaves x now unreachable = return-Leaves P c free false

  settle_item-Leaves :
      (item : ℕ → ApproveOutcome) (x : Candidate) (now : ℕ) (tx : Option ℕ)
      → Leaves P (settle_item item x now tx)
  unfolding settle_item
  settle_item-Leaves item x now none = return-Leaves P c free false
  settle_item-Leaves item x now (some t) = note_approval-Leaves x now (item t)

  pub after_approval-Leaves :
      (item : ℕ → ApproveOutcome) (x : Candidate) (now : ℕ) → Leaves P (after_approval item x now)
  after_approval-Leaves item x now =
      and_then-Leaves P _ _ (attempt-Leaves _ (maybe_complete-Leaves P c free _ _ now))
        (λ _. and_then-Leaves P _ _ (settle_item-Leaves item x now _) (λ _ t q. q))
