-- ===== src/Services/Milestones/Release.antt =====
-- What a payment of a milestone writes, by the worker or by the student's button.
use kaktus.Base.{
  ℕ, Bool, true, false, List, ◌++◌, map, ◌≡◌, refl, sym, ap, ◌∙◌, arith, ok, ltb, ◌==◌, ==→eq,
  select, update_where, length, Bool-cases, inl, inr,
}
use mathlib.Core.Path.{subst, ap₂}
use kaktus.Base.Int.{pos}
use kaktus.Payments.Split.{Split, split_amount}
use kaktus.Payments.Ledger.{release_entries, entry_row}
use kaktus.Payments.Ledger.Flow.{release_refs, post_milestone_release-inv}
use kaktus.Booking.Holds.{update_bookings}
use kaktus.Database.{
  Milestone, MilestoneStatus, Booking, Store, ⊤, >>=-ok, LedgerEntry, is_pending_confirmation,
}
use kaktus.Services.Offers.Money.{release_args}
use kaktus.Services.Milestones.{
  Candidate, cas_milestone, milestone_in, mark_released, complete_bookings, pay_rows, pay_out,
  pay_out_unless, release_transaction, open_disputes,
}
use kaktus.Services.Milestones.Actions.{approval_transaction, refuse_disputed, confirm_by_student}

abbrev pub released_rows : Candidate → ℕ → Store → List Milestone
released_rows c now s =
    update_where (milestone_in c.milestone.id is_pending_confirmation) (mark_released now)
      s.milestones

pub cas_milestone-inv :
    (id : ℕ) (from : MilestoneStatus → Bool) (change : Milestone → Milestone) (s : Store)
    {r : ⊤ × Store}
    → cas_milestone id from change s ≡ ok r
    → (length (select (milestone_in id from) s.milestones) ≡ 1)
      × (r.1 ≡ record s { milestones = update_where (milestone_in id from) change s.milestones })
unfolding cas_milestone
cas_milestone-inv id from change s h =
    elim (Bool-cases (length (select (milestone_in id from) s.milestones) == 1)) [
      | inl one ↦ (==→eq _ _ one, cc (rw one at h))
      | inr other ↦ cc (rw other at h)
    ]

-- A payment: the milestone awaited confirmation, and what is written is the entries of the release,
-- in a new group, and the status of the milestone.
abbrev pub Paid : Candidate → ℕ → Store → Store → Type 0
Paid c now s t =
    (split : Split) × (split_amount (pos c.milestone.amount_minor) (pos c.engagement.commission_bps)
      ≡ ok split)
    × (t.ledger_entries
        ≡ s.ledger_entries
          ++ map (entry_row s.next_id (release_refs (release_args c.engagement c.milestone)))
              (release_entries split))
    × (t.milestones ≡ released_rows c now s)
    × (length (select (milestone_in c.milestone.id is_pending_confirmation) s.milestones) ≡ 1)

pay_rows-Paid :
    (c : Candidate) (now : ℕ) (s : Store) {split : Split} {t : Store}
    → pay_rows c now s ≡ ok (split, t)
    → Paid c now s t
unfolding pay_rows
pay_rows-Paid c now s {split} {t} h =
    let (_, u, swapped, pays) =
      >>=-ok (cas_milestone c.milestone.id is_pending_confirmation (mark_released now)) _ s h in
    let (goes, shape) = post_milestone_release-inv (release_args c.engagement c.milestone) u pays in
    let (one, rows) =
      cas_milestone-inv c.milestone.id is_pending_confirmation (mark_released now) s swapped in
    (split, goes, rw shape (rw rows refl), rw shape (rw rows refl), one)

-- Changes of bookings write neither the ledger nor the milestones, and hand out no id.
abbrev pub Calm : Store → Store → Type 0
Calm s t =
    (t.ledger_entries ≡ s.ledger_entries) × (t.milestones ≡ s.milestones) × (t.next_id ≡ s.next_id)

pub update_bookings-Calm :
    (p : Booking → Bool) (f : Booking → Booking) (s : Store) {r : ⊤ × Store}
    → update_bookings p f s ≡ ok r
    → Calm s r.1
unfolding update_bookings
update_bookings-Calm p f s h = (cc h, cc h, cc h)

-- A payment between changes of bookings is a payment.
Paid-Calm :
    (c : Candidate) (now : ℕ) (s u v t : Store)
    → Calm s u
    → Paid c now u v
    → Calm v t
    → Paid c now s t
Paid-Calm c now s u v t (l₁, m₁, n₁) (split, goes, ledger, rows, one) (l₂, m₂, _) = (
  split,
  goes,
  l₂
      ∙ ledger
      ∙ ap₂
          (λ (l : List LedgerEntry) (n : ℕ).
            l
            ++ map (entry_row n (release_refs (release_args c.engagement c.milestone)))
                (release_entries split))
          l₁ n₁,
  m₂
      ∙ rows
      ∙ ap (update_where (milestone_in c.milestone.id is_pending_confirmation) (mark_released now))
          m₁,
  ap (λ ms. length (select (milestone_in c.milestone.id is_pending_confirmation) ms)) (sym m₁)
      ∙ one,
)

pub pay_out-Paid :
    (c : Candidate) (now : ℕ) (s : Store) {b : Bool} {t : Store}
    → pay_out c now s ≡ ok (b, t)
    → Paid c now s t
unfolding pay_out complete_bookings
pay_out-Paid c now s {b} {t} h =
    let (_, u, pays, rest) = >>=-ok (pay_rows c now) _ s h in
    let (_, v, completes, done) = >>=-ok (complete_bookings _ c.milestone.id) _ u rest in
    let same : v ≡ t = cc done in
    let end : Calm u t = subst (λ z. Calm u z) same (update_bookings-Calm _ _ u completes) in
    Paid-Calm c now s s u t (refl, refl, refl) (pay_rows-Paid c now s pays) end

pub none_open : (n : ℕ) → ltb 0 n ≡ false → n ≡ 0
none_open n h = ground arith

pub release_transaction-Paid :
    (c : Candidate) (now : ℕ) (s : Store) {t : Store}
    → release_transaction c now s ≡ ok (true, t)
    → (open_disputes c.engagement.id s ≡ 0) × Paid c now s t
unfolding release_transaction pay_out_unless
release_transaction-Paid c now s h = elim (Bool-cases (ltb 0 (open_disputes c.engagement.id s))) [
  | inl disputed ↦ cc (rw disputed at h)
  | inr calm ↦ (none_open _ calm, pay_out-Paid c now s (rw calm at h))
]

pub refuse_disputed-inv :
    (engagement : ℕ) (s : Store) {r : ⊤ × Store}
    → refuse_disputed engagement s ≡ ok r
    → (open_disputes engagement s ≡ 0) × (r.1 ≡ s)
unfolding refuse_disputed
refuse_disputed-inv engagement s h = elim (Bool-cases (ltb 0 (open_disputes engagement s))) [
  | inl disputed ↦ cc (rw disputed at h)
  | inr calm ↦ (none_open _ calm, cc (rw calm at h))
]

pub approval_transaction-Paid :
    (c : Candidate) (now : ℕ) (s : Store) {t : Store}
    → approval_transaction c now s ≡ ok (tt, t)
    → (open_disputes c.engagement.id s ≡ 0) × Paid c now s t
unfolding approval_transaction confirm_by_student complete_bookings
approval_transaction-Paid c now s {t} h =
    let (_, u, allowed, rest) = >>=-ok (refuse_disputed c.engagement.id) _ s h in
    let (calm, same) = refuse_disputed-inv c.engagement.id s allowed in
    let (_, v, confirms, rest') = >>=-ok (confirm_by_student c.milestone.id now) _ u rest in
    let (_, w, pays, completes) = >>=-ok (pay_rows c now) _ v rest' in
    let start : Calm s v = subst (λ z. Calm z v) same (update_bookings-Calm _ _ u confirms) in
    let end : Calm w t = update_bookings-Calm _ _ w completes in
    (calm, Paid-Calm c now s v w t start (pay_rows-Paid c now v pays) end)

-- Where the worker pays a milestone out and the student's approval of the same milestone in the same
-- state goes through as well, both post the same entries, under the same group, and leave the same
-- milestones; and in neither case is a dispute open.
pub approval-posts-release :
    (c : Candidate) (now : ℕ) (s : Store) {t u : Store}
    → release_transaction c now s ≡ ok (true, t)
    → approval_transaction c now s ≡ ok (tt, u)
    → (open_disputes c.engagement.id s ≡ 0)
      × (t.ledger_entries ≡ u.ledger_entries)
      × (t.milestones ≡ u.milestones)
approval-posts-release c now s releases approves =
    let (calm, paid) = release_transaction-Paid c now s releases in
    let (_, paid') = approval_transaction-Paid c now s approves in
    let (split, goes, ledger, rows, _) = paid in
    let (split', goes', ledger', rows', _) = paid' in
    let same : split ≡ split' = cc (sym goes ∙ goes') in
    let refs = release_refs (release_args c.engagement c.milestone) in
    (
      calm,
      ledger
          ∙ ap
              (λ (x : Split).
                s.ledger_entries ++ map (entry_row s.next_id refs) (release_entries x))
              same
          ∙ sym ledger',
      rows ∙ sym rows',
    )
