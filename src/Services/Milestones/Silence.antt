-- ===== src/Services/Milestones/Silence.antt =====
-- Silence means approval: once the deadline has passed, nothing but a dispute or a no-show keeps the
-- worker from paying the coach.
use kaktus.Base.{
  ℕ, ◌+◌, ◌≤◌, ◌<◌, Bool, true, ◌&&◌, List, ◌≡◌, refl, ap, ◌∙◌, arith, ok, leb, any, select,
  update_where, length, Result-cases, ◌≢◌, ==→eq, ◌==◌, false, Bool-cases, All-any, All-imp,
  none-of_All, inl, inr,
}
use kaktus.Base.Int.{pos, ◌+ℤ◌, ◌-ℤ◌, eqb_ℤ}
use kaktus.Payments.Split.{Split, split_amount}
use kaktus.Payments.Split.Commission.{split_amount_sound, split_amount_iff}
use kaktus.Payments.Ledger.{
  post_group, post_milestone_release, ReleaseArgs, Refs, EntryInput, release_entries, balance_from,
  has_id, not_positive,
}
use kaktus.Payments.Ledger.Flow.{posted, release_refs}
use kaktus.Booking.Holds.{update_bookings}
use kaktus.Offers.Scope.{BookingStatus}
use kaktus.Database.{
  Milestone, MilestoneStatus, Booking, Dispute, DisputeStatus, is_open, Store, >>=-next, ◌>>=◌,
  ◌>>◌, lift, bad_split, pure, is_pending_confirmation, is_scheduled,
}
use kaktus.Services.Offers.Money.{release_args}
use kaktus.Services.Milestones.{
  Candidate, cas_milestone, milestone_in, mark_released, complete_bookings, pay_rows, pay_out,
  pay_out_unless, release_transaction, release_one, is_ready, open_disputes, is_no_show_coach,
}
use kaktus.Services.Milestones.Release.{released_rows, release_transaction-Paid}
use kaktus.Services.Milestones.Earned.{
  IsAttended, IsOverdue, IsUndisputed, IsPosted, release_if-IsPosted,
}

post_group-ok :
    (es : List EntryInput) (refs : Refs) (s : Store)
    → eqb_ℤ (balance_from (pos 0) es) (pos 0) ≡ true
    → any not_positive es ≡ false
    → post_group es refs s ≡ ok (s.next_id, posted s es refs)
unfolding post_group
post_group-ok es refs s even positive = rw (even, positive) refl

-- The entries of a split that makes up the gross amount balance, and none is zero.
release_entries-fit :
    (split : Split)
    → split.commission_minor + split.net_to_coach_minor ≡ split.gross_minor
    → 0 < split.net_to_coach_minor
    → (eqb_ℤ (balance_from (pos 0) (release_entries split)) (pos 0) ≡ true)
      × (any not_positive (release_entries split) ≡ false)
unfolding release_entries ◌+ℤ◌ ◌-ℤ◌
release_entries-fit split sums net = ground arith

posted_split :
    (args : ReleaseArgs) (s : Store) (split : Split)
    → split_amount (pos args.amount_minor) (pos args.commission_bps) ≡ ok split
    → post_group (release_entries split) (release_refs args) s
      ≡ ok (s.next_id, posted s (release_entries split) (release_refs args))
    → post_milestone_release args s
      ≡ ok (split, posted s (release_entries split) (release_refs args))
unfolding post_milestone_release
posted_split args s split goes posts =
    >>=-next (lift bad_split (split_amount (pos args.amount_minor) (pos args.commission_bps)))
      (λ x. post_group (release_entries x) (release_refs args) >>= λ _. pure x) s
      (ap (λ r. lift bad_split r s) goes)
    ∙ >>=-next (post_group (release_entries split) (release_refs args)) (λ _. pure split) s posts

post_milestone_release-ok :
    (args : ReleaseArgs) (s : Store)
    → 1 ≤ args.amount_minor
    → args.commission_bps ≤ 5000
    → (split : Split) × (post_milestone_release args s
        ≡ ok (split, posted s (release_entries split) (release_refs args)))
post_milestone_release-ok args s amount rate =
    elim (Result-cases (split_amount (pos args.amount_minor) (pos args.commission_bps))) [
      | inr (e, refused) ↦ absurd (
          cc (
            rw refused at (
              (split_amount_iff (pos args.amount_minor) (pos args.commission_bps)).1
                (ground arith))))
      | inl (split, goes) ↦
          let (_, sums, net, _, _, _) = split_amount_sound _ _ goes in
          let (even, positive) = release_entries-fit split sums net in
          let entries = release_entries split in
          let posts = post_group-ok entries (release_refs args) s even positive in
          (split, posted_split args s split goes posts)
    ]

cas_milestone-ok :
    (id : ℕ) (from : MilestoneStatus → Bool) (change : Milestone → Milestone) (s : Store)
    → length (select (milestone_in id from) s.milestones) ≡ 1
    → cas_milestone id from change s
      ≡ ok (tt, record s { milestones = update_where (milestone_in id from) change s.milestones })
unfolding cas_milestone
cas_milestone-ok id from change s one = rw one refl

is_ready-overdue :
    (c : Candidate) (now : ℕ) → IsAttended c.bookings → IsOverdue c now → is_ready c now ≡ true
is_ready-overdue c now all_there (t, deadline, passed) =
    let missed_none : any (λ (b : Booking). is_no_show_coach b.status) c.bookings ≡ false =
      All-any _ c.bookings (
        All-imp (λ (b : Booking). b.status ≢ BookingStatus.no_show_coach)
          (λ (b : Booking). is_no_show_coach b.status ≡ false) there c.bookings all_there) in
    let over : leb t now ≡ true = ground arith in rw (missed_none, deadline, over) refl
  where
    there :
        (b : Booking) → b.status ≢ BookingStatus.no_show_coach → is_no_show_coach b.status ≡ false
    there b h = ground arith

shut :
    (x : DisputeStatus)
    → x ≢ DisputeStatus.open_
    → x ≢ DisputeStatus.awaiting_evidence
    → x ≢ DisputeStatus.under_review
    → is_open x ≡ false
shut x a b c = ground arith

undisputed-calm :
    (engagement : ℕ) (s : Store) → IsUndisputed engagement s → open_disputes engagement s ≡ 0
undisputed-calm engagement s h =
    none-of_All (λ (d : Dispute). (d.engagement_id == engagement) && is_open d.status) s.disputes
      (All-imp _ (λ (d : Dispute). (d.engagement_id == engagement) && is_open d.status ≡ false)
        (λ (d : Dispute) k. closed d engagement k) s.disputes h)
  where
    closed :
        (d : Dispute) (engagement : ℕ)
        → (d.engagement_id ≡ engagement
            → (d.status ≢ DisputeStatus.open_)
              × (d.status ≢ DisputeStatus.awaiting_evidence)
              × (d.status ≢ DisputeStatus.under_review))
        → (d.engagement_id == engagement) && is_open d.status ≡ false
    closed d engagement k = elim (Bool-cases (d.engagement_id == engagement)) [
      | inr other ↦ rw other refl
      | inl same ↦
          let (a, b, c) = k (==→eq d.engagement_id engagement same) in rw same (shut d.status a b c)
    ]

-- The worker's transaction goes through on a milestone that awaits confirmation.
release_transaction-ok :
    (c : Candidate) (now : ℕ) (s : Store)
    → open_disputes c.engagement.id s ≡ 0
    → length (select (milestone_in c.milestone.id is_pending_confirmation) s.milestones) ≡ 1
    → 1 ≤ c.milestone.amount_minor
    → c.engagement.commission_bps ≤ 5000
    → (t : Store) × (release_transaction c now s ≡ ok (true, t))
unfolding release_transaction pay_out_unless pay_out pay_rows complete_bookings update_bookings
release_transaction-ok c now s calm one amount rate =
    let s₁ : Store = record s { milestones = released_rows c now s } in
    let swaps = cas_milestone-ok c.milestone.id is_pending_confirmation (mark_released now) s one in
    let (split, pays) =
      post_milestone_release-ok (release_args c.engagement c.milestone) s₁ amount rate in
    let pays_rows =
      >>=-next (cas_milestone c.milestone.id is_pending_confirmation (mark_released now))
        (λ _. post_milestone_release (release_args c.engagement c.milestone)) s swaps
      ∙ pays in
    let ended : Booking → Bool =
      λ b. has_id c.milestone.id b.milestone_id && is_scheduled b.status && leb b.ends_at now in
    (
      record (posted s₁ (release_entries split)
          (release_refs (release_args c.engagement c.milestone))) {
            bookings =
                update_where ended (λ b. record b { status = BookingStatus.completed }) s.bookings;
          },
      rw calm (
          >>=-next (pay_rows c now)
            (λ _. complete_bookings (λ b. leb b.ends_at now) c.milestone.id >> pure true) s
            pays_rows),
    )

-- In the worker's round of a milestone of which one row awaits confirmation, once its deadline has
-- passed, with no session that the coach missed and no dispute on its engagement open, waiting for
-- evidence or under review, the transaction goes through, marks the milestone released, and the
-- round leaves the entries of the release in the ledger, whether or not the student ever answered.
-- The amount is positive and the rate at most half, as the database checks.
pub released_on_silence :
    (c : Candidate) (now : ℕ) (s : Store)
    → IsOverdue c now
    → IsAttended c.bookings
    → IsUndisputed c.engagement.id s
    → length (select (milestone_in c.milestone.id is_pending_confirmation) s.milestones) ≡ 1
    → 1 ≤ c.milestone.amount_minor
    → c.engagement.commission_bps ≤ 5000
    → ((t : Store) × (release_transaction c now s ≡ ok (true, t))
        × (t.milestones ≡ released_rows c now s))
      × IsPosted c s (release_one now c s).0
unfolding release_one
released_on_silence c now s passed all_there calm one amount rate =
    let (t, pays) =
      release_transaction-ok c now s (undisputed-calm c.engagement.id s calm) one amount rate in
    let (_, paid) = release_transaction-Paid c now s pays in
    (
      (t, pays, paid.3),
      rw (is_ready-overdue c now all_there passed) (release_if-IsPosted c now s pays paid),
    )
