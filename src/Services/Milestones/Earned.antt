-- ===== src/Services/Milestones/Earned.antt =====
-- What the worker's round of one milestone asks before it pays the coach, and what it then writes.
use kaktus.Base.{
  any, every, ◌||◌, ◌&&◌, ℕ, ◌≤◌, Bool, true, false, Option, none, some, List, [], ◌≡◌, ◌≢◌, refl,
  ap, arith, ok, err, ltb, ◌==◌, length, select, sym, ◌∙◌, ◌++◌, map, Bool-cases, Result-cases,
  and_parts, not, inl, inr, ◌⊎◌, All, any-All, every-All, All-of_none, All-imp, ==_refl, ltb→lt,
}
use mathlib.Core.List.{append-nil}
use kaktus.Base.Int.{pos}
use kaktus.Payments.Split.{Split, split_amount}
use kaktus.Payments.Ledger.{release_entries, entry_row}
use kaktus.Payments.Ledger.Flow.{release_refs}
use kaktus.Services.Offers.Money.{release_args}
use kaktus.Services.Offers.Appended.{StartsWith, Extends, Extends-IsClosed}
use kaktus.Services.Run.Leaves.{Leaves}
use kaktus.Services.Milestones.Sound.{maybe_complete-Leaves, after_release-Leaves}
use kaktus.Database.{
  LedgerEntry, is_pending_confirmation, Booking, Dispute, DisputeStatus, Store, ServiceError,
  is_open,
}
use kaktus.Offers.Scope.{BookingStatus}
use kaktus.Services.Run.{Run, in_transaction, and_then}
use kaktus.Services.Milestones.{
  Candidate, at_or_before, is_confirmed, is_no_show_coach, is_ready, open_disputes, pay_out_unless,
  release_transaction, release_if, release_one, after_release, milestone_in,
  maybe_complete_engagement,
}
use kaktus.Services.Milestones.Release.{Paid, pay_out-Paid, none_open}

-- The coach missed no session.
abbrev pub IsAttended : List Booking → Type 0
IsAttended = All λ (b : Booking). b.status ≢ BookingStatus.no_show_coach

-- The deadline has passed.
abbrev pub IsOverdue : Candidate → ℕ → Type 0
IsOverdue c now = (t : ℕ) × (c.milestone.auto_release_at ≡ some t) × (t ≤ now)

-- A session has taken place, or both sides say so.
abbrev pub IsHeld : Booking → Type 0
IsHeld b =
    (b.status ≡ BookingStatus.completed)
    ⊎ ((b.coach_confirmed_at ≢ none) × (b.student_confirmed_at ≢ none))

-- No dispute on the engagement is open, waits for evidence or is under review.
abbrev pub IsUndisputed : ℕ → Store → Type 0
IsUndisputed engagement s =
    All
      (λ (d : Dispute).
        d.engagement_id ≡ engagement
        → (d.status ≢ DisputeStatus.open_)
          × (d.status ≢ DisputeStatus.awaiting_evidence)
          × (d.status ≢ DisputeStatus.under_review))
      s.disputes

-- A milestone that has earned its payment.
abbrev pub IsEarned : Candidate → ℕ → Store → Type 0
IsEarned c now s =
    IsAttended c.bookings
    × (IsOverdue c now ⊎ ((1 ≤ length c.bookings) × All IsHeld c.bookings))
    × IsUndisputed c.engagement.id s

attended :
    (bs : List Booking)
    → any (λ (b : Booking). is_no_show_coach b.status) bs ≡ false
    → IsAttended bs
attended bs h =
    All-imp (λ (b : Booking). is_no_show_coach b.status ≡ false) _
      (λ (b : Booking) miss same. cc (rw same at miss)) bs (any-All _ bs h)

overdue :
    (c : Candidate) (now : ℕ)
    → at_or_before c.milestone.auto_release_at now ≡ true
    → IsOverdue c now
overdue c now h = go c.milestone.auto_release_at refl h
  where
    go :
        (o : Option ℕ)
        → c.milestone.auto_release_at ≡ o
        → at_or_before o now ≡ true
        → IsOverdue c now
    go (some t) e h = (t, e, ground arith)
    go none e h = cc h

confirmed-IsHeld : (b : Booking) → is_confirmed b ≡ true → IsHeld b
confirmed-IsHeld b h = ground arith

clear :
    (d : Dispute) (engagement : ℕ)
    → d.engagement_id ≡ engagement
    → (d.engagement_id == engagement) && is_open d.status ≡ false
    → (d.status ≢ DisputeStatus.open_)
      × (d.status ≢ DisputeStatus.awaiting_evidence)
      × (d.status ≢ DisputeStatus.under_review)
clear d engagement same miss =
    let closed : is_open d.status ≡ false = rw (same, ==_refl engagement) at miss in
    (λ e. cc (rw e at closed), λ e. cc (rw e at closed), λ e. cc (rw e at closed))

pub undisputed :
    (engagement : ℕ) (s : Store) → open_disputes engagement s ≡ 0 → IsUndisputed engagement s
undisputed engagement s h =
    All-imp (λ (d : Dispute). (d.engagement_id == engagement) && is_open d.status ≡ false) _
      (λ (d : Dispute) miss same. clear d engagement same miss) s.disputes
      (All-of_none _ s.disputes h)

-- Which of the two made a milestone ready.
earned_how :
    (c : Candidate) (now : ℕ)
    → at_or_before c.milestone.auto_release_at now
        || (ltb 0 (length c.bookings) && every is_confirmed c.bookings)
      ≡ true
    → IsOverdue c now ⊎ ((1 ≤ length c.bookings) × All IsHeld c.bookings)
earned_how c now h = elim (Bool-cases (at_or_before c.milestone.auto_release_at now)) [
  | inl passed ↦ inl (overdue c now passed)
  | inr waits ↦
      let (some_held, all_held) = and_parts _ _ (rw waits at h) in
      inr (
        ltb→lt 0 (length c.bookings) some_held,
        All-imp _ _ confirmed-IsHeld c.bookings (every-All is_confirmed c.bookings all_held),
      )
]

not-true : (b : Bool) → not b ≡ true → b ≡ false
not-true true h = cc h
not-true false h = refl

ready-IsEarned :
    (c : Candidate) (now : ℕ) (s : Store)
    → is_ready c now ≡ true
    → open_disputes c.engagement.id s ≡ 0
    → IsEarned c now s
ready-IsEarned c now s ready calm =
    let (present, settled) = and_parts _ _ ready in
    (attended c.bookings (not-true _ present), earned_how c now settled, undisputed _ s calm)

release_transaction-IsEarned :
    (c : Candidate) (now : ℕ) (s : Store) {b : Bool} {t : Store}
    → is_ready c now ≡ true
    → ltb 0 (open_disputes c.engagement.id s) ≡ false
    → release_transaction c now s ≡ ok (b, t)
    → IsEarned c now s × Paid c now s t
unfolding release_transaction pay_out_unless
release_transaction-IsEarned c now s ready calm h =
    (ready-IsEarned c now s ready (none_open _ calm), pay_out-Paid c now s (rw calm at h))

release_idle : (c : Candidate) (now : ℕ) (s : Store) → release_if false c now s ≡ (s, ok false)
unfolding release_if
release_idle c now s = refl

blocked_by_dispute :
    (c : Candidate) (now : ℕ) (s : Store)
    → ltb 0 (open_disputes c.engagement.id s) ≡ true
    → (release_if true c now s).0 ≡ s
unfolding release_if in_transaction and_then after_release release_transaction pay_out_unless
blocked_by_dispute c now s disputed = rw disputed refl

rolled_back :
    (c : Candidate) (now : ℕ) (s : Store) {e : ServiceError}
    → release_transaction c now s ≡ err e
    → (release_if true c now s).0 ≡ s
unfolding release_if in_transaction and_then
rolled_back c now s h = rw h refl

-- The store `u` has the ledger of `s`, then the entries of the milestone's release at the rate of the
-- engagement in a new group, and then whatever came after.
abbrev pub IsPosted : Candidate → Store → Store → Type 0
IsPosted c s u =
    (split : Split) × (split_amount (pos c.milestone.amount_minor) (pos c.engagement.commission_bps)
      ≡ ok split)
    × StartsWith
        (s.ledger_entries
          ++ map (entry_row s.next_id (release_refs (release_args c.engagement c.milestone)))
              (release_entries split))
        u.ledger_entries

-- What runs after a payment leaves it in the ledger.
pub Paid-IsPosted :
    {A : Type 0} (c : Candidate) (now : ℕ) (s t : Store) (k : Run A)
    → Leaves (Extends t.ledger_entries) k
    → Paid c now s t
    → IsPosted c s (k t).0
Paid-IsPosted c now s t k leaves (split, goes, ledger, _, _) =
    let (more, starts) = leaves t ([], sym (append-nil t.ledger_entries)) in
    (split, goes, (more, starts ∙ ap (λ es. es ++ more) ledger))

-- The completion of the engagement only adds to the ledger.
pub maybe_complete-Extends :
    (first : List LedgerEntry) (engagement offer now : ℕ)
    → Leaves (Extends first) (maybe_complete_engagement engagement offer now)
maybe_complete-Extends first engagement offer now =
    maybe_complete-Leaves (Extends first) (Extends-IsClosed first) (λ s os h. h) engagement offer
      now

pub release_if-IsPosted :
    (c : Candidate) (now : ℕ) (s : Store) {b : Bool} {t : Store}
    → release_transaction c now s ≡ ok (b, t)
    → Paid c now s t
    → IsPosted c s (release_if true c now s).0
unfolding release_if in_transaction and_then
release_if-IsPosted c now s {b} {t} pays paid = rw pays (
    Paid-IsPosted c now s t (after_release c now b)
      (after_release-Leaves (Extends t.ledger_entries) (Extends-IsClosed t.ledger_entries)
        (λ u os h. h) c now b)
      paid)

-- A round of the worker leaves the store as it is, unless the milestone has earned its payment: the
-- coach missed none of its sessions; its deadline has passed, or it has sessions and each is
-- completed or confirmed by both sides; no dispute on its engagement is open, waits for evidence or
-- is under review; and one row of the milestone awaits confirmation. Then the ledger is extended by
-- the entries of its release.
pub release_one-IsEarned :
    (now : ℕ) (c : Candidate) (s : Store)
    → ((release_one now c s).0 ≡ s)
      ⊎ (IsEarned c now s
          × (length (select (milestone_in c.milestone.id is_pending_confirmation) s.milestones) ≡ 1)
          × IsPosted c s (release_one now c s).0)
unfolding release_one
release_one-IsEarned now c s = elim (Bool-cases (is_ready c now)) [
  | inr idle ↦ inl (rw idle (ap (λ r. r.0) (release_idle c now s)))
  | inl ready ↦ elim (Bool-cases (ltb 0 (open_disputes c.engagement.id s))) [
    | inl disputed ↦ inl (rw ready (blocked_by_dispute c now s disputed))
    | inr calm ↦ elim (Result-cases (release_transaction c now s)) [
      | inr (_, fails) ↦ inl (rw ready (rolled_back c now s fails))
      | inl ((_, t), pays) ↦
          let (earned, paid) = release_transaction-IsEarned c now s ready calm pays in
          inr (earned, paid.4, rw ready (release_if-IsPosted c now s pays paid))
    ]
  ]
]
