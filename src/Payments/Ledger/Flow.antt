-- ===== src/Payments/Ledger/Flow.antt =====
-- What a posting that goes through does to the store.
use kaktus.Base.{
  ℕ, suc, true, false, Option, none, some, List, [], ◌∷◌, ◌++◌, map, ◌≡◌, Result-cases, ok, any,
  Bool-cases, inl, inr, ◌==◌, update_where,
}
use kaktus.Base.Int.{pos, eqb_ℤ}
use kaktus.Payments.Split.{Split, split_amount}
use kaktus.Database.{
  Store, Milestone, MilestoneStatus, debit, credit, platform_escrow, student_refund, ◌>>=◌, ◌>>◌,
}
use kaktus.Payments.Ledger.{
  EntryInput, Refs, no_refs, entry, entry_row, balance_from, not_positive, post_group, ReleaseArgs,
  release_entries, post_milestone_release, update_milestone, release_milestone, mark_refunded,
  refund_from_escrow,
}

-- The store with one more group of entries.
abbrev pub posted : Store → List EntryInput → Refs → Store
posted s es refs = record s {
  ledger_entries = s.ledger_entries ++ map (entry_row s.next_id refs) es;
  next_id = suc s.next_id;
}

-- A posting goes through only if the group balances, and appends it under a new id.
pub post_group-inv :
    (es : List EntryInput) (refs : Refs) (s : Store) {g : ℕ} {t : Store}
    → post_group es refs s ≡ ok (g, t)
    → (eqb_ℤ (balance_from (pos 0) es) (pos 0) ≡ true)
      × (any not_positive es ≡ false)
      × (g ≡ s.next_id)
      × (t ≡ posted s es refs)
unfolding post_group
post_group-inv es refs s h = elim (Bool-cases (eqb_ℤ (balance_from (pos 0) es) (pos 0))) [
  | inr off ↦ cc (rw off at h)
  | inl even ↦ elim (Bool-cases (any not_positive es)) [
    | inl bad ↦ cc (rw (even, bad) at h)
    | inr positive ↦ let done = rw (even, positive) at h in (even, positive, cc done, cc done)
  ]
]

abbrev pub release_refs : ReleaseArgs → Refs
release_refs args = record no_refs {
  engagement_id = some args.engagement_id;
  milestone_id = some args.milestone_id;
  coach_profile_id = some args.coach_profile_id;
}

pub post_milestone_release-inv :
    (args : ReleaseArgs) (s : Store) {split : Split} {t : Store}
    → post_milestone_release args s ≡ ok (split, t)
    → (split_amount (pos args.amount_minor) (pos args.commission_bps) ≡ ok split)
      × (t ≡ posted s (release_entries split) (release_refs args))
unfolding post_milestone_release
post_milestone_release-inv args s {split} {t} h =
    elim (Result-cases (split_amount (pos args.amount_minor) (pos args.commission_bps))) [
      | inr (e, refused) ↦ cc (rw refused at h)
      | inl (sp, goes) ↦
          elim (Result-cases (post_group (release_entries sp) (release_refs args) s)) [
            | inr (e, refused) ↦ cc (rw (goes, refused, ◌>>=◌) at h)
            | inl ((g, u), posts) ↦
                let (_, _, _, shape) =
                  post_group-inv (release_entries sp) (release_refs args) s posts in
                let done = rw (goes, posts, ◌>>=◌) at h in
                let same : sp ≡ split = cc done in
                let state : u ≡ t = cc done in (rw (← same) goes, rw (← same, ← state) shape)
          ]
    ]

-- `update` of one row by its id.
pub update_milestone-inv :
    (id : ℕ) (change : Milestone → Milestone) (s : Store) {t : Store}
    → update_milestone id change s ≡ ok (tt, t)
    → t ≡ record s { milestones = update_where (λ m. m.id == id) change s.milestones }
unfolding update_milestone
update_milestone-inv id change s h =
    elim (Bool-cases (any (λ (m : Milestone). m.id == id) s.milestones)) [
      | inl found ↦ cc (rw found at h)
      | inr missing ↦ cc (rw missing at h)
    ]

-- A release posts its group and marks the milestone.
pub release_milestone-inv :
    (args : ReleaseArgs) (now : ℕ) (s : Store) {split : Split} {t : Store}
    → release_milestone args now s ≡ ok (split, t)
    → (split_amount (pos args.amount_minor) (pos args.commission_bps) ≡ ok split)
      × (t ≡ record (posted s (release_entries split) (release_refs args)) {
        milestones =
            update_where
              (λ (m : Milestone). m.id == args.milestone_id)
              (λ m. record m { status = MilestoneStatus.released; released_at = some now })
              s.milestones;
      })
unfolding release_milestone
release_milestone-inv args now s {split} {t} h =
    elim (Result-cases (post_milestone_release args s)) [
      | inr (e, refused) ↦ cc (rw (refused, ◌>>=◌) at h)
      | inl ((sp, u), posts) ↦
          let change = λ (m : Milestone). record m {
            status = MilestoneStatus.released;
            released_at = some now;
          } in
          let (goes, shape) = post_milestone_release-inv args s posts in
          elim (Result-cases (update_milestone args.milestone_id change u)) [
            | inr (e, refused) ↦ cc (rw (posts, refused, ◌>>=◌, ◌>>◌) at h)
            | inl ((_, v), marks) ↦
                let done = rw (posts, marks, ◌>>=◌, ◌>>◌) at h in
                let same : sp ≡ split = cc done in
                let state : v ≡ t = cc done in
                let marked = update_milestone-inv args.milestone_id change u marks in
                (rw (← same) goes, rw (← same, ← state) (rw shape at marked))
          ]
    ]

-- The milestone table after an optional mark.
abbrev pub refund_marks : Option ℕ → ℕ → List Milestone → List Milestone
refund_marks none now ms = ms
refund_marks (some id) now ms =
    update_where (λ (m : Milestone). m.id == id)
      (λ m. record m { status = MilestoneStatus.refunded; refunded_at = some now }) ms

mark_refunded-inv :
    (milestone : Option ℕ) (now : ℕ) (s : Store) {t : Store}
    → mark_refunded milestone now s ≡ ok (tt, t)
    → t ≡ record s { milestones = refund_marks milestone now s.milestones }
unfolding mark_refunded
mark_refunded-inv none now s h = cc h
mark_refunded-inv (some id) now s h =
    update_milestone-inv id
      (λ m. record m { status = MilestoneStatus.refunded; refunded_at = some now }) s h

abbrev pub refund_entries : ℕ → List EntryInput
refund_entries amount = entry platform_escrow debit amount ∷ entry student_refund credit amount ∷ []

-- A refund posts its group and marks the milestone, if it names one.
pub refund_from_escrow-inv :
    (engagement : ℕ) (milestone : Option ℕ) (amount now : ℕ) (s : Store) {g : ℕ} {t : Store}
    → refund_from_escrow engagement milestone amount now s ≡ ok (g, t)
    → let refs = record no_refs { engagement_id = some engagement; milestone_id = milestone } in
      (any not_positive (refund_entries amount) ≡ false)
      × (t ≡ record (posted s (refund_entries amount) refs) {
        milestones = refund_marks milestone now s.milestones;
      })
unfolding refund_from_escrow
refund_from_escrow-inv engagement milestone amount now s {g} {t} h =
    let refs : Refs = record no_refs {
      engagement_id = some engagement;
      milestone_id = milestone;
    } in
    elim (Result-cases (post_group (refund_entries amount) refs s)) [
      | inr (e, refused) ↦ cc (rw (refused, ◌>>=◌, ◌>>◌) at h)
      | inl ((g', u), posts) ↦
          let (_, positive, _, shape) = post_group-inv (refund_entries amount) refs s posts in
          elim (Result-cases (mark_refunded milestone now u)) [
            | inr (e, refused) ↦ cc (rw (posts, refused, ◌>>=◌, ◌>>◌) at h)
            | inl ((_, v), marks) ↦
                let done = rw (posts, marks, ◌>>=◌, ◌>>◌) at h in
                let state : v ≡ t = cc done in
                (positive, rw (← state) (rw shape at (mark_refunded-inv milestone now u marks)))
          ]
    ]
