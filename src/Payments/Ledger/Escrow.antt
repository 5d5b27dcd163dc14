-- ===== src/Payments/Ledger/Escrow.antt =====
-- How each posting moves the derived balances: the escrow of an engagement and the withdrawable
-- balance of a coach.
use kaktus.Base.{
  ℕ, ◌+◌, Bool, ◌&&◌, Option, some, List, [], ◌∷◌, ◌++◌, map, ◌≡◌, refl, ap, ◌∙◌, ok, ◌==◌,
  if◌then◌else◌, Bool-cases, inl, inr, ltb,
}
use kaktus.Base.Int.{ℤ, pos, ◌+ℤ◌, ◌-ℤ◌, int_laws}
use kaktus.Base.Sums.{sum_by-append}
use kaktus.Payments.Split.{Split}
use kaktus.Payments.Split.Commission.{split_amount_sound}
use kaktus.Database.{
  Store, LedgerEntry, is_debit, is_credit, debit, credit, psp_receivable, platform_escrow,
  coach_payable,
}
use kaktus.Payments.Ledger.{
  EntryInput, Refs, no_refs, entry, entry_row, ReleaseArgs, release_entries, post_milestone_release,
  refund_from_escrow, post_escrow_funding, post_payout, net_credit, of_coach, of_escrow,
  coach_available_balance_minor, engagement_escrow_balance_minor,
}
use kaktus.Payments.Ledger.Flow.{
  posted, release_refs, post_group-inv, post_milestone_release-inv, refund_from_escrow-inv,
  refund_entries,
}

net_credit-append :
    (p : LedgerEntry → Bool) (xs ys : List LedgerEntry)
    → net_credit p (xs ++ ys) ≡ net_credit p xs +ℤ net_credit p ys
net_credit-append p xs ys =
    rw
      (
        sum_by-append (λ e. if p e && is_credit e.direction then e.amount_minor else 0) xs ys,
        sum_by-append (λ e. if p e && is_debit e.direction then e.amount_minor else 0) xs ys,
      )
      (omega int_laws)

-- An amount that counts only towards one id.
abbrev pub only : Bool → ℕ → ℤ
only b n = pos (if b then n else 0)

escrow_of_release :
    (e id : ℕ) (args : ReleaseArgs) (split : Split)
    → net_credit (of_escrow e) (map (entry_row id (release_refs args)) (release_entries split))
      ≡ pos 0 -ℤ only (args.engagement_id == e) split.gross_minor
unfolding release_entries
escrow_of_release e id args split = elim (Bool-cases (args.engagement_id == e)) [
  | inl own ↦ elim (Bool-cases (ltb 0 split.commission_minor)) [
    | inl fee ↦ rw (fee, own) (omega int_laws)
    | inr free ↦ rw (free, own) (omega int_laws)
  ]
  | inr other ↦ elim (Bool-cases (ltb 0 split.commission_minor)) [
    | inl fee ↦ rw (fee, other) (omega int_laws)
    | inr free ↦ rw (free, other) (omega int_laws)
  ]
]

coach_of_release :
    (c id : ℕ) (args : ReleaseArgs) (split : Split)
    → net_credit (of_coach c) (map (entry_row id (release_refs args)) (release_entries split))
      ≡ only (args.coach_profile_id == c) split.net_to_coach_minor
unfolding release_entries
coach_of_release c id args split = elim (Bool-cases (args.coach_profile_id == c)) [
  | inl own ↦ elim (Bool-cases (ltb 0 split.commission_minor)) [
    | inl fee ↦ rw (fee, own) (omega int_laws)
    | inr free ↦ rw (free, own) (omega int_laws)
  ]
  | inr other ↦ elim (Bool-cases (ltb 0 split.commission_minor)) [
    | inl fee ↦ rw (fee, other) (omega int_laws)
    | inr free ↦ rw (free, other) (omega int_laws)
  ]
]

escrow_of_refund :
    (e id amount : ℕ) (refs : Refs) {own : ℕ}
    → refs.engagement_id ≡ some own
    → net_credit (of_escrow e) (map (entry_row id refs) (refund_entries amount))
      ≡ pos 0 -ℤ only (own == e) amount
escrow_of_refund e id amount refs {own} h = elim (Bool-cases (own == e)) [
  | inl same ↦ rw (h, same) (omega int_laws)
  | inr other ↦ rw (h, other) (omega int_laws)
]

abbrev pub funding_entries : ℕ → List EntryInput
funding_entries amount =
    entry psp_receivable debit amount ∷ entry platform_escrow credit amount ∷ []

escrow_of_funding :
    (e id amount : ℕ) (refs : Refs) {own : ℕ}
    → refs.engagement_id ≡ some own
    → net_credit (of_escrow e) (map (entry_row id refs) (funding_entries amount))
      ≡ only (own == e) amount
escrow_of_funding e id amount refs {own} h = elim (Bool-cases (own == e)) [
  | inl same ↦ rw (h, same) (omega int_laws)
  | inr other ↦ rw (h, other) (omega int_laws)
]

-- A posting adds its own net credit to a balance.
posted_balance :
    (p : LedgerEntry → Bool) (s : Store) (es : List EntryInput) (refs : Refs)
    → net_credit p (posted s es refs).ledger_entries
      ≡ net_credit p s.ledger_entries +ℤ net_credit p (map (entry_row s.next_id refs) es)
posted_balance p s es refs =
    net_credit-append p s.ledger_entries (map (entry_row s.next_id refs) es)

-- Funding raises the escrow of its engagement by the amount, and no other escrow.
funding-balance :
    (engagement payment amount : ℕ) (s : Store) {g : ℕ} {t : Store}
    → post_escrow_funding engagement payment amount s ≡ ok (g, t)
    → (e : ℕ)
    → engagement_escrow_balance_minor t e
      ≡ engagement_escrow_balance_minor s e +ℤ only (engagement == e) amount
unfolding post_escrow_funding engagement_escrow_balance_minor
funding-balance engagement payment amount s h e =
    let refs : Refs = record no_refs {
      engagement_id = some engagement;
      payment_id = some payment;
    } in
    let (_, _, _, shape) = post_group-inv (funding_entries amount) refs s h in
    rw shape (
      posted_balance (of_escrow e) s (funding_entries amount) refs
      ∙ ap (λ z. net_credit (of_escrow e) s.ledger_entries +ℤ z)
          (escrow_of_funding e s.next_id amount refs refl))

-- A release lowers the escrow of its engagement by the gross amount and raises the balance of its
-- coach by the net amount, which the commission makes up to the gross; no other engagement's escrow
-- and no other coach's balance moves.
pub release-balance :
    (args : ReleaseArgs) (s : Store) {split : Split} {t : Store}
    → post_milestone_release args s ≡ ok (split, t)
    → (split.commission_minor + split.net_to_coach_minor ≡ args.amount_minor)
      × ((e : ℕ)
          → engagement_escrow_balance_minor t e
            ≡ engagement_escrow_balance_minor s e
              -ℤ only (args.engagement_id == e) args.amount_minor)
      × ((c : ℕ)
          → coach_available_balance_minor t c
            ≡ coach_available_balance_minor s c
              +ℤ only (args.coach_profile_id == c) split.net_to_coach_minor)
unfolding engagement_escrow_balance_minor coach_available_balance_minor
release-balance args s {split} {t} h =
    let (goes, shape) = post_milestone_release-inv args s h in
    let (gross, sums, _, _, _, _) =
      split_amount_sound (pos args.amount_minor) (pos args.commission_bps) goes in
    let same : split.gross_minor ≡ args.amount_minor = cc gross in
    (
      sums ∙ same,
      λ e. rw shape (
          posted_balance (of_escrow e) s (release_entries split) (release_refs args)
          ∙ rw (escrow_of_release e s.next_id args split, same) (omega int_laws)),
      λ c. rw shape (
          posted_balance (of_coach c) s (release_entries split) (release_refs args)
          ∙ rw (coach_of_release c s.next_id args split)),
    )

-- A refund lowers the escrow of its engagement by the amount, and no other escrow.
pub refund-balance :
    (engagement : ℕ) (milestone : Option ℕ) (amount now : ℕ) (s : Store) {g : ℕ} {t : Store}
    → refund_from_escrow engagement milestone amount now s ≡ ok (g, t)
    → (e : ℕ)
    → engagement_escrow_balance_minor t e
      ≡ engagement_escrow_balance_minor s e -ℤ only (engagement == e) amount
unfolding engagement_escrow_balance_minor
refund-balance engagement milestone amount now s h e =
    let refs : Refs = record no_refs {
      engagement_id = some engagement;
      milestone_id = milestone;
    } in
    let (_, shape) = refund_from_escrow-inv engagement milestone amount now s h in
    rw shape (
      posted_balance (of_escrow e) s (refund_entries amount) refs
      ∙ rw (escrow_of_refund e s.next_id amount refs refl) (omega int_laws))

-- A payout lowers the balance of its coach by the amount, and no other coach's.
pub payout-balance :
    (payout coach amount : ℕ) (s : Store) {g : ℕ} {t : Store}
    → post_payout payout coach amount s ≡ ok (g, t)
    → (c : ℕ)
    → coach_available_balance_minor t c
      ≡ coach_available_balance_minor s c -ℤ only (coach == c) amount
unfolding post_payout coach_available_balance_minor
payout-balance payout coach amount s h c =
    let refs : Refs = record no_refs { payout_id = some payout; coach_profile_id = some coach } in
    let es = entry coach_payable debit amount ∷ entry psp_receivable credit amount ∷ [] in
    let (_, _, _, shape) = post_group-inv es refs s h in
    rw shape (
      posted_balance (of_coach c) s es refs ∙ (elim (Bool-cases (coach == c)) [
        | inl same ↦ rw same (omega int_laws)
        | inr other ↦ rw other (omega int_laws)
      ]))
