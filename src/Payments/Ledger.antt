-- ===== src/Payments/Ledger.antt =====
-- lib/payments/escrow.ts: balanced groups of ledger entries, and the balances derived from them.
pub mod Flow
pub mod Balance
pub mod Escrow
use kaktus.Base.{
  ℕ, ◌+◌, Bool, true, false, ◌&&◌, not, Option, none, some, List, [], ◌∷◌, ◌++◌, map, ltb, leb,
  ◌==◌, if◌then◌else◌, any, update_where, find,
}
use kaktus.Base.Int.{ℤ, pos, ◌+ℤ◌, ◌-ℤ◌, eqb_ℤ}
use kaktus.Base.Sums.{sum_by}
use kaktus.Payments.Split.{Split, split_amount}
use kaktus.Database.{
  LedgerAccount, LedgerDirection, psp_receivable, platform_escrow, coach_payable, platform_revenue,
  student_refund, debit, credit, same_account, is_debit, is_credit, LedgerEntry, Milestone,
  MilestoneStatus, Store, Tx, ⊤, ◌>>=◌, ◌>>◌, pure, throw_if, gets, modify, lift, fresh, or_throw,
  unbalanced_group, constraint_violation, not_found, bad_split,
}

pub record EntryInput : Type 0 where
  pub account : LedgerAccount
  pub direction : LedgerDirection
  pub amount_minor : ℕ

pub record Refs : Type 0 where
  pub engagement_id : Option ℕ
  pub milestone_id : Option ℕ
  pub payment_id : Option ℕ
  pub payout_id : Option ℕ
  pub coach_profile_id : Option ℕ

-- The signed amount of an entry.
abbrev pub signed : EntryInput → ℤ
signed e = if is_debit e.direction then pos e.amount_minor else pos 0 -ℤ pos e.amount_minor

-- entries.reduce((sum, e) => sum + signed(e), 0)
abbrev pub balance_from : ℤ → List EntryInput → ℤ
balance_from sum [] = sum
balance_from sum (e ∷ es) = balance_from (sum +ℤ signed e) es

abbrev pub entry_row : ℕ → Refs → EntryInput → LedgerEntry
entry_row group refs e = record {
  entry_group_id = group;
  account = e.account;
  direction = e.direction;
  amount_minor = e.amount_minor;
  engagement_id = refs.engagement_id;
  milestone_id = refs.milestone_id;
  payment_id = refs.payment_id;
  payout_id = refs.payout_id;
  coach_profile_id = refs.coach_profile_id;
}

-- CHECK ("amountMinor" > 0)
abbrev pub not_positive : EntryInput → Bool
not_positive e = e.amount_minor == 0

unfoldable pub post_group : List EntryInput → Refs → Tx ℕ
post_group entries refs = do
  throw_if (not (eqb_ℤ (balance_from (pos 0) entries) (pos 0))) unbalanced_group
  group ← fresh
  throw_if (any not_positive entries) constraint_violation
  modify λ s. record s { ledger_entries = s.ledger_entries ++ map (entry_row group refs) entries }
  pure group

abbrev pub no_refs : Refs
no_refs = record {
  engagement_id = none;
  milestone_id = none;
  payment_id = none;
  payout_id = none;
  coach_profile_id = none;
}

abbrev pub entry : LedgerAccount → LedgerDirection → ℕ → EntryInput
entry account direction amount = record {
  account = account;
  direction = direction;
  amount_minor = amount;
}

unfoldable pub post_escrow_funding : ℕ → ℕ → ℕ → Tx ℕ
post_escrow_funding engagement payment amount =
    post_group (entry psp_receivable debit amount ∷ entry platform_escrow credit amount ∷ [])
      (record no_refs { engagement_id = some engagement; payment_id = some payment })

-- The arguments of a release.
pub record ReleaseArgs : Type 0 where
  pub engagement_id : ℕ
  pub milestone_id : ℕ
  pub coach_profile_id : ℕ
  pub amount_minor : ℕ
  pub commission_bps : ℕ

-- The entries of a release: the commission's only if there is one.
unfoldable pub release_entries : Split → List EntryInput
release_entries split =
    entry platform_escrow debit split.gross_minor
    ∷ entry coach_payable credit split.net_to_coach_minor
    ∷ (if ltb 0 split.commission_minor
        then entry platform_revenue credit split.commission_minor ∷ []
        else [])

unfoldable pub post_milestone_release : ReleaseArgs → Tx Split
post_milestone_release args = do
  split ← lift bad_split (split_amount (pos args.amount_minor) (pos args.commission_bps))
  group ← post_group (release_entries split) (record no_refs {
    engagement_id = some args.engagement_id;
    milestone_id = some args.milestone_id;
    coach_profile_id = some args.coach_profile_id;
  })
  pure split

-- `update` of one milestone by its id, which throws where there is none.
unfoldable pub update_milestone : ℕ → (Milestone → Milestone) → Tx ⊤
update_milestone id change = do
  rows ← gets (λ s. s.milestones)
  throw_if (not (any (λ (m : Milestone). m.id == id) rows)) not_found
  modify λ s. record s { milestones = update_where (λ m. m.id == id) change s.milestones }

unfoldable pub release_milestone : ReleaseArgs → ℕ → Tx Split
release_milestone args now = do
  split ← post_milestone_release args
  update_milestone args.milestone_id
      λ m. record m { status = MilestoneStatus.released; released_at = some now }
  pure split

-- `if (args.milestoneId) await tx.milestone.update(…)`
unfoldable pub mark_refunded : Option ℕ → ℕ → Tx ⊤
mark_refunded none now = pure tt
mark_refunded (some id) now =
    update_milestone id λ m. record m { status = MilestoneStatus.refunded; refunded_at = some now }

unfoldable pub refund_from_escrow : ℕ → Option ℕ → ℕ → ℕ → Tx ℕ
refund_from_escrow engagement milestone amount now = do
  group ←
      post_group (entry platform_escrow debit amount ∷ entry student_refund credit amount ∷ [])
        (record no_refs { engagement_id = some engagement; milestone_id = milestone })
  mark_refunded milestone now
  pure group

unfoldable pub post_payout : ℕ → ℕ → ℕ → Tx ℕ
post_payout payout coach amount =
    post_group (entry coach_payable debit amount ∷ entry psp_receivable credit amount ∷ [])
      (record no_refs { payout_id = some payout; coach_profile_id = some coach })

abbrev pub has_id : ℕ → Option ℕ → Bool
has_id id (some x) = x == id
has_id id none = false

-- The sum of the entries that a query selects.
abbrev pub flow : (LedgerEntry → Bool) → List LedgerEntry → ℕ
flow p = sum_by (λ e. if p e then e.amount_minor else 0)

abbrev pub of_coach : ℕ → LedgerEntry → Bool
of_coach id e = has_id id e.coach_profile_id && same_account e.account coach_payable

abbrev pub of_escrow : ℕ → LedgerEntry → Bool
of_escrow id e = has_id id e.engagement_id && same_account e.account platform_escrow

-- Credits less debits, in either query.
abbrev pub net_credit : (LedgerEntry → Bool) → List LedgerEntry → ℤ
net_credit p es =
    pos (flow (λ e. p e && is_credit e.direction) es)
    -ℤ pos (flow (λ e. p e && is_debit e.direction) es)

unfoldable pub coach_available_balance_minor : Store → ℕ → ℤ
coach_available_balance_minor s coach = net_credit (of_coach coach) s.ledger_entries

unfoldable pub engagement_escrow_balance_minor : Store → ℕ → ℤ
engagement_escrow_balance_minor s engagement = net_credit (of_escrow engagement) s.ledger_entries
