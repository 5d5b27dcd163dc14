-- ===== src/Jobs/Payouts.antt =====
-- jobs/workers.ts: runPayoutBatch and isoWeek.
pub mod Whole
pub mod Weeks
use kaktus.Base.{
  ℕ, ◌+◌, ◌-◌, ◌*◌, ◌/◌, ◌%◌, Bool, true, false, ◌&&◌, not, Option, none, some, List, [], ◌∷◌, ◌++◌,
  ltb, leb, ◌==◌, Result, ok, err, any, select, update_where, take, if◌then◌else◌,
}
use kaktus.Base.Int.{ℤ, pos, negsuc, ltb_ℤ}
use kaktus.Payments.Ledger.{post_payout, coach_available_balance_minor}
use kaktus.Database.{
  CoachProfile, Payout, PayoutStatus, Store, Tx, ⊤, ◌>>=◌, ◌>>◌, pure, throw_if, gets, modify,
  fresh, ServiceError, duplicate_key,
}
use kaktus.Services.Run.{Run, in_transaction, and_then, return}
use kaktus.Services.Milestones.{JobResult, empty_result, sweep, is_some}

abbrev pub min_payout_minor : ℕ
min_payout_minor = 10000

-- A day is a number of days since 1970-01-01, a Thursday. Monday is the first day of a week, and
-- `4 - dayNum` days away is the Thursday that decides of which year the week is.
unfoldable pub day_num : ℕ → ℕ
day_num day = if (day + 4) % 7 == 0 then 7 else (day + 4) % 7

unfoldable pub thursday : ℕ → ℕ
thursday day = day + 4 - day_num day

-- `year_of` and `year_start` are the platform's calendar: the year of a day, and the first day of a
-- year. The key has the year and the number of the week.
module _ (year_of year_start : ℕ → ℕ) where
  unfoldable pub iso_week : ℕ → ℕ × ℕ
  iso_week now =
      let d = thursday (now / 86400000) in (year_of d, (d - year_start (year_of d) + 1 + 6) / 7)

-- The key of a payout is made of its coach and the week.
abbrev pub same_payout_key : ℕ → ℕ × ℕ → Payout → Bool
same_payout_key coach week p =
    (p.coach_profile_id == coach) && (p.week.0 == week.0) && (p.week.1 == week.1)

unfoldable pub add_payout : ℕ → ℕ → ℕ × ℕ → ℕ → Tx ⊤
add_payout coach amount week id = modify λ s. record s {
  payouts =
      s.payouts
      ++ (record {
        id = id;
        coach_profile_id = coach;
        amount_minor = amount;
        status = PayoutStatus.pending;
        week = week;
      }
          ∷ []);
}

-- `payout.create`, with the unique key, and the posting.
unfoldable pub create_payout : ℕ → ℕ → ℕ × ℕ → Tx (Option ℕ)
create_payout coach amount week = do
  taken ← gets (λ s. any (same_payout_key coach week) s.payouts)
  throw_if taken duplicate_key
  id ← fresh
  add_payout coach amount week id
  group ← post_payout id coach amount
  pure (some id)

unfoldable pub pay_balance : ℕ → ℕ × ℕ → ℤ → Tx (Option ℕ)
pay_balance coach week (negsuc n) = λ s. ok (none, s)
pay_balance coach week (pos balance) = elim (ltb balance min_payout_minor) [
  | true ↦ pure none
  | false ↦ create_payout coach balance week
]

unfoldable pub payout_transaction : ℕ → ℕ × ℕ → Tx (Option ℕ)
payout_transaction coach week s = pay_balance coach week (coach_available_balance_minor s coach) s

unfoldable pub note_submitted : ℕ → Tx ⊤
note_submitted id = modify λ s. record s {
  payouts =
      update_where (λ (p : Payout). p.id == id) (λ p. record p { status = PayoutStatus.submitted })
        s.payouts;
}

unfoldable pub submit_payout : Option ℕ → Run Bool
submit_payout none s = (s, ok false)
submit_payout (some id) s = and_then (in_transaction (note_submitted id)) (λ _. return true) s

unfoldable pub pay_coach : ℕ × ℕ → CoachProfile → Run Bool
pay_coach week c = and_then (in_transaction (payout_transaction c.id week)) submit_payout

-- 'Unique constraint'
abbrev pub skips_repeated : ServiceError → Bool
skips_repeated duplicate_key = true
skips_repeated _ = false

abbrev pub payable_coaches : Store → List CoachProfile
payable_coaches s =
    take 500
      (select (λ (c : CoachProfile). c.is_approved && is_some c.submerchant_key) s.coach_profiles)

-- `settles` is whether the provider is Iyzico, which settles by itself.
unfoldable pub run_payout_batch : Bool → ℕ × ℕ → Store → Store × JobResult
run_payout_batch settles week s = elim settles [
  | true ↦ (s, empty_result)
  | false ↦ sweep skips_repeated (pay_coach week) (payable_coaches s) empty_result s
]
