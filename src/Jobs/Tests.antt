-- ===== src/Jobs/Tests.antt =====
-- A refund of 1000 that the provider cannot be reached for, a coach who is owed 12000, and an offer
-- that has run out.
use kaktus.Base.{
  ℕ, ◌+◌, ◌*◌, ◌/◌, ◌≤◌, false, Option, none, some, [], ◌∷◌, map, ◌≡◌, refl, arith, ◌==◌, Result,
  ok, err, any, ◌↔◌,
}
use kaktus.Base.Int.{pos, ◌+ℤ◌, ◌-ℤ◌}
use kaktus.Payments.Ledger.{
  post_group, post_payout, coach_available_balance_minor, entry_row, entry, no_refs,
}
use kaktus.Database
use kaktus.Database.{
  EngagementStatus, Refund, RefundStatus, Store, coach_payable, platform_escrow, debit, credit,
}
use kaktus.Database.Samples.{empty_store}
use kaktus.Services.Run.{in_transaction, and_then}
use kaktus.Jobs.Refunds.{
  RefundOutcome, unreachable, submit_refund, send_refund, note_refund, schedule_retry,
  update_refund, delay_minutes,
}
use kaktus.Jobs.Refunds.Attempts.{
  done, again, refund_by_id, IsTried, submit_refund-IsTried, refund-Tries_bounded,
}
use kaktus.Jobs.Payouts.{
  iso_week, create_payout, add_payout, pay_balance, payout_transaction, same_payout_key,
  min_payout_minor,
}
use kaktus.Jobs.Payouts.Whole.{payout_pays_whole}
use kaktus.Jobs.Payouts.Weeks.{iso_week_iff}

abbrev refund : Refund
refund = record {
  id = 9;
  engagement_id = 2;
  payment_id = some 8;
  milestone_id = some 3;
  payment_transaction_id = some 91;
  amount_minor = 1000;
  reason = "cancelled";
  status = RefundStatus.pending;
  attempts = 4;
  next_attempt_at = 0;
  provider_ref = none;
}

abbrev owing : Store
owing = record empty_store { refunds = refund ∷ [] }

abbrev silent : Refund → RefundOutcome
silent _ = unreachable

abbrev after_fifth : Store
after_fifth = (submit_refund silent 50 refund owing).0

submit_refund-IsTried_example :
    (r' : Refund) × (refund_by_id 9 after_fifth ≡ some r')
    × IsTried refund.payment_transaction_id (silent refund) 5 50 r'
submit_refund-IsTried_example = submit_refund-IsTried silent 50 refund owing refl

refund-Tries_bounded_example : 1 ≤ 6
refund-Tries_bounded_example =
    refund-Tries_bounded silent 9 {n = 1} {s = owing} {t = after_fifth} refund refl
      (again 50 refl refl done)

-- The fifth try is put off by 160 minutes.
fifth_try : after_fifth ≡ record empty_store {
  refunds =
      record refund { attempts = 5; status = RefundStatus.pending; next_attempt_at = 9600050 } ∷ [];
}
unfolding submit_refund send_refund note_refund schedule_retry update_refund delay_minutes
    in_transaction and_then
fifth_try = refl

abbrev earned : Store
earned = record empty_store {
  ledger_entries =
      map (entry_row 9 (record no_refs { coach_profile_id = some 7 }))
        (entry platform_escrow debit 12000 ∷ entry coach_payable credit 12000 ∷ []);
}

abbrev week : ℕ × ℕ
week = (2026, 3)

abbrev left_by : Result Database.ServiceError (Option ℕ × Store) → Store
left_by (ok (_, t)) = t
left_by (err _) = earned

abbrev paid : Store
paid = left_by (payout_transaction 7 week earned)

pays : payout_transaction 7 week earned ≡ ok (some 100, paid)
unfolding payout_transaction pay_balance create_payout add_payout post_payout post_group
    coach_available_balance_minor ◌+ℤ◌ ◌-ℤ◌
pays = refl

payout_pays_whole_example :
    (any (same_payout_key 7 week) earned.payouts ≡ false)
    × ((n : ℕ) × (coach_available_balance_minor earned 7 ≡ pos n) × (min_payout_minor ≤ n))
    × (coach_available_balance_minor paid 7 ≡ pos 0)
    × ((c : ℕ)
        → (7 == c) ≡ false
        → coach_available_balance_minor paid c ≡ coach_available_balance_minor earned c)
payout_pays_whole_example = payout_pays_whole 7 week earned pays

-- A calendar whose years all have 365 days; Sunday 1970-01-11 and the Monday after it.
iso_week_iff_example :
    (iso_week (λ day. day / 365) (λ year. year * 365) 864000000
      ≡ iso_week (λ day. day / 365) (λ year. year * 365) 950400000)
    ↔ ((864000000 / 86400000 + 3) / 7 ≡ (950400000 / 86400000 + 3) / 7)
iso_week_iff_example =
    iso_week_iff (λ day. day / 365) (λ year. year * 365) (λ day. omega arith) 864000000 950400000
