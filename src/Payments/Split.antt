-- ===== src/Payments/Split.antt =====
-- `splitAmount` and `splitIntoMilestones` of lib/payments/escrow.ts, and `computeBreakdown` of
-- lib/offers/draft.ts. Amounts are whole minor units (kuruş).
pub mod Commission
pub mod Parts
use kaktus.Base.{
  ℕ, zero, suc, ◌+◌, ◌-◌, ◌*◌, ◌/◌, Bool, ◌||◌, List, [], ◌∷◌, map, ltb, if◌then◌else◌, Result, ok,
  err, ◌>>◌, ◌>>=◌, throw_if, ◌==◌,
}
use kaktus.Base.Int.{ℤ, ◌-ℤ◌, pos, negsuc, pos_part, ltb_ℤ, leb_ℤ}

pub record Split : Type 0 where
  pub gross_minor : ℕ
  pub commission_minor : ℕ
  pub net_to_coach_minor : ℕ

pub data SplitError : Type 0 where
  bad_gross bad_commission bad_count : SplitError

-- Math.floor((amount * bps) / 10_000)
unfoldable pub commission : ℕ → ℕ → ℕ
commission amount bps = amount * bps / 10000

unfoldable pub split_amount : ℤ → ℤ → Result SplitError Split
split_amount gross bps = do
  throw_if (leb_ℤ gross (pos 0)) bad_gross
  throw_if (ltb_ℤ bps (pos 0) || ltb_ℤ (pos 5000) bps) bad_commission
  let fee = commission (pos_part gross) (pos_part bps)
  ok (record {
    gross_minor = pos_part gross;
    commission_minor = fee;
    net_to_coach_minor = pos_part gross - fee;
  })

-- The indices i, i + 1, …, of `Array.from({ length })`.
abbrev pub indices_from : ℕ → ℕ → List ℕ
indices_from i zero = []
indices_from i (suc n) = i ∷ indices_from (suc i) n

-- One share: the first `remainder` shares take one unit more.
unfoldable pub share : ℕ → ℕ → ℕ → ℕ
share base remainder i = base + (if ltb i remainder then 1 else 0)

unfoldable pub split_into_milestones : ℕ → ℕ → Result SplitError (List ℕ)
split_into_milestones total count = do
  throw_if (ltb count 1) bad_count
  let base = total / count
  let remainder = total - base * count
  ok (map (share base remainder) (indices_from 0 count))

pub record PriceBreakdownView : Type 0 where
  pub total_minor : ℕ
  pub platform_fee_minor : ℕ
  pub coach_receives_minor : ℤ
  pub per_session_minor : ℕ
  pub commission_bps : ℕ

unfoldable pub compute_breakdown : ℕ → ℕ → PriceBreakdownView
compute_breakdown total bps =
    let fee = commission total bps in
    record {
      total_minor = total;
      platform_fee_minor = fee;
      coach_receives_minor = pos total -ℤ pos fee;
      per_session_minor = total;
      commission_bps = bps;
    }
