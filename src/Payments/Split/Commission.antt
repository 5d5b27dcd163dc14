-- ===== src/Payments/Split/Commission.antt =====
-- The commission of one amount, and of an amount that is paid in parts.
use kaktus.Base.{
  ℕ, ◌+◌, ◌-◌, ◌*◌, ◌≤◌, ◌<◌, ◌≡◌, refl, arith, List, [], ◌∷◌, ok, length, is_ok, true, ◌↔◌,
}
use kaktus.Base.Int.{ℤ, pos, negsuc, pos_part, ◌≤ℤ◌}
use kaktus.Base.Sums.{sum, sum_by}
use kaktus.Payments.Split.{Split, split_amount, commission}

-- A commission of at most half leaves the coach at least as much as the platform takes.
pub commission_half : (amount bps : ℕ) → bps ≤ 5000 → 2 * commission amount bps ≤ amount
unfolding commission
commission_half amount bps h = grind arith

-- The commission is the exact share, rounded down.
pub commission_floor :
    (amount bps : ℕ)
    → (commission amount bps * 10000 ≤ amount * bps)
      × (amount * bps < (commission amount bps + 1) * 10000)
unfolding commission
commission_floor amount bps = omega arith

pub split_amount-inv :
    (g b : ℕ) {s : Split}
    → split_amount (pos g) (pos b) ≡ ok s
    → (0 < g)
      × (b ≤ 5000)
      × (s ≡ record {
        gross_minor = g;
        commission_minor = commission g b;
        net_to_coach_minor = g - commission g b;
      })
unfolding split_amount
split_amount-inv g b h = ground arith

-- A split that goes through keeps the gross amount and sums to it exactly; the commission is the
-- exact share rounded down, is at most what the coach gets, and leaves the coach something.
pub split_amount_sound :
    (gross bps : ℤ) {s : Split}
    → split_amount gross bps ≡ ok s
    → (pos s.gross_minor ≡ gross)
      × (s.commission_minor + s.net_to_coach_minor ≡ s.gross_minor)
      × (0 < s.net_to_coach_minor)
      × (s.commission_minor ≤ s.net_to_coach_minor)
      × (s.commission_minor * 10000 ≤ s.gross_minor * pos_part bps)
      × (s.gross_minor * pos_part bps < (s.commission_minor + 1) * 10000)
split_amount_sound (pos g) (pos b) h =
    let (p, q, e) = split_amount-inv g b h in
    rw e (
      refl,
      omega (arith, commission_half g b q),
      omega (arith, commission_half g b q),
      omega (arith, commission_half g b q),
      (commission_floor g b).0,
      (commission_floor g b).1,
    )
split_amount_sound (pos g) (negsuc b) h = unfold split_amount in ground arith
split_amount_sound (negsuc g) b h = unfold split_amount in ground arith

-- A split goes through exactly for a positive amount and a rate from 0 to 5000 basis points.
pub split_amount_iff :
    (gross bps : ℤ)
    → (is_ok (split_amount gross bps) ≡ true)
      ↔ ((pos 1 ≤ℤ gross) × (pos 0 ≤ℤ bps) × (bps ≤ℤ pos 5000))
unfolding split_amount
split_amount_iff gross bps = ground arith

-- The commission over the parts of an amount.
abbrev pub commission_of_parts : ℕ → List ℕ → ℕ
commission_of_parts bps = sum_by (λ amount. commission amount bps)

commission-add :
    (a b bps : ℕ)
    → (commission a bps + commission b bps ≤ commission (a + b) bps)
      × (commission (a + b) bps ≤ commission a bps + commission b bps + 1)
unfolding commission
commission-add a b bps = omega arith

-- Releasing an amount in parts takes no more commission than the whole would, and less than one
-- unit less for each part.
pub commission_of_parts_bounds :
    (bps : ℕ) (part : ℕ) (parts : List ℕ)
    → (commission_of_parts bps (part ∷ parts) ≤ commission (sum (part ∷ parts)) bps)
      × (commission (sum (part ∷ parts)) bps
          ≤ commission_of_parts bps (part ∷ parts) + length parts)
commission_of_parts_bounds bps part [] = unfold commission in omega arith
commission_of_parts_bounds bps part (next ∷ parts) =
    omega (
      arith,
      commission_of_parts_bounds bps next parts,
      commission-add part (sum (next ∷ parts)) bps,
    )
