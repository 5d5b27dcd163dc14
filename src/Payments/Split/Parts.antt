-- ===== src/Payments/Split/Parts.antt =====
-- The amounts of the milestones.
use kaktus.Base.{
  ℕ, zero, suc, ◌+◌, ◌-◌, ◌*◌, ◌/◌, ◌≤◌, ◌<◌, ◌≡◌, refl, arith, List, [], ◌∷◌, map, ok, length, All,
  min, length-map, ap, ◌∙◌,
}
use kaktus.Base.Sums.{sum}
use kaktus.Payments.Split.{share, split_into_milestones, indices_from}

pub length-indices_from : (i n : ℕ) → length (indices_from i n) ≡ n
length-indices_from i zero = refl
length-indices_from i (suc n) = ap suc (length-indices_from (suc i) n)

sum-shares :
    (base remainder i n : ℕ)
    → sum (map (share base remainder) (indices_from i n)) + min remainder i
      ≡ n * base + min remainder (i + n)
unfolding share
sum-shares base remainder i zero = omega arith
sum-shares base remainder i (suc n) = ground (arith, sum-shares base remainder (suc i) n)

-- Every share is the base or one unit more.
abbrev pub Within : ℕ → ℕ → Type 0
Within base x = (base ≤ x) × (x ≤ base + 1)

shares-Within :
    (base remainder : ℕ) (is : List ℕ) → All (Within base) (map (share base remainder) is)
unfolding share
shares-Within base remainder [] = tt
shares-Within base remainder (i ∷ is) = (ground arith, shares-Within base remainder is)

-- Each amount is at least the next one.
abbrev pub Falls : List ℕ → Type 0
Falls [] = Unit
Falls (x ∷ []) = Unit
Falls (x ∷ y ∷ xs) = (y ≤ x) × Falls (y ∷ xs)

shares-Falls : (base remainder i n : ℕ) → Falls (map (share base remainder) (indices_from i n))
unfolding share
shares-Falls base remainder i zero = tt
shares-Falls base remainder i (suc zero) = tt
shares-Falls base remainder i (suc (suc n)) =
    (ground arith, shares-Falls base remainder (suc i) (suc n))

split-inv :
    (total count : ℕ) {parts : List ℕ}
    → split_into_milestones total count ≡ ok parts
    → (0 < count)
      × (parts ≡ map (share (total / count) (total - total / count * count)) (indices_from 0 count))
unfolding split_into_milestones
split-inv total count h = ground arith

division :
    (total count : ℕ)
    → 0 < count
    → (total / count * count ≤ total) × (total - total / count * count < count)
division total count h = (grind arith, grind arith)

-- The amounts are as many as were asked for and sum exactly to the total; they differ by at most
-- one unit, and the larger ones come first.
pub split_into_milestones_sound :
    (total count : ℕ) {parts : List ℕ}
    → split_into_milestones total count ≡ ok parts
    → (length parts ≡ count)
      × (sum parts ≡ total)
      × All (Within (total / count)) parts
      × Falls parts
split_into_milestones_sound total count h =
    let base = total / count in
    let remainder = total - base * count in
    let (p, e) = split-inv total count h in
    rw e (
      length-map (share base remainder) (indices_from 0 count) ∙ length-indices_from 0 count,
      omega (arith, sum-shares base remainder 0 count, division total count p),
      shares-Within base remainder (indices_from 0 count),
      shares-Falls base remainder 0 count,
    )
