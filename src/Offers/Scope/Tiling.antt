-- ===== src/Offers/Scope/Tiling.antt =====
-- Periods that tile a stretch of time, and the even split.
use kaktus.Base.{
  ℕ, zero, suc, ◌+◌, ◌-◌, ◌*◌, ◌/◌, ◌≤◌, ◌<◌, ◌≡◌, refl, arith, Bool, true, ◌&&◌, List, [], ◌∷◌,
  map, leb, ltb, ◌==◌, ok, length, length-map, ◌∙◌, sym, if◌then◌else◌,
}
use mathlib.Core.Path.{subst}
use kaktus.Payments.Split.{indices_from}
use kaktus.Payments.Split.Parts.{length-indices_from}
use kaktus.Offers.Scope.{Period, period_at, milestone_periods}

-- Each period starts where the one before ends, the first at `from`, and the last ends at `to`.
abbrev pub Tiles : ℕ → ℕ → List Period → Type 0
Tiles from to [] = from ≡ to
Tiles from to (p ∷ ps) =
    (p.period_start ≡ from) × (p.period_start ≤ p.period_end) × Tiles p.period_end to ps

-- The test by which a booking is assigned to a period.
unfoldable pub in_period : ℕ → Period → Bool
in_period t p = leb p.period_start t && ltb t p.period_end

-- How many periods an instant is in.
abbrev pub owners : ℕ → List Period → ℕ
owners t [] = 0
owners t (p ∷ ps) = if in_period t p then suc (owners t ps) else owners t ps

Tiles-le : (from to : ℕ) (ps : List Period) → Tiles from to ps → from ≤ to
Tiles-le from to [] h = omega arith
Tiles-le from to (p ∷ ps) h = omega (arith, Tiles-le p.period_end to ps h.2)

owners_before : (t from to : ℕ) (ps : List Period) → Tiles from to ps → t < from → owners t ps ≡ 0
unfolding in_period
owners_before t from to [] h b = refl
owners_before t from to (p ∷ ps) h b = ground (arith, owners_before t p.period_end to ps h.2)

-- In a tiling every instant of the stretch is in exactly one period, and no other is in any.
pub Tiles-owners :
    (t from to : ℕ) (ps : List Period)
    → Tiles from to ps
    → ((from ≤ t) × (t < to) → owners t ps ≡ 1) × (to ≤ t → owners t ps ≡ 0)
unfolding in_period
Tiles-owners t from to [] h = (λ r. omega arith, λ r. refl)
Tiles-owners t from to (p ∷ ps) h =
    let (inside, after) = Tiles-owners t p.period_end to ps h.2 in
    (
      λ r. ground (arith, inside, owners_before t p.period_end to ps h.2),
      λ r. ground (arith, after, Tiles-le p.period_end to ps h.2),
    )

-- Periods whose starts do not fall tile the time from the first start to the end.
pub period_at-Tiles :
    (starts : ℕ → ℕ) (end count i n : ℕ)
    → suc i + n ≡ count
    → ((j : ℕ) → suc j < count → starts j ≤ starts (suc j))
    → starts (count - 1) ≤ end
    → Tiles (starts i) end (map (period_at starts end count) (indices_from i (suc n)))
unfolding period_at
period_at-Tiles starts end count i zero e mono last =
    let at : i ≡ count - 1 = omega arith in
    let here : (i == count - 1) ≡ true = ground arith in
    rw here (refl, subst (λ j. starts j ≤ end) (sym at) last, refl)
period_at-Tiles starts end count i (suc n) e mono last =
    ground (arith, mono i, period_at-Tiles starts end count (suc i) n (omega arith) mono last)

milestone_periods-inv :
    (start_date end_date count : ℕ) {ps : List Period}
    → milestone_periods start_date end_date count ≡ ok ps
    → (0 < count)
      × (start_date < end_date)
      × (ps
          ≡ map
              (period_at (λ i. start_date + (end_date - start_date) / count * i) end_date count)
              (indices_from 0 count))
unfolding milestone_periods
milestone_periods-inv start_date end_date count h = ground arith

even-Tiles :
    (start_date end_date n : ℕ)
    → start_date < end_date
    → let step = (end_date - start_date) / suc n in
      Tiles
        (start_date + step * 0)
        end_date
        (map (period_at (λ i. start_date + step * i) end_date (suc n)) (indices_from 0 (suc n)))
even-Tiles start_date end_date n h =
    let step = (end_date - start_date) / suc n in
    period_at-Tiles (λ i. start_date + step * i) end_date (suc n) 0 n (omega arith)
      (λ j _. omega arith) (steps_within n)
  where
    steps_within : (n : ℕ) → start_date + (end_date - start_date) / suc n * (suc n - 1) ≤ end_date
    steps_within n = grind arith

-- The even split tiles the engagement exactly: no gap and no overlap, from its start to its end.
pub milestone_periods-Tiles :
    (start_date end_date count : ℕ) {ps : List Period}
    → milestone_periods start_date end_date count ≡ ok ps
    → Tiles start_date end_date ps × (length ps ≡ count)
milestone_periods-Tiles start_date end_date zero h =
    absurd (omega (arith, milestone_periods-inv start_date end_date zero h))
milestone_periods-Tiles start_date end_date (suc n) h =
    let (_, later, e) = milestone_periods-inv start_date end_date (suc n) h in
    let start : start_date + (end_date - start_date) / suc n * 0 ≡ start_date = omega arith in
    rw e (
      subst
          (λ from. Tiles from end_date (
            map (period_at (λ i. start_date + (end_date - start_date) / suc n * i) end_date (suc n))
              (indices_from 0 (suc n))))
          start (even-Tiles start_date end_date n later),
      length-map _ (indices_from 0 (suc n)) ∙ length-indices_from 0 (suc n),
    )
