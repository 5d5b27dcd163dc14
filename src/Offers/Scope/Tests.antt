-- ===== src/Offers/Scope/Tests.antt =====
-- Four sessions in two weeks, and each theorem at an input that meets its hypotheses.
use kaktus.Base.{ℕ, ◌+◌, ◌≡◌, refl, arith, List, [], ◌∷◌, ok, err, length, max, All}
use kaktus.Offers.Scope.{
  Slot, Period, milestone_periods, milestone_periods_for_slots, milestone_completable_at,
  sort_slots, start_of, last_end, period_at, first_indexes, bad_count, scheduled, no_show_coach,
  cancelled_by_coach,
}
use kaktus.Offers.Scope.Tiling.{Tiles, owners, milestone_periods-Tiles}
use kaktus.Offers.Scope.Sessions.{sessions_owned}

abbrev at : ℕ → Slot
at t = record { starts_at = t; ends_at = t + 60 }

abbrev five_sessions : List Slot
five_sessions = at 300 ∷ at 100 ∷ at 200 ∷ at 500 ∷ at 400 ∷ []

abbrev period : ℕ → ℕ → ℕ → Period
period i from to = record { index = i; period_start = from; period_end = to }

abbrev four_periods : List Period
four_periods = period 0 100 300 ∷ period 1 300 400 ∷ period 2 400 500 ∷ period 3 500 900 ∷ []

five_in_four : milestone_periods_for_slots five_sessions 0 900 4 ≡ ok four_periods
unfolding milestone_periods_for_slots sort_slots first_indexes start_of last_end period_at
five_in_four = refl

sessions_owned_example :
    (length four_periods ≡ 4)
    × Tiles
        (start_of (sort_slots five_sessions) 0)
        (max 900 (last_end (sort_slots five_sessions)))
        four_periods
    × All (λ (s : Slot). owners s.starts_at four_periods ≡ 1) five_sessions
sessions_owned_example =
    sessions_owned five_sessions 0 900 4 five_in_four (omega arith) (omega arith)

abbrev even_periods : List Period
even_periods = period 0 10 43 ∷ period 1 43 76 ∷ period 2 76 110 ∷ []

even_split : milestone_periods 10 110 3 ≡ ok even_periods
unfolding milestone_periods period_at
even_split = refl

milestone_periods-Tiles_example : Tiles 10 110 even_periods × (length even_periods ≡ 3)
milestone_periods-Tiles_example = milestone_periods-Tiles 10 110 3 even_split

no_milestones : milestone_periods 10 110 0 ≡ err bad_count
unfolding milestone_periods
no_milestones = refl

-- A cancelled session does not delay the milestone, and one that the coach missed does.
completable :
    ◌≡◌ {A = ℕ}
      (milestone_completable_at
        (record { ends_at = 50; status = scheduled }
          ∷ record { ends_at = 90; status = cancelled_by_coach }
          ∷ record { ends_at = 70; status = no_show_coach }
          ∷ [])
        60)
      70
unfolding milestone_completable_at
completable = refl
