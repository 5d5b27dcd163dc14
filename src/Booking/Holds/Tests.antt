-- ===== src/Booking/Holds/Tests.antt =====
-- Two students after one evening slot.
use kaktus.Base.{ℕ, ◌≤◌, ◌≡◌, refl, arith, Bool, true, some, List, [], ◌∷◌, length, select}
use kaktus.Offers.Scope.{Slot}
use kaktus.Database.{Milestone, SlotHold, is_held_slot}
use kaktus.Database.Samples.{empty_store}
use kaktus.Booking.Holds.{
  HoldRequest, acquire_holds, create_hold, check_slot, update_holds, release_holds,
  convert_holds_to_bookings, convert_rows, create_booking, sort_holds, sort_milestones,
}
use kaktus.Booking.Holds.Exclusive.{occupancy}
use kaktus.Booking.Holds.History.{HoldOp, acquire, release, convert, run_ops, never_double_booked}

abbrev evening : Slot
evening = record { starts_at = 10000000; ends_at = 13600000 }

abbrev ask : ℕ → ℕ → HoldRequest
ask student offer = record {
  coach_profile_id = 7;
  student_profile_id = student;
  offer_id = some offer;
  slots = evening ∷ [];
  ttl_minutes = 30;
}

abbrev everyone : Milestone → Bool
everyone m = true

-- The second student is refused, then the first one's hold becomes a booking.
abbrev race : List HoldOp
race = acquire (ask 1 11) 0 ∷ acquire (ask 2 12) 0 ∷ convert 11 5 everyone ∷ release 12 ∷ []

race_ends :
    (length (select (λ (h : SlotHold). is_held_slot h.status) (run_ops race empty_store).slot_holds)
      ≡ 0)
    × (length (run_ops race empty_store).slot_holds ≡ 1)
    × (length (run_ops race empty_store).bookings ≡ 1)
unfolding run_ops acquire_holds create_hold check_slot update_holds release_holds
    convert_holds_to_bookings convert_rows create_booking sort_holds sort_milestones
race_ends = (refl, refl, refl)

never_double_booked_example : occupancy 7 12000000 (run_ops race empty_store) ≤ 1
never_double_booked_example =
    never_double_booked race empty_store (λ coach t. omega arith) 7 12000000
