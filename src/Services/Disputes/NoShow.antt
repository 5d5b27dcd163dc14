-- ===== src/Services/Disputes/NoShow.antt =====
-- server/services/dispute-service.ts: flagCoachNoShow. The status of the booking commits before the
-- dispute is opened; who cancelled it is left out.
use kaktus.Base.{
  ℕ, Bool, ◌&&◌, not, Option, none, some, find, select, length, ltb, ◌==◌, err, true, false,
}
use kaktus.Offers.StateMachine.{student}
use kaktus.Offers.Scope.{BookingStatus}
use kaktus.Booking.Holds.{update_bookings}
use kaktus.Database.{
  Booking, Tx, ⊤, ◌>>◌, throw_if, concurrent_modification, not_found, too_early, is_scheduled,
}
use kaktus.Services.Run.{Run, in_transaction, and_then}
use kaktus.Services.Disputes.{open_dispute_on, engagement_by_id}

abbrev stands_scheduled : ℕ → Booking → Bool
stands_scheduled id b = (b.id == id) && is_scheduled b.status

-- casStatus on bookings
unfoldable pub cas_booking : ℕ → (Booking → Booking) → Tx ⊤
cas_booking id change s =
    (throw_if (not (length (select (stands_scheduled id) s.bookings) == 1)) concurrent_modification
        >> update_bookings (stands_scheduled id) change)
      s

abbrev mark_no_show : Booking → Booking
mark_no_show b = record b { status = BookingStatus.no_show_coach }

unfoldable pub flag_engagement : Booking → Option ℕ → ℕ → Run ℕ
flag_engagement b none now s = (s, err not_found)
flag_engagement b (some engagement) now s = elim (ltb now b.ends_at) [
  | true ↦ (s, err too_early)
  | false ↦
      and_then (in_transaction (cas_booking b.id mark_no_show))
        (λ _ t. open_dispute_on (engagement_by_id engagement t) student now t) s
]

unfoldable pub flag_found : Option Booking → ℕ → Run ℕ
flag_found none now s = (s, err not_found)
flag_found (some b) now s = flag_engagement b b.engagement_id now s

unfoldable pub flag_coach_no_show : ℕ → ℕ → Run ℕ
flag_coach_no_show booking now s =
    flag_found (find (λ (b : Booking). b.id == booking) s.bookings) now s
