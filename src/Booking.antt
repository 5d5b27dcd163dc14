-- ===== src/Booking.antt =====
-- lib/booking: the slots of a coach's calendar.
pub mod Holds
