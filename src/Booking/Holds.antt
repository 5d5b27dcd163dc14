-- ===== src/Booking/Holds.antt =====
-- lib/booking/holds.ts, over the constraints of the migration that make a slot exclusive.
pub mod Exclusive
pub mod History
mod Tests
use kaktus.Base.{
  ℕ, ◌+◌, ◌*◌, Bool, true, false, ◌&&◌, ◌||◌, not, Option, none, some, List, [], ◌∷◌, ◌++◌, map,
  ltb, leb, ◌==◌, if◌then◌else◌, any, find, select, update_where, length, zero, suc,
}
use kaktus.Offers.Scope.{Slot, BookingStatus}
use kaktus.Database.{
  SlotHold, HoldStatus, Booking, Milestone, Store, Tx, ⊤, ◌>>=◌, ◌>>◌, pure, throw_if, gets, modify,
  fresh, when, for_each, slot_taken, constraint_violation, is_held_slot, is_scheduled,
}

-- tstzrange(a, b, '[)') && tstzrange(c, d, '[)'), of ranges that are not empty
abbrev pub overlaps : ℕ → ℕ → ℕ → ℕ → Bool
overlaps a b c d = ltb a d && ltb c b

-- A live hold, or a scheduled booking, of the coach that overlaps the slot.
abbrev pub hold_clashes : ℕ → Slot → SlotHold → Bool
hold_clashes coach slot h =
    is_held_slot h.status
    && (h.coach_profile_id == coach)
    && overlaps h.starts_at h.ends_at slot.starts_at slot.ends_at

abbrev pub booking_clashes : ℕ → Slot → Booking → Bool
booking_clashes coach slot b =
    is_scheduled b.status
    && (b.coach_profile_id == coach)
    && overlaps b.starts_at b.ends_at slot.starts_at slot.ends_at

-- What slot_hold_no_overlap, booking_no_overlap and the cross-table trigger refuse.
abbrev pub is_taken : ℕ → Slot → Store → Bool
is_taken coach slot s =
    any (hold_clashes coach slot) s.slot_holds || any (booking_clashes coach slot) s.bookings

-- CHECK ("endsAt" > "startsAt"), then the exclusion constraints, for a new live row.
unfoldable pub check_slot : ℕ → Slot → Tx ⊤
check_slot coach slot = do
  throw_if (leb slot.ends_at slot.starts_at) constraint_violation
  taken ← gets (is_taken coach slot)
  throw_if taken slot_taken

pub record HoldRequest : Type 0 where
  pub coach_profile_id : ℕ
  pub student_profile_id : ℕ
  pub offer_id : Option ℕ
  pub slots : List Slot
  pub ttl_minutes : ℕ

-- `slotHold.create`; an exclusion violation is thrown on as SlotUnavailableError.
unfoldable pub create_hold : HoldRequest → ℕ → Slot → Tx ⊤
create_hold req expires_at slot = do
  check_slot req.coach_profile_id slot
  id ← fresh
  modify λ s. record s {
    slot_holds =
        s.slot_holds
        ++ (record {
          id = id;
          coach_profile_id = req.coach_profile_id;
          student_profile_id = req.student_profile_id;
          offer_id = req.offer_id;
          starts_at = slot.starts_at;
          ends_at = slot.ends_at;
          expires_at = expires_at;
          status = HoldStatus.held;
        }
            ∷ []);
  }

-- All slots or none: the first that is taken rolls the transaction back.
unfoldable pub acquire_holds : HoldRequest → ℕ → Tx ⊤
acquire_holds req now = for_each (create_hold req (now + req.ttl_minutes * 60 * 1000)) req.slots

-- WHERE offerId = … AND status = 'HELD'
abbrev pub live_of_offer : ℕ → SlotHold → Bool
live_of_offer offer h =
    is_held_slot h.status && (elim h.offer_id [ some x ↦ x == offer | none ↦ false ])

unfoldable pub update_holds : (SlotHold → Bool) → (SlotHold → SlotHold) → Tx ⊤
update_holds p f = modify λ s. record s { slot_holds = update_where p f s.slot_holds }

unfoldable pub update_bookings : (Booking → Bool) → (Booking → Booking) → Tx ⊤
update_bookings p f = modify λ s. record s { bookings = update_where p f s.bookings }

unfoldable pub extend_holds : ℕ → ℕ → ℕ → Tx ⊤
extend_holds offer minutes now =
    update_holds (live_of_offer offer) λ h. record h { expires_at = now + minutes * 60 * 1000 }

unfoldable pub release_holds : ℕ → Tx ⊤
release_holds offer =
    update_holds (live_of_offer offer) λ h. record h { status = HoldStatus.released }

-- The stable sort of `orderBy: { startsAt: 'asc' }`.
unfoldable pub insert_hold : SlotHold → List SlotHold → List SlotHold
insert_hold h [] = h ∷ []
insert_hold h (k ∷ ks) = if leb h.starts_at k.starts_at then h ∷ k ∷ ks else k ∷ insert_hold h ks

unfoldable pub sort_holds : List SlotHold → List SlotHold
unfolding insert_hold
sort_holds [] = []
sort_holds (h ∷ hs) = insert_hold h (sort_holds hs)

unfoldable pub insert_milestone : Milestone → List Milestone → List Milestone
insert_milestone m [] = m ∷ []
insert_milestone m (k ∷ ks) = if leb m.index k.index then m ∷ k ∷ ks else k ∷ insert_milestone m ks

-- The stable sort of `orderBy: { index: 'asc' }`.
unfoldable pub sort_milestones : List Milestone → List Milestone
unfolding insert_milestone
sort_milestones [] = []
sort_milestones (m ∷ ms) = insert_milestone m (sort_milestones ms)

-- The milestone whose period holds the start of a slot.
abbrev pub milestone_of : ℕ → List Milestone → Option Milestone
milestone_of t = find (λ m. leb m.period_start t && ltb t m.period_end)

abbrev pub id_of : Option Milestone → Option ℕ
id_of (some m) = some m.id
id_of none = none

unfoldable pub create_booking : ℕ → List Milestone → SlotHold → Tx ⊤
create_booking engagement milestones h = do
  check_slot h.coach_profile_id (record { starts_at = h.starts_at; ends_at = h.ends_at })
  id ← fresh
  modify λ s. record s {
    bookings =
        s.bookings
        ++ (record {
          id = id;
          coach_profile_id = h.coach_profile_id;
          student_profile_id = h.student_profile_id;
          engagement_id = some engagement;
          milestone_id = id_of (milestone_of h.starts_at milestones);
          starts_at = h.starts_at;
          ends_at = h.ends_at;
          status = BookingStatus.scheduled;
          coach_confirmed_at = none;
          student_confirmed_at = none;
        }
            ∷ []);
  }

-- The writes of the conversion: the holds first, so that the trigger does not see them as conflicts
-- with their own bookings.
unfoldable pub convert_rows : ℕ → ℕ → List Milestone → List SlotHold → Tx ⊤
convert_rows offer engagement milestones holds = do
  update_holds (live_of_offer offer) λ h. record h { status = HoldStatus.converted }
  for_each (create_booking engagement milestones) holds

-- `chosen` selects the milestones that the id list of the source names.
unfoldable pub convert_holds_to_bookings : ℕ → ℕ → (Milestone → Bool) → Tx ⊤
convert_holds_to_bookings offer engagement chosen s =
    let holds = sort_holds (select (live_of_offer offer) s.slot_holds) in
    let milestones = sort_milestones (select chosen s.milestones) in
    when (not (length holds == 0)) (convert_rows offer engagement milestones holds) s

-- The job that sweeps the holds that have run out.
unfoldable pub expire_stale_holds : ℕ → Tx ⊤
expire_stale_holds now =
    update_holds (λ h. is_held_slot h.status && leb h.expires_at now)
      λ h. record h { status = HoldStatus.expired }
