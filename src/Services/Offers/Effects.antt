-- ===== src/Services/Offers/Effects.antt =====
-- server/services/offer-service.ts: applyEffect, one operation for each side effect that writes.
use kaktus.Base.{
  ℕ, Bool, ◌&&◌, not, Option, none, some, List, [], ◌∷◌, ◌++◌, ◌==◌, any, find, select,
  update_where, length, get_or,
}
use kaktus.Base.Int.{ℤ, pos, ◌+ℤ◌}
use kaktus.Offers.Scope.{Slot, Period, milestone_periods_for_slots}
use kaktus.Payments.Split.{split_into_milestones}
use kaktus.Booking.Holds.{HoldRequest, acquire_holds, extend_holds, update_holds, live_of_offer}
use kaktus.Database.{
  Offer, Engagement, EngagementStatus, Milestone, MilestoneStatus, SlotHold, HoldStatus,
  CoachProfile, Store, Tx, ⊤, ◌>>=◌, ◌>>◌, pure, throw_if, gets, modify, lift, fresh, or_throw,
  for_each, when, not_found, constraint_violation, bad_scope, bad_split, is_pending_payment,
}

-- `engagement.update` and `coachProfile.update` by id, which throw where there is no such row.
unfoldable pub update_engagement : ℕ → (Engagement → Engagement) → Tx ⊤
update_engagement id change = do
  rows ← gets (λ s. s.engagements)
  throw_if (not (any (λ (e : Engagement). e.id == id) rows)) not_found
  modify λ s. record s { engagements = update_where (λ e. e.id == id) change s.engagements }

unfoldable pub update_coach : ℕ → (CoachProfile → CoachProfile) → Tx ⊤
update_coach id change = do
  rows ← gets (λ s. s.coach_profiles)
  throw_if (not (any (λ (c : CoachProfile). c.id == id) rows)) not_found
  modify λ s. record s { coach_profiles = update_where (λ c. c.id == id) change s.coach_profiles }

abbrev pub engagement_of : ℕ → Store → Option Engagement
engagement_of offer s = find (λ e. e.offer_id == offer) s.engagements

abbrev pub milestones_of : ℕ → Store → List Milestone
milestones_of engagement s = select (λ m. m.engagement_id == engagement) s.milestones

-- CREATE_SLOT_HOLDS: two slots are the same when their keys are.
abbrev pub same_slot : Slot → Slot → Bool
same_slot a b = (a.starts_at == b.starts_at) && (a.ends_at == b.ends_at)

abbrev pub slot_of : SlotHold → Slot
slot_of h = record { starts_at = h.starts_at; ends_at = h.ends_at }

-- The values of the map `desired`: each key once, where it first stands.
abbrev pub distinct : List Slot → List Slot
distinct [] = []
distinct (s ∷ ss) = s ∷ select (λ t. not (same_slot s t)) (distinct ss)

abbrev pub stale_holds : List Slot → List SlotHold → List SlotHold
stale_holds desired = select (λ h. not (any (same_slot (slot_of h)) desired))

abbrev pub missing_slots : List Slot → List SlotHold → List Slot
missing_slots desired existing =
    select (λ s. not (any (λ h. same_slot (slot_of h) s) existing)) desired

unfoldable pub release_stale : List SlotHold → Tx ⊤
release_stale stale = when (not (length stale == 0)) (
    update_holds (λ h. any (λ (k : SlotHold). k.id == h.id) stale)
      λ h. record h { status = HoldStatus.released })

abbrev pub hold_request : Offer → ℕ → List Slot → HoldRequest
hold_request offer minutes missing = record {
  coach_profile_id = offer.coach_profile_id;
  student_profile_id = offer.student_profile_id;
  offer_id = some offer.id;
  slots = missing;
  ttl_minutes = minutes;
}

unfoldable pub acquire_missing : Offer → ℕ → ℕ → List Slot → Tx ⊤
acquire_missing offer minutes now missing =
    when (not (length missing == 0)) (acquire_holds (hold_request offer minutes missing) now)

unfoldable pub extend_existing : Offer → ℕ → ℕ → List SlotHold → Tx ⊤
extend_existing offer minutes now existing =
    when (not (length existing == 0)) (extend_holds offer.id minutes now)

-- What is held already stays held, what is no longer wanted is let go, the rest is acquired.
unfoldable pub reconcile_holds : Offer → ℕ → ℕ → List Slot → List SlotHold → Tx ⊤
reconcile_holds offer minutes now desired existing = do
  release_stale (stale_holds desired existing)
  acquire_missing offer minutes now (missing_slots desired existing)
  extend_existing offer minutes now existing

unfoldable pub create_slot_holds : Offer → ℕ → ℕ → Tx ⊤
create_slot_holds offer minutes now s =
    let existing = select (live_of_offer offer.id) s.slot_holds in
    when (not (length offer.scope_slots == 0))
      (reconcile_holds offer minutes now (distinct offer.scope_slots) existing) s

-- SUPERSEDE_PARENT_OFFER: the live holds go to the child offer.
unfoldable pub supersede_parent_offer : Offer → Option ℕ → Tx ⊤
supersede_parent_offer offer none = pure tt
supersede_parent_offer offer (some child) =
    update_holds (live_of_offer offer.id) λ h. record h { offer_id = some child }

-- CREATE_ENGAGEMENT
unfoldable pub count_engagement : Offer → ℤ → Tx ⊤
count_engagement offer by =
    update_coach offer.coach_profile_id
      λ c. record c { active_engagements = c.active_engagements +ℤ by }

unfoldable pub activate_engagement : Offer → Engagement → Tx ⊤
activate_engagement offer e = do
  update_engagement e.id λ x. record x { status = EngagementStatus.active }
  count_engagement offer (pos 1)

unfoldable pub add_engagement : Offer → ℕ → Tx ⊤
add_engagement offer id = modify λ s. record s {
  engagements =
      s.engagements
      ++ (record {
        id = id;
        offer_id = offer.id;
        coach_profile_id = offer.coach_profile_id;
        student_profile_id = offer.student_profile_id;
        status = EngagementStatus.active;
        start_date = offer.start_date;
        end_date = offer.end_date;
        total_minor = offer.price_minor;
        commission_bps = offer.commission_bps;
        completed_at = none;
      }
          ∷ []);
}

unfoldable pub insert_engagement : Offer → Tx ⊤
insert_engagement offer = do id ← fresh; add_engagement offer id; count_engagement offer (pos 1)

unfoldable pub create_engagement_for : Offer → Option Engagement → Tx ⊤
create_engagement_for offer (some e) =
    when (is_pending_payment e.status) (activate_engagement offer e)
create_engagement_for offer none = insert_engagement offer

unfoldable pub create_engagement : Offer → Tx ⊤
create_engagement offer = do
  existing ← gets (engagement_of offer.id)
  create_engagement_for offer existing

-- CREATE_MILESTONES, with CHECK ("amountMinor" > 0)
unfoldable pub add_milestone : ℕ → List ℕ → Period → ℕ → Tx ⊤
add_milestone engagement amounts p id = modify λ s. record s {
  milestones =
      s.milestones
      ++ (record {
        id = id;
        engagement_id = engagement;
        index = p.index;
        period_start = p.period_start;
        period_end = p.period_end;
        amount_minor = get_or amounts p.index 0;
        status = MilestoneStatus.scheduled;
        provider_transaction_id = none;
        provider_approved_at = none;
        auto_release_at = none;
        released_at = none;
        refunded_at = none;
      }
          ∷ []);
}

unfoldable pub create_milestone : ℕ → List ℕ → Period → Tx ⊤
create_milestone engagement amounts p = do
  throw_if (get_or amounts p.index 0 == 0) constraint_violation
  id ← fresh
  add_milestone engagement amounts p id

unfoldable pub insert_milestones : Offer → Engagement → Tx ⊤
insert_milestones offer e = do
  periods ←
      lift bad_scope (
        milestone_periods_for_slots offer.scope_slots e.start_date e.end_date offer.milestone_count)
  amounts ← lift bad_split (split_into_milestones e.total_minor offer.milestone_count)
  for_each (create_milestone e.id amounts) periods

unfoldable pub create_milestones : Offer → Tx ⊤
create_milestones offer = do
  found ← gets (engagement_of offer.id)
  e ← or_throw found not_found
  already ← gets (λ s. length (milestones_of e.id s))
  when (already == 0) (insert_milestones offer e)
