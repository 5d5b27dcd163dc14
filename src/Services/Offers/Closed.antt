-- ===== src/Services/Offers/Closed.antt =====
-- An invariant of the offers, the holds, the bookings and the ledger that the operations of those
-- parts keep is kept by every side effect, and so by the whole transaction of `transitionOffer`.
use kaktus.Base.{ℕ, suc, Bool, Option, none, some, List, ◌≡◌, refl, ◌==◌, length}
use kaktus.Base.Int.{ℤ, pos}
use kaktus.Offers.Scope.{Slot, Period}
use kaktus.Booking.Holds.{
  update_bookings, HoldRequest, acquire_holds, extend_holds, release_holds, update_holds,
  live_of_offer,
}
use kaktus.Booking.Holds
use kaktus.Booking.Holds.Exclusive.{Frees, Withdraws}
use kaktus.Offers.Scope.{milestone_periods_for_slots}
use kaktus.Payments.Split.{split_into_milestones}
use kaktus.Payments.Ledger.{
  EntryInput, Refs, post_group, post_milestone_release, release_milestone, update_milestone,
  mark_refunded, refund_from_escrow, ReleaseArgs,
}
use kaktus.Database.{
  Booking, Offer, Engagement, Milestone, SlotHold, Payment, CoachProfile, Store, Tx, ⊤, ◌>>=◌, ◌>>◌,
  pure,
}
use kaktus.Database
use kaktus.Database.Keeps.{
  Keeps, bind-Keeps, pure-Keeps, throw_if-Keeps, or_throw-Keeps, lift-Keeps, modify-Keeps,
  for_each-Keeps, when-Keeps,
}
use kaktus.Services.Offers.Effects
use kaktus.Services.Offers.Effects.{
  update_engagement, update_coach, release_stale, acquire_missing, extend_existing, reconcile_holds,
  count_engagement, add_engagement, add_milestone, activate_engagement, insert_engagement,
  create_engagement_for, create_milestone, insert_milestones,
}
use kaktus.Services.Offers.Money.{cancel_future_bookings}

-- What an invariant must stand: that any other table changes, and each operation of the parts.
pub record IsClosed (P : Store → Type 0) : Type 0 where
  pub rest :
      (s t : Store)
      → s.offers ≡ t.offers
      → s.slot_holds ≡ t.slot_holds
      → s.bookings ≡ t.bookings
      → s.ledger_entries ≡ t.ledger_entries
      → P s
      → P t
  pub posts : (es : List EntryInput) (refs : Refs) → Keeps P (post_group es refs)
  pub frees : (p : SlotHold → Bool) (f : SlotHold → SlotHold) → Frees f → Keeps P (update_holds p f)
  pub acquires : (req : HoldRequest) (now : ℕ) → Keeps P (acquire_holds req now)
  pub converts :
      (offer engagement : ℕ) (chosen : Milestone → Bool)
      → Keeps P (Holds.convert_holds_to_bookings offer engagement chosen)
  pub withdraws :
      (p : Booking → Bool) (f : Booking → Booking) → Withdraws f → Keeps P (update_bookings p f)

module _ (P : Store → Type 0) (c : IsClosed P) where
  pub cancel_future_bookings-Keeps :
      (engagement now : ℕ) → Keeps P (cancel_future_bookings engagement now)
  unfolding cancel_future_bookings
  cancel_future_bookings-Keeps engagement now = c.withdraws _ _ (λ coach t b taken. cc)

  pub elsewhere-Keeps :
      (f : Store → Store)
      → ((s : Store)
          → (s.offers ≡ (f s).offers)
            × (s.slot_holds ≡ (f s).slot_holds)
            × (s.bookings ≡ (f s).bookings)
            × (s.ledger_entries ≡ (f s).ledger_entries))
      → (s : Store) → P s
      → P (f s)
  elsewhere-Keeps f same s p = c.rest s (f s) (same s).0 (same s).1 (same s).2 (same s).3 p

  pub with_id-Keeps :
      {A : Type 0} (k : ℕ → Tx A) → ((id : ℕ) → Keeps P (k id)) → Keeps P (Database.fresh >>= k)
  with_id-Keeps k keep s r h p =
      keep s.next_id (record s { next_id = suc s.next_id }) r h
        (elsewhere-Keeps (λ t. record t { next_id = suc t.next_id }) (λ t. (refl, refl, refl, refl))
          s p)

  pub update_milestone-Keeps :
      (id : ℕ) (change : Milestone → Milestone) → Keeps P (update_milestone id change)
  unfolding update_milestone
  update_milestone-Keeps id change s =
      bind-Keeps P (Database.throw_if _ _) _ (throw_if-Keeps P _ _)
        (λ _. modify-Keeps P _ (elsewhere-Keeps _ (λ t. (refl, refl, refl, refl)))) s

  pub update_engagement-Keeps :
      (id : ℕ) (change : Engagement → Engagement) → Keeps P (update_engagement id change)
  unfolding update_engagement
  update_engagement-Keeps id change s =
      bind-Keeps P (Database.throw_if _ _) _ (throw_if-Keeps P _ _)
        (λ _. modify-Keeps P _ (elsewhere-Keeps _ (λ t. (refl, refl, refl, refl)))) s

  pub update_coach-Keeps :
      (id : ℕ) (change : CoachProfile → CoachProfile) → Keeps P (update_coach id change)
  unfolding update_coach
  update_coach-Keeps id change s =
      bind-Keeps P (Database.throw_if _ _) _ (throw_if-Keeps P _ _)
        (λ _. modify-Keeps P _ (elsewhere-Keeps _ (λ t. (refl, refl, refl, refl)))) s

  pub post_milestone_release-Keeps : (args : ReleaseArgs) → Keeps P (post_milestone_release args)
  unfolding post_milestone_release
  post_milestone_release-Keeps args =
      bind-Keeps P (Database.lift _ _) _ (lift-Keeps P _ _)
        (λ split. bind-Keeps P _ _ (c.posts _ _) (λ group. pure-Keeps P split))

  pub release_milestone-Keeps :
      (args : ReleaseArgs) (now : ℕ) → Keeps P (release_milestone args now)
  unfolding release_milestone
  release_milestone-Keeps args now =
      bind-Keeps P _ _ (post_milestone_release-Keeps args)
        (λ split. bind-Keeps P _ _ (update_milestone-Keeps _ _) (λ _. pure-Keeps P split))

  mark_refunded-Keeps : (milestone : Option ℕ) (now : ℕ) → Keeps P (mark_refunded milestone now)
  unfolding mark_refunded
  mark_refunded-Keeps none now = pure-Keeps P tt
  mark_refunded-Keeps (some id) now = update_milestone-Keeps id _

  pub refund_from_escrow-Keeps :
      (engagement : ℕ) (milestone : Option ℕ) (amount now : ℕ)
      → Keeps P (refund_from_escrow engagement milestone amount now)
  unfolding refund_from_escrow
  refund_from_escrow-Keeps engagement milestone amount now =
      bind-Keeps P _ _ (c.posts _ _)
        (λ group. bind-Keeps P _ _ (mark_refunded-Keeps milestone now) (λ _. pure-Keeps P group))

  release_stale-Keeps : (stale : List SlotHold) → Keeps P (release_stale stale)
  unfolding release_stale
  release_stale-Keeps stale = when-Keeps P _ _ (c.frees _ _ (λ coach t h taken. cc))

  pub extend_holds-Keeps : (offer minutes now : ℕ) → Keeps P (extend_holds offer minutes now)
  unfolding extend_holds
  extend_holds-Keeps offer minutes now = c.frees _ _ (λ coach t h taken. taken)

  pub release_holds-Keeps : (offer : ℕ) → Keeps P (release_holds offer)
  unfolding release_holds
  release_holds-Keeps offer = c.frees _ _ (λ coach t h taken. cc)

  acquire_missing-Keeps :
      (offer : Offer) (minutes now : ℕ) (missing : List Slot)
      → Keeps P (acquire_missing offer minutes now missing)
  unfolding acquire_missing
  acquire_missing-Keeps offer minutes now missing = when-Keeps P _ _ (c.acquires _ now)

  extend_existing-Keeps :
      (offer : Offer) (minutes now : ℕ) (existing : List SlotHold)
      → Keeps P (extend_existing offer minutes now existing)
  unfolding extend_existing
  extend_existing-Keeps offer minutes now existing =
      when-Keeps P _ _ (extend_holds-Keeps offer.id minutes now)

  reconcile_holds-Keeps :
      (offer : Offer) (minutes now : ℕ) (desired : List Slot) (existing : List SlotHold)
      → Keeps P (reconcile_holds offer minutes now desired existing)
  unfolding reconcile_holds
  reconcile_holds-Keeps offer minutes now desired existing =
      bind-Keeps P _ _ (release_stale-Keeps _) (λ _.
        bind-Keeps P _ _ (acquire_missing-Keeps offer minutes now _)
          (λ _. extend_existing-Keeps offer minutes now existing))

  pub create_slot_holds-Keeps :
      (offer : Offer) (minutes now : ℕ) → Keeps P (Effects.create_slot_holds offer minutes now)
  unfolding Effects.create_slot_holds
  create_slot_holds-Keeps offer minutes now s =
      when-Keeps P _ _ (reconcile_holds-Keeps offer minutes now _ _) s

  pub supersede_parent_offer-Keeps :
      (offer : Offer) (child : Option ℕ) → Keeps P (Effects.supersede_parent_offer offer child)
  unfolding Effects.supersede_parent_offer
  supersede_parent_offer-Keeps offer none = pure-Keeps P tt
  supersede_parent_offer-Keeps offer (some child) = c.frees _ _ (λ coach t h taken. taken)

  count_engagement-Keeps : (offer : Offer) (by : ℤ) → Keeps P (count_engagement offer by)
  unfolding count_engagement
  count_engagement-Keeps offer by = update_coach-Keeps _ _

  add_engagement-Keeps : (offer : Offer) (id : ℕ) → Keeps P (add_engagement offer id)
  unfolding add_engagement
  add_engagement-Keeps offer id =
      modify-Keeps P _ (elsewhere-Keeps _ (λ t. (refl, refl, refl, refl)))

  insert_engagement-Keeps : (offer : Offer) → Keeps P (insert_engagement offer)
  unfolding insert_engagement
  insert_engagement-Keeps offer =
      with_id-Keeps (λ id. add_engagement offer id >> count_engagement offer (pos 1))
        (λ id.
          bind-Keeps P _ _ (add_engagement-Keeps offer id)
            (λ _. count_engagement-Keeps offer (pos 1)))

  engagement_for-Keeps :
      (offer : Offer) (e : Option Engagement) → Keeps P (create_engagement_for offer e)
  unfolding create_engagement_for activate_engagement
  engagement_for-Keeps offer none = insert_engagement-Keeps offer
  engagement_for-Keeps offer (some e) =
      when-Keeps P _ _
        (bind-Keeps P _ _ (update_engagement-Keeps _ _) (λ _. count_engagement-Keeps offer (pos 1)))

  pub create_engagement-Keeps : (offer : Offer) → Keeps P (Effects.create_engagement offer)
  unfolding Effects.create_engagement
  create_engagement-Keeps offer s = engagement_for-Keeps offer (Effects.engagement_of offer.id s) s

  add_milestone-Keeps :
      (engagement : ℕ) (amounts : List ℕ) (p : Period) (id : ℕ)
      → Keeps P (add_milestone engagement amounts p id)
  unfolding add_milestone
  add_milestone-Keeps engagement amounts p id =
      modify-Keeps P _ (elsewhere-Keeps _ (λ t. (refl, refl, refl, refl)))

  pub create_milestone-Keeps :
      (engagement : ℕ) (amounts : List ℕ) (p : Period)
      → Keeps P (create_milestone engagement amounts p)
  unfolding create_milestone
  create_milestone-Keeps engagement amounts p =
      bind-Keeps P (Database.throw_if _ _)
        (λ _. Database.fresh >>= add_milestone engagement amounts p) (throw_if-Keeps P _ _)
        (λ _.
          with_id-Keeps (add_milestone engagement amounts p)
            (add_milestone-Keeps engagement amounts p))

  insert_milestones-Keeps : (offer : Offer) (e : Engagement) → Keeps P (insert_milestones offer e)
  unfolding insert_milestones
  insert_milestones-Keeps offer e =
      let periods =
        milestone_periods_for_slots offer.scope_slots e.start_date e.end_date
          offer.milestone_count in
      let amounts = split_into_milestones e.total_minor offer.milestone_count in
      bind-Keeps P (Database.lift Database.bad_scope periods) _ (lift-Keeps P _ periods) (λ ps.
        bind-Keeps P (Database.lift Database.bad_split amounts) _ (lift-Keeps P _ amounts)
          (λ xs. for_each-Keeps P _ ps (create_milestone-Keeps e.id xs)))

  pub create_milestones-Keeps : (offer : Offer) → Keeps P (Effects.create_milestones offer)
  unfolding Effects.create_milestones
  create_milestones-Keeps offer s =
      let row = Effects.engagement_of offer.id s in
      bind-Keeps P (Database.or_throw row Database.not_found) _ (or_throw-Keeps P row _)
        (λ (e : Engagement) t.
          when-Keeps P (length (Effects.milestones_of e.id t) == 0) _
            (insert_milestones-Keeps offer e) t)
        s
