-- ===== src/Services/Offers/Kept.antt =====
-- The side effects on the escrow, and the whole of `transitionOffer`, keep such an invariant.
use kaktus.Base.{ℕ, Bool, true, false, Option, none, some, List, [], ◌∷◌, refl, String}
use kaktus.Offers.StateMachine.{
  SideEffect, TransitionOutcome, create_slot_holds, extend_slot_holds, release_slot_holds,
  convert_holds_to_bookings, create_engagement, create_milestones, post_escrow_funding,
  freeze_pending_milestones, release_remaining_milestones, refund_unreleased_escrow,
  supersede_parent_offer, notify, audit,
}
use kaktus.Payments.Ledger
use kaktus.Database
use kaktus.Database.{
  Offer, Engagement, Milestone, SlotHold, Payment, CoachProfile, Store, Tx, ⊤, ◌>>=◌, ◌>>◌, pure,
}
use kaktus.Database.Keeps.{
  Keeps, bind-Keeps, pure-Keeps, or_throw-Keeps, modify-Keeps, for_each-Keeps, when-Keeps,
}
use kaktus.Services.Offers.{
  LoadedOffer, DeferredWork, TransitionRequest, apply_effect, apply_effects, refund_escrow,
  record_event,
}
use kaktus.Services.Offers.Effects
use kaktus.Services.Offers.Money.{
  fund, fund_escrow, convert_holds, freeze_rows, freeze, add_refund, refund_some, release_one,
  refund_one, refund_all, refund_rows, RefundRequest,
}
use kaktus.Services.Offers.Money
use kaktus.Services.Offers.Closed.{
  IsClosed, cancel_future_bookings-Keeps, elsewhere-Keeps, with_id-Keeps, update_engagement-Keeps,
  update_coach-Keeps, release_milestone-Keeps, refund_from_escrow-Keeps, extend_holds-Keeps,
  release_holds-Keeps, create_slot_holds-Keeps, supersede_parent_offer-Keeps,
  create_engagement-Keeps, create_milestones-Keeps,
}

module _ (P : Store → Type 0) (c : IsClosed P) where
  fund-Keeps : (engagement : ℕ) (p : Payment) → Keeps P (fund engagement p)
  unfolding fund Ledger.post_escrow_funding
  fund-Keeps engagement p s =
      when-Keeps P _ _ (bind-Keeps P _ _ (c.posts _ _) (λ group. pure-Keeps P tt)) s

  fund_escrow-Keeps :
      (offer : Offer) (payments : List Payment) → Keeps P (fund_escrow offer payments)
  unfolding fund_escrow
  fund_escrow-Keeps offer payments s =
      let row = Effects.engagement_of offer.id s in
      let p = Money.first_payment payments in
      let none_captured = Database.no_captured_payment in
      bind-Keeps P (Database.or_throw row Database.not_found) _ (or_throw-Keeps P row _)
        (λ (e : Engagement).
          bind-Keeps P (Database.or_throw p none_captured) _ (or_throw-Keeps P p none_captured)
            (λ (p : Payment). fund-Keeps e.id p))
        s

  convert_holds-Keeps : (offer : Offer) → Keeps P (convert_holds offer)
  unfolding convert_holds
  convert_holds-Keeps offer s =
      bind-Keeps P (Database.or_throw _ _) _ (or_throw-Keeps P _ _)
        (λ (e : Engagement) t.
          c.converts offer.id e.id (Money.among (Effects.milestones_of e.id t)) t)
        s

  freeze_rows-Keeps : (engagement : ℕ) → Keeps P (freeze_rows engagement)
  unfolding freeze_rows
  freeze_rows-Keeps engagement =
      modify-Keeps P _ (elsewhere-Keeps P c _ (λ t. (refl, refl, refl, refl)))

  freeze-Keeps : (e : Option Engagement) → Keeps P (freeze e)
  unfolding freeze
  freeze-Keeps none = pure-Keeps P tt
  freeze-Keeps (some e) =
      bind-Keeps P _ _ (freeze_rows-Keeps e.id) (λ _. update_engagement-Keeps P c _ _)

  freeze_pending_milestones-Keeps :
      (offer : Offer) → Keeps P (Money.freeze_pending_milestones offer)
  unfolding Money.freeze_pending_milestones
  freeze_pending_milestones-Keeps offer s = freeze-Keeps (Effects.engagement_of offer.id s) s

  release_one-Keeps : (e : Engagement) (now : ℕ) (m : Milestone) → Keeps P (release_one e now m)
  unfolding release_one
  release_one-Keeps e now m =
      bind-Keeps P _ _ (release_milestone-Keeps P c _ now) (λ split. pure-Keeps P tt)

  release_remaining_milestones-Keeps :
      (offer : Offer) (now : ℕ) → Keeps P (Money.release_remaining_milestones offer now)
  unfolding Money.release_remaining_milestones
  release_remaining_milestones-Keeps offer now s =
      bind-Keeps P (Database.or_throw _ _) _ (or_throw-Keeps P _ _)
        (λ (e : Engagement) t.
          bind-Keeps P (Database.for_each (release_one e now) (Money.frozen_of e.id t)) _
            (for_each-Keeps P _ (Money.frozen_of e.id t) (release_one-Keeps e now))
            (λ _. update_engagement-Keeps P c _ _) t)
        s

  add_refund-Keeps :
      (req : RefundRequest) (payment : Option Payment) (m : Milestone) (id : ℕ)
      → Keeps P (add_refund req payment m id)
  unfolding add_refund
  add_refund-Keeps req payment m id =
      modify-Keeps P _ (elsewhere-Keeps P c _ (λ t. (refl, refl, refl, refl)))

  refund_one-Keeps :
      (req : RefundRequest) (payment : Option Payment) (m : Milestone)
      → Keeps P (refund_one req payment m)
  unfolding refund_one
  refund_one-Keeps req payment m =
      bind-Keeps P _ (λ _. Database.fresh >>= λ id. add_refund req payment m id >> pure id)
        (refund_from_escrow-Keeps P c _ _ _ _)
        (λ _.
          with_id-Keeps P c (λ id. add_refund req payment m id >> pure id)
            (λ id. bind-Keeps P _ _ (add_refund-Keeps req payment m id) (λ _. pure-Keeps P id)))

  refund_all-Keeps :
      (req : RefundRequest) (payment : Option Payment) (first : Option ℕ) (ms : List Milestone)
      → Keeps P (refund_all req payment first ms)
  unfolding refund_all
  refund_all-Keeps req payment first [] = pure-Keeps P first
  refund_all-Keeps req payment first (m ∷ ms) =
      bind-Keeps P _ _ (refund_one-Keeps req payment m)
        (λ id. refund_all-Keeps req payment (Money.or_first first id) ms)

  refund_rows-Keeps : (req : RefundRequest) (ms : List Milestone) → Keeps P (refund_rows req ms)
  unfolding refund_rows
  refund_rows-Keeps req ms s =
      bind-Keeps P (Database.or_throw _ _) _ (or_throw-Keeps P _ _)
        (λ (e : Engagement) t.
          bind-Keeps P _ _ (refund_all-Keeps req (Money.captured_payment_of req.offer_id t) none ms)
            (λ first. bind-Keeps P _ _ (cancel_future_bookings-Keeps P c _ _) (λ _.
              bind-Keeps P _ _ (update_engagement-Keeps P c _ _)
                (λ _. bind-Keeps P _ _ (update_coach-Keeps P c _ _) (λ _. pure-Keeps P first))))
            t)
        s

  refund_some-Keeps :
      (req : RefundRequest) (ms : List Milestone) (nothing : Bool)
      → Keeps P (refund_some req ms nothing)
  unfolding refund_some
  refund_some-Keeps req ms true = pure-Keeps P (none, 0)
  refund_some-Keeps req ms false =
      bind-Keeps P _ _ (refund_rows-Keeps req ms) (λ first. pure-Keeps P _)

  refund_unreleased_escrow-Keeps :
      (req : RefundRequest) → Keeps P (Money.refund_unreleased_escrow req)
  unfolding Money.refund_unreleased_escrow
  refund_unreleased_escrow-Keeps req s = refund_some-Keeps req _ _ s

  refund_escrow-Keeps :
      (offer : Offer) (e : Option Engagement) (reason : String) (now : ℕ)
      → Keeps P (refund_escrow offer e reason now)
  unfolding refund_escrow
  refund_escrow-Keeps offer none reason now = pure-Keeps P []
  refund_escrow-Keeps offer (some e) reason now =
      bind-Keeps P _ _ (refund_unreleased_escrow-Keeps _) (λ done. pure-Keeps P _)

  then_none : (m : Tx ⊤) → Keeps P m → Keeps P (m >> pure {A = List DeferredWork} [])
  then_none m k = bind-Keeps P m _ k (λ _. pure-Keeps P [])

  -- Every side effect keeps the invariant.
  apply_effect-Keeps :
      (x : SideEffect) (o : LoadedOffer) (child : Option ℕ) (now : ℕ)
      → Keeps P (apply_effect x o child now)
  unfolding apply_effect
  apply_effect-Keeps (create_slot_holds minutes) o child now =
      then_none _ (create_slot_holds-Keeps P c o.offer minutes now)
  apply_effect-Keeps (extend_slot_holds minutes) o child now =
      then_none _ (extend_holds-Keeps P c o.offer.id minutes now)
  apply_effect-Keeps release_slot_holds o child now =
      then_none _ (release_holds-Keeps P c o.offer.id)
  apply_effect-Keeps supersede_parent_offer o child now =
      then_none _ (supersede_parent_offer-Keeps P c o.offer child)
  apply_effect-Keeps create_engagement o child now =
      then_none _ (create_engagement-Keeps P c o.offer)
  apply_effect-Keeps create_milestones o child now =
      then_none _ (create_milestones-Keeps P c o.offer)
  apply_effect-Keeps post_escrow_funding o child now =
      then_none _ (fund_escrow-Keeps o.offer o.payments)
  apply_effect-Keeps convert_holds_to_bookings o child now =
      then_none _ (convert_holds-Keeps o.offer)
  apply_effect-Keeps freeze_pending_milestones o child now =
      then_none _ (freeze_pending_milestones-Keeps o.offer)
  apply_effect-Keeps release_remaining_milestones o child now =
      then_none _ (release_remaining_milestones-Keeps o.offer now)
  apply_effect-Keeps (refund_unreleased_escrow reason) o child now =
      λ s. refund_escrow-Keeps o.offer (Effects.engagement_of o.offer.id s) reason now s
  apply_effect-Keeps (notify audience template) o child now = pure-Keeps P _
  apply_effect-Keeps (audit _) o child now = pure-Keeps P []

  pub apply_effects-Keeps :
      (xs : List SideEffect) (o : LoadedOffer) (child : Option ℕ) (now : ℕ)
      → Keeps P (apply_effects xs o child now)
  unfolding apply_effects
  apply_effects-Keeps [] o child now = pure-Keeps P []
  apply_effects-Keeps (x ∷ xs) o child now =
      bind-Keeps P _ _ (apply_effect-Keeps x o child now)
        (λ work. bind-Keeps P _ _ (apply_effects-Keeps xs o child now) (λ rest. pure-Keeps P _))

  pub record_event-Keeps :
      (req : TransitionRequest) (plan : TransitionOutcome) → Keeps P (record_event req plan)
  unfolding record_event
  record_event-Keeps req plan =
      modify-Keeps P _ (elsewhere-Keeps P c _ (λ t. (refl, refl, refl, refl)))
