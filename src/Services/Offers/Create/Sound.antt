-- ===== src/Services/Offers/Create/Sound.antt =====
-- Creating an offer leaves the ledger balanced and the calendars free of double bookings, and what is
-- left of an offer whose submission fails.
use kaktus.Base.{ℕ, Option, none, some, List, find, refl, ◌==◌}
use kaktus.Payments.Ledger.Balance.{IsBalanced}
use kaktus.Booking.Holds.Exclusive.{IsExclusive}
use kaktus.Database
use kaktus.Database.{Offer, CoachProfile, Store, Tx, ⊤, ◌>>=◌, ◌>>◌, >>=-ok, pure, ServiceError}
use kaktus.Database.Keeps.{
  Keeps, bind-Keeps, pure-Keeps, throw_if-Keeps, or_throw-Keeps, modify-Keeps,
}
use kaktus.Services.Run.Leaves.{Leaves, in_transaction-Leaves, and_then-Leaves}
use kaktus.Services.Offers.{offer_by_id}
use kaktus.Services.Offers.Closed.{IsClosed, elsewhere-Keeps, with_id-Keeps}
use kaktus.Services.Offers.Invariants.{
  IsBalanced-IsClosed, IsExclusive-IsClosed, transition_offer-Leaves,
}
use kaktus.Services.Offers.Create.{
  CreateOfferInput, rate_of, resolve_commission_bps, draft_of, add_offer, touch_conversation,
  breaks_constraint, insert_row, insert_draft, draft_transaction, counter_request, submit_request,
  counter_parent, create_with, create_after, create_for, create_offer,
}

module _ (P : Store → Type 0) (c : IsClosed P)
    (free : (s : Store) (os : List Offer) → P s → P (record s { offers = os })) where
  resolve-Keeps : (coach now : ℕ) → Keeps P (resolve_commission_bps coach now)
  unfolding resolve_commission_bps
  resolve-Keeps coach now s =
      let row = find (λ (x : CoachProfile). x.id == coach) s.coach_profiles in
      bind-Keeps P (Database.or_throw row Database.not_found) _
        (or_throw-Keeps P row Database.not_found)
        (λ (x : CoachProfile). pure-Keeps P (rate_of x s.commission_policies now)) s

  add_offer-Keeps : (o : Offer) → Keeps P (add_offer o)
  unfolding add_offer
  add_offer-Keeps o = modify-Keeps P _ (λ s p. free s _ p)

  touch-Keeps : (id now : ℕ) → Keeps P (touch_conversation id now)
  unfolding touch_conversation
  touch-Keeps id now s =
      bind-Keeps P (Database.throw_if _ _) _ (throw_if-Keeps P _ _)
        (λ _. modify-Keeps P _ (elsewhere-Keeps P c _ (λ t. (refl, refl, refl, refl)))) s

  insert_row-Keeps :
      (input : CreateOfferInput) (parent : Option Offer) (now bps id : ℕ)
      → Keeps P (insert_row input parent now bps id)
  unfolding insert_row
  insert_row-Keeps input parent now bps id =
      bind-Keeps P _ _ (add_offer-Keeps (draft_of input parent bps now id))
        (λ _. bind-Keeps P _ _ (touch-Keeps input.conversation_id now) (λ _. pure-Keeps P id))

  insert_draft-Keeps :
      (input : CreateOfferInput) (parent : Option Offer) (now bps : ℕ)
      → Keeps P (insert_draft input parent now bps)
  unfolding insert_draft
  insert_draft-Keeps input parent now bps =
      bind-Keeps P (Database.throw_if (breaks_constraint input bps) Database.constraint_violation)
        (λ _. Database.fresh >>= insert_row input parent now bps) (throw_if-Keeps P _ _)
        (λ _.
          with_id-Keeps P c (insert_row input parent now bps)
            (insert_row-Keeps input parent now bps))

  draft-Keeps :
      (input : CreateOfferInput) (parent : Option Offer) (now : ℕ)
      → Keeps P (draft_transaction input parent now)
  unfolding draft_transaction
  draft-Keeps input parent now =
      bind-Keeps P _ _ (resolve-Keeps input.coach_profile_id now)
        (insert_draft-Keeps input parent now)

  counter_parent-Leaves :
      (input : CreateOfferInput) (parent : Option Offer) (child now : ℕ)
      → Leaves P (counter_parent input parent child now)
  unfolding counter_parent
  counter_parent-Leaves input none child now s p = p
  counter_parent-Leaves input (some parent) child now s p =
      and_then-Leaves P _ _
        (transition_offer-Leaves P c free (counter_request input parent child) now) (λ _ t q. q) s p

  create_with-Leaves :
      (input : CreateOfferInput) (parent : Option Offer) (now : ℕ)
      → Leaves P (create_with input parent now)
  unfolding create_with
  create_with-Leaves input parent now =
      and_then-Leaves P _ _
        (in_transaction-Leaves P (draft_transaction input parent now)
          (draft-Keeps input parent now))
        (λ id. and_then-Leaves P _ _ (counter_parent-Leaves input parent id now) (λ _.
          and_then-Leaves P _ _ (transition_offer-Leaves P c free (submit_request input id) now)
            (λ _ t q. q)))

  create_after-Leaves :
      (input : CreateOfferInput) (parent : Option Offer) (now : ℕ)
      → Leaves P (create_after input parent now)
  unfolding create_after
  create_after-Leaves input none now s p = p
  create_after-Leaves input (some parent) now s p = create_with-Leaves input (some parent) now s p

  create_for-Leaves :
      (input : CreateOfferInput) (parent : Option ℕ) (now : ℕ)
      → Leaves P (create_for input parent now)
  unfolding create_for
  create_for-Leaves input none now s p = create_with-Leaves input none now s p
  create_for-Leaves input (some id) now s p = create_after-Leaves input (offer_by_id id s) now s p

  create_offer-Leaves : (input : CreateOfferInput) (now : ℕ) → Leaves P (create_offer input now)
  unfolding create_offer
  create_offer-Leaves input now s = create_for-Leaves input input.parent_offer_id now s

-- Wherever the call stops, creating an offer leaves the ledger balanced and no coach double-booked,
-- if so they were before.
pub create_offer_sound :
    (input : CreateOfferInput) (now : ℕ) (s : Store)
    → IsBalanced s
    → IsExclusive s
    → IsBalanced (create_offer input now s).0 × IsExclusive (create_offer input now s).0
create_offer_sound input now s balanced exclusive = (
  create_offer-Leaves IsBalanced IsBalanced-IsClosed (λ u os p. p) input now s balanced,
  create_offer-Leaves IsExclusive IsExclusive-IsClosed (λ u os p. p) input now s exclusive,
)
