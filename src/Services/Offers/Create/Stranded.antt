-- ===== src/Services/Offers/Create/Stranded.antt =====
-- What is left of an offer whose submission fails.
use kaktus.Base.{
  ℕ, suc, Bool, true, false, ◌&&◌, ◌||◌, Option, none, List, [], ◌∷◌, ◌++◌, any, any-append, ◌≡◌,
  refl, ap, ◌∙◌, ◌==◌, ==_refl, ok, err, Bool-cases, inl, inr,
}
use kaktus.Offers.StateMachine.{draft, same_status}
use kaktus.Database.{Offer, Store, Tx, ⊤, ◌>>=◌, ◌>>◌, >>=-ok, pure, ServiceError}
use kaktus.Database
use kaktus.Services.Run.{in_transaction, and_then}
use kaktus.Services.Offers.{transition_offer}
use kaktus.Services.Offers.Create.{
  CreateOfferInput, resolve_commission_bps, draft_of, add_offer, touch_conversation,
  breaks_constraint, insert_row, insert_draft, draft_transaction, submit_request, counter_parent,
  create_with, create_for, create_offer,
}

touch-offers :
    (id now : ℕ) (s : Store) {r : ⊤ × Store}
    → touch_conversation id now s ≡ ok r
    → r.1.offers ≡ s.offers
unfolding touch_conversation
touch-offers id now s h =
    elim (Bool-cases (any (λ (c : Database.Conversation). c.id == id) s.conversations)) [
      | inl there ↦ cc (rw there at h)
      | inr gone ↦ cc (rw gone at h)
    ]

insert_row-offers :
    (input : CreateOfferInput) (parent : Option Offer) (now bps id : ℕ) (s : Store) {r : ℕ × Store}
    → insert_row input parent now bps id s ≡ ok r
    → (r.0 ≡ id) × (r.1.offers ≡ s.offers ++ (draft_of input parent bps now id ∷ []))
unfolding insert_row add_offer
insert_row-offers input parent now bps id s {r} h =
    let o = draft_of input parent bps now id in
    let (_, u, touches, done) =
      >>=-ok (touch_conversation input.conversation_id now) (λ _. pure id)
        (record s { offers = s.offers ++ (o ∷ []) }) h in
    let same : u ≡ r.1 = cc done in
    (cc done, rw (← same) (touch-offers input.conversation_id now _ touches))

draft-offers :
    (input : CreateOfferInput) (parent : Option Offer) (now : ℕ) (s : Store) {r : ℕ × Store}
    → draft_transaction input parent now s ≡ ok r
    → (bps : ℕ) × ((os : List Offer) × (r.1.offers
          ≡ os ++ (draft_of input parent bps now r.0 ∷ [])))
unfolding draft_transaction insert_draft
draft-offers input parent now s {r} h =
    let (bps, u, rates, inserts) =
      >>=-ok (resolve_commission_bps input.coach_profile_id now) _ s h in
    elim (Bool-cases (breaks_constraint input bps)) [
      | inl broken ↦ cc (rw broken at inserts)
      | inr sound ↦
          let (same, rows) =
            insert_row-offers input parent now bps u.next_id (record u { next_id = suc u.next_id })
              (rw sound at inserts) in
          (bps, (u.offers, rw same rows))
    ]

or_true : (b : Bool) → b || true ≡ true
or_true true = refl
or_true false = refl

create_with-refused :
    (input : CreateOfferInput) (now : ℕ) (s : Store) {id : ℕ} {t : Store} {e : ServiceError}
    → draft_transaction input none now s ≡ ok (id, t)
    → transition_offer (submit_request input id) now t ≡ err e
    → create_with input none now s ≡ (t, err e)
unfolding create_with counter_parent in_transaction and_then
create_with-refused input now s drafts refuses = rw (drafts, refuses) refl

-- Creating and submitting are not one step: where an offer that answers none is written but its
-- submission is refused (its time is taken, say), the call throws that refusal and the draft stays.
pub draft_stays :
    (input : CreateOfferInput) (now : ℕ) (s : Store) {id : ℕ} {t : Store} {e : ServiceError}
    → input.parent_offer_id ≡ none
    → draft_transaction input none now s ≡ ok (id, t)
    → transition_offer (submit_request input id) now t ≡ err e
    → (create_offer input now s ≡ (t, err e))
      × (any (λ (o : Offer). (o.id == id) && same_status o.status draft) t.offers ≡ true)
unfolding create_offer create_for
draft_stays input now s {id} {t} alone drafts refuses =
    let p : Offer → Bool = λ o. (o.id == id) && same_status o.status draft in
    let (bps, inserted) = draft-offers input none now s drafts in
    let (os, rows) = inserted in
    (
      ap (λ o. create_for input o now s) alone ∙ create_with-refused input now s drafts refuses,
      ap (any p) rows
          ∙ any-append p os (draft_of input none bps now id ∷ [])
          ∙ rw (==_refl id) (or_true (any p os)),
    )
