-- ===== src/Services/Offers/Create.antt =====
-- server/services/offer-service.ts: createOffer, with the rate of the commission.
pub mod Sound
pub mod Stranded
mod Tests
use kaktus.Base.{
  ℕ, suc, ◌+◌, ◌*◌, Bool, true, false, ◌&&◌, not, Option, none, some, List, [], ◌∷◌, ◌++◌, any,
  find, select, update_where, leb, ltb, ◌==◌, Result, ok, err, if◌then◌else◌,
}
use kaktus.Offers.StateMachine.{OfferStatus, ActorRole, draft, counter, submit}
use kaktus.Offers.Scope.{Slot}
use kaktus.Database.{
  Offer, CoachProfile, CommissionPolicy, Conversation, Store, Tx, ⊤, ◌>>=◌, ◌>>◌, pure, throw_if,
  gets, modify, fresh, or_throw, not_found, ServiceError, constraint_violation,
}
use kaktus.Services.Run.{Run, in_transaction, and_then, return}
use kaktus.Services.Offers.{TransitionRequest, transition_offer, offer_by_id}

abbrev pub default_commission_bps : ℕ
default_commission_bps = 1800

abbrev pub in_effect : ℕ → CommissionPolicy → Bool
in_effect now p =
    leb p.effective_from now && (elim p.effective_to [ some t ↦ ltb now t | none ↦ true ])

-- `orderBy: { effectiveFrom: 'desc' }`, the first.
abbrev pub later : CommissionPolicy → Option CommissionPolicy → CommissionPolicy
later p none = p
later p (some q) = if ltb p.effective_from q.effective_from then q else p

unfoldable pub latest : List CommissionPolicy → Option CommissionPolicy
latest [] = none
latest (p ∷ ps) = some (later p (latest ps))

abbrev pub default_of : Option CommissionPolicy → ℕ
default_of (some p) = p.default_bps
default_of none = default_commission_bps

unfoldable pub rate_of : CoachProfile → List CommissionPolicy → ℕ → ℕ
rate_of c policies now = elim c.commission_bps_override [
  | some bps ↦ bps
  | none ↦ default_of (latest (select (in_effect now) policies))
]

unfoldable pub resolve_commission_bps : ℕ → ℕ → Tx ℕ
resolve_commission_bps coach now s =
    (or_throw (find (λ (c : CoachProfile). c.id == coach) s.coach_profiles) not_found >>= λ c.
    pure (rate_of c s.commission_policies now))
      s

-- `scope_slots` is what `parseScope` makes of the scope.
pub record CreateOfferInput : Type 0 where
  pub conversation_id : ℕ
  pub coach_profile_id : ℕ
  pub student_profile_id : ℕ
  pub initiator_role : ActorRole
  pub actor_profile_id : ℕ
  pub scope_slots : List Slot
  pub price_minor : ℕ
  pub start_date : ℕ
  pub end_date : ℕ
  pub milestone_count : Option ℕ
  pub expires_in_hours : Option ℕ
  pub parent_offer_id : Option ℕ

-- `a ?? b`
abbrev pub or_else : Option ℕ → ℕ → ℕ
or_else (some a) b = a
or_else none b = b

abbrev pub parent_id : Option Offer → Option ℕ
parent_id (some p) = some p.id
parent_id none = none

abbrev pub next_version : Option Offer → ℕ
next_version (some p) = p.version + 1
next_version none = 1

abbrev pub draft_of : CreateOfferInput → Option Offer → ℕ → ℕ → ℕ → Offer
draft_of input parent bps now id = record {
  id = id;
  coach_profile_id = input.coach_profile_id;
  student_profile_id = input.student_profile_id;
  initiator_role = input.initiator_role;
  scope_slots = input.scope_slots;
  price_minor = input.price_minor;
  commission_bps = bps;
  start_date = input.start_date;
  end_date = input.end_date;
  milestone_count = or_else input.milestone_count 4;
  status = draft;
  version = next_version parent;
  parent_offer_id = parent_id parent;
  expires_at = now + or_else input.expires_in_hours 48 * 3600 * 1000;
  accepted_at = none;
  cancelled_at = none;
}

unfoldable pub add_offer : Offer → Tx ⊤
add_offer o = modify λ s. record s { offers = s.offers ++ (o ∷ []) }

unfoldable pub touch_conversation : ℕ → ℕ → Tx ⊤
touch_conversation id now = do
  rows ← gets (λ s. s.conversations)
  throw_if (not (any (λ (c : Conversation). c.id == id) rows)) not_found
  modify λ s. record s {
    conversations =
        update_where (λ (c : Conversation). c.id == id)
          (λ c. record c { last_message_at = some now }) s.conversations;
  }

unfoldable pub insert_row : CreateOfferInput → Option Offer → ℕ → ℕ → ℕ → Tx ℕ
insert_row input parent now bps id =
    add_offer (draft_of input parent bps now id)
    >> (touch_conversation input.conversation_id now >> pure id)

-- offer_price_positive, offer_commission_range and offer_dates_ordered of the migration.
abbrev pub breaks_constraint : CreateOfferInput → ℕ → Bool
breaks_constraint input bps =
    not (ltb 0 input.price_minor && leb bps 5000 && ltb input.start_date input.end_date)

unfoldable pub insert_draft : CreateOfferInput → Option Offer → ℕ → ℕ → Tx ℕ
insert_draft input parent now bps = do
  throw_if (breaks_constraint input bps) constraint_violation
  id ← fresh
  insert_row input parent now bps id

unfoldable pub draft_transaction : CreateOfferInput → Option Offer → ℕ → Tx ℕ
draft_transaction input parent now =
    resolve_commission_bps input.coach_profile_id now >>= insert_draft input parent now

abbrev pub counter_request : CreateOfferInput → Offer → ℕ → TransitionRequest
counter_request input parent child = record {
  offer_id = parent.id;
  event = counter;
  actor = input.initiator_role;
  actor_profile_id = some input.actor_profile_id;
  expected_status = some parent.status;
  superseded_by_offer_id = some child;
}

abbrev pub submit_request : CreateOfferInput → ℕ → TransitionRequest
submit_request input id = record {
  offer_id = id;
  event = submit;
  actor = input.initiator_role;
  actor_profile_id = some input.actor_profile_id;
  expected_status = none;
  superseded_by_offer_id = none;
}

unfoldable pub counter_parent : CreateOfferInput → Option Offer → ℕ → ℕ → Run ⊤
counter_parent input none child now s = (s, ok tt)
counter_parent input (some parent) child now s =
    and_then (in_transaction (transition_offer (counter_request input parent child) now))
      (λ _. return tt) s

-- The draft, the parent's transition and the submission commit one by one.
unfoldable pub create_with : CreateOfferInput → Option Offer → ℕ → Run ℕ
create_with input parent now = and_then (in_transaction (draft_transaction input parent now)) λ id.
    and_then (counter_parent input parent id now)
      λ _. and_then (in_transaction (transition_offer (submit_request input id) now)) λ _. return id

unfoldable pub create_after : CreateOfferInput → Option Offer → ℕ → Run ℕ
create_after input none now s = (s, err not_found)
create_after input (some parent) now s = create_with input (some parent) now s

unfoldable pub create_for : CreateOfferInput → Option ℕ → ℕ → Run ℕ
create_for input none now s = create_with input none now s
create_for input (some parent) now s = create_after input (offer_by_id parent s) now s

unfoldable pub create_offer : CreateOfferInput → ℕ → Run ℕ
create_offer input now s = create_for input input.parent_offer_id now s
