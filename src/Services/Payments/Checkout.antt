-- ===== src/Services/Payments/Checkout.antt =====
-- server/services/payment-service.ts: startCheckout. The milestones stand before the payment, since
-- the provider is sent one basket item for each.
pub mod Allowed
use kaktus.Base.{
  ℕ, Bool, true, false, ◌&&◌, not, Option, none, some, List, [], ◌∷◌, ◌++◌, map, ◌==◌, Result, ok,
  err, any, find, select, update_where, length,
}
use kaktus.Base.Int.{ℤ, pos}
use kaktus.Offers.StateMachine.{accepted, same_status}
use kaktus.Offers.Scope.{milestone_periods_for_slots}
use kaktus.Payments.Split.{split_into_milestones}
use kaktus.Payments.Basket.{BasketItem, build_split}
use kaktus.Payments.Ledger.{has_id}
use kaktus.Booking.Holds.{sort_milestones}
use kaktus.Database.{
  Offer, Engagement, EngagementStatus, Milestone, Payment, PaymentStatus, CoachProfile, Store, Tx,
  ⊤, ◌>>=◌, ◌>>◌, pure, throw, throw_if, gets, modify, lift, fresh, or_throw, for_each,
  ServiceError, not_found, bad_scope, bad_split, bad_basket, offer_not_payable, coach_not_payable,
  already_paid, provider_rejected, is_captured, is_live,
}
use kaktus.Services.Run.{Run, in_transaction, and_then, return, check_all, run_unless}
use kaktus.Services.Offers.{offer_by_id}
use kaktus.Services.Offers.Effects.{create_milestone, engagement_of, milestones_of}
use kaktus.Services.Milestones.{is_some}
use kaktus.Services.Milestones.Actions.{student_user}

-- EscrowBasketItem
pub record EscrowBasketItem : Type 0 where
  pub id : ℕ
  pub price_minor : ℕ
  pub sub_merchant_price_minor : ℤ

-- CheckoutInitInput: the buyer's personal data, the currency and the address of the callback, which
-- are passed on as they are, are left out.
pub record CheckoutInitInput : Type 0 where
  pub conversation_id : ℕ × ℕ
  pub offer_id : ℕ
  pub basket_id : ℕ
  pub total_minor : ℕ
  pub submerchant_key : Option ℕ
  pub items : List EscrowBasketItem
  pub buyer_id : ℕ

-- CheckoutInitResult
pub data CheckoutInitResult : Type 0 where
  initialized : ℕ → CheckoutInitResult
  failed : CheckoutInitResult

-- The offer and what the query loads beside it.
pub record PayableOffer : Type 0 where
  pub offer : Offer
  pub coach : CoachProfile
  pub payments : List Payment

pub record StartCheckoutResult : Type 0 where
  pub payment_id : ℕ
  pub token : ℕ
  pub conversation_id : ℕ × ℕ

abbrev pub payable_with : Offer → Store → Option CoachProfile → Option PayableOffer
payable_with o s none = none
payable_with o s (some c) = some (record {
  offer = o;
  coach = c;
  payments = select (λ (p : Payment). has_id o.id p.offer_id && is_live p.status) s.payments;
})

abbrev pub load_offer : ℕ → Store → Option PayableOffer
load_offer id s = elim (offer_by_id id s) [
  | some o ↦
      payable_with o s (find (λ (c : CoachProfile). c.id == o.coach_profile_id) s.coach_profiles)
  | none ↦ none
]

unfoldable pub checkout_checks : PayableOffer → ℕ → Store → List (Bool × ServiceError)
checkout_checks x student_user_id s =
    (not (same_status x.offer.status accepted), offer_not_payable)
    ∷ (not (has_id student_user_id (student_user x.offer.student_profile_id s)), offer_not_payable)
    ∷ (any (λ (p : Payment). is_captured p.status) x.payments, already_paid)
    ∷ (not (x.coach.is_approved && is_some x.coach.submerchant_key), coach_not_payable)
    ∷ []

-- idempotencyKey('offer', offer.id, offer.version)
abbrev pub checkout_key : Offer → ℕ × ℕ
checkout_key o = (o.id, o.version)

abbrev pub same_key : ℕ × ℕ → ℕ × ℕ → Bool
same_key a b = (a.0 == b.0) && (a.1 == b.1)

-- ensureMilestones: the provisional engagement, and its milestones unless it has some.
unfoldable pub add_provisional : Offer → ℕ → Tx ⊤
add_provisional o id = modify λ s. record s {
  engagements =
      s.engagements
      ++ (record {
        id = id;
        offer_id = o.id;
        coach_profile_id = o.coach_profile_id;
        student_profile_id = o.student_profile_id;
        status = EngagementStatus.pending_payment;
        start_date = o.start_date;
        end_date = o.end_date;
        total_minor = o.price_minor;
        commission_bps = o.commission_bps;
        completed_at = none;
      }
          ∷ []);
}

unfoldable pub provisional_engagement : Offer → Option Engagement → Tx ℕ
provisional_engagement o (some e) = pure e.id
provisional_engagement o none = fresh >>= λ id. add_provisional o id >> pure id

unfoldable pub add_milestones : Offer → ℕ → Tx ⊤
add_milestones o engagement = do
  periods ←
      lift bad_scope
        (milestone_periods_for_slots o.scope_slots o.start_date o.end_date o.milestone_count)
  amounts ← lift bad_split (split_into_milestones o.price_minor o.milestone_count)
  for_each (create_milestone engagement amounts) periods

abbrev pub milestones_in_order : ℕ → Store → List Milestone
milestones_in_order engagement s = sort_milestones (milestones_of engagement s)

unfoldable pub milestones_or_new : Offer → ℕ → List Milestone → Tx (List Milestone)
milestones_or_new o engagement (m ∷ ms) = pure (m ∷ ms)
milestones_or_new o engagement [] =
    add_milestones o engagement >> gets (milestones_in_order engagement)

unfoldable pub milestones_for_engagement : Offer → ℕ → Tx (List Milestone)
milestones_for_engagement o engagement s =
    milestones_or_new o engagement (milestones_in_order engagement s) s

unfoldable pub ensure_for : Offer → Tx (List Milestone)
ensure_for o s =
    (provisional_engagement o (engagement_of o.id s) >>= λ engagement.
    milestones_for_engagement o engagement)
      s

unfoldable pub ensure_milestones : ℕ → Tx (List Milestone)
ensure_milestones offer s = (or_throw (offer_by_id offer s) not_found >>= ensure_for) s

-- buildCheckoutInput: the rows and the split go side by side.
unfoldable pub basket_items : List Milestone → List BasketItem → List EscrowBasketItem
basket_items (m ∷ ms) (i ∷ is) =
    record {
      id = m.id;
      price_minor = i.price_minor;
      sub_merchant_price_minor = i.sub_merchant_price_minor;
    }
    ∷ basket_items ms is
basket_items [] is = []
basket_items (m ∷ ms) [] = []

abbrev pub checkout_input : PayableOffer → List Milestone → List BasketItem → CheckoutInitInput
checkout_input x rows split = record {
  conversation_id = checkout_key x.offer;
  offer_id = x.offer.id;
  basket_id = x.offer.id;
  total_minor = x.offer.price_minor;
  submerchant_key = x.coach.submerchant_key;
  items = basket_items rows split;
  buyer_id = x.offer.student_profile_id;
}

unfoldable pub build_checkout_input : PayableOffer → List Milestone → Tx CheckoutInitInput
build_checkout_input x rows =
    lift bad_basket (
      build_split x.offer.price_minor (pos x.offer.commission_bps)
        (map (λ (m : Milestone). m.amount_minor) rows))
    >>= λ split. pure (checkout_input x rows split)

-- `payment.upsert` by the idempotency key.
unfoldable pub add_payment : PayableOffer → PaymentStatus → Option ℕ → ℕ → ℕ → Tx ⊤
add_payment x status token now id = modify λ s. record s {
  payments =
      s.payments
      ++ (record {
        id = id;
        offer_id = some x.offer.id;
        amount_minor = x.offer.price_minor;
        status = status;
        token = token;
        idempotency_key = checkout_key x.offer;
        provider_ref = none;
        created_at = now;
      }
          ∷ []);
}

unfoldable pub change_payment : ℕ → (Payment → Payment) → Tx ⊤
change_payment id change =
    modify λ s. record s { payments = update_where (λ (p : Payment). p.id == id) change s.payments }

abbrev pub payment_by_key : ℕ × ℕ → Store → Option Payment
payment_by_key key s = find (λ (p : Payment). same_key p.idempotency_key key) s.payments

unfoldable pub upsert_found :
    PayableOffer → PaymentStatus → Option ℕ → (Payment → Payment) → ℕ → Option Payment → Tx ℕ
upsert_found x status token change now (some p) = change_payment p.id change >> pure p.id
upsert_found x status token change now none =
    fresh >>= λ id. add_payment x status token now id >> pure id

unfoldable pub upsert_payment :
    PayableOffer → PaymentStatus → Option ℕ → (Payment → Payment) → ℕ → Tx ℕ
upsert_payment x status token change now s =
    upsert_found x status token change now (payment_by_key (checkout_key x.offer) s) s

abbrev pub started : PayableOffer → ℕ → ℕ → StartCheckoutResult
started x payment token = record {
  payment_id = payment;
  token = token;
  conversation_id = checkout_key x.offer;
}

unfoldable pub store_session : PayableOffer → ℕ → CheckoutInitResult → Run StartCheckoutResult
store_session x now failed =
    and_then
      (in_transaction (
        upsert_payment x PaymentStatus.failed none (λ p. record p { status = PaymentStatus.failed })
          now))
      λ _ s. (s, err provider_rejected)
store_session x now (initialized token) =
    and_then
      (in_transaction (
        upsert_payment x PaymentStatus.requires_action (some token)
          (λ p. record p { status = PaymentStatus.requires_action; token = some token }) now))
      λ id. return (started x id token)

abbrev pub rows_of_offer : Option Engagement → Store → List Milestone
rows_of_offer (some e) s = milestones_in_order e.id s
rows_of_offer none s = []

abbrev pub open_session : PayableOffer → Option Payment
open_session x =
    find (λ (p : Payment). same_key p.idempotency_key (checkout_key x.offer) && is_some p.token)
      x.payments

-- `initialize` is what the provider answers to the first and to the second request of one call.
module _ (initialize : ℕ → CheckoutInitInput → CheckoutInitResult) where
  unfoldable pub new_session : PayableOffer → ℕ → Run StartCheckoutResult
  new_session x now = and_then (in_transaction (ensure_milestones x.offer.id)) λ rows.
      and_then (in_transaction (build_checkout_input x rows))
        λ input. store_session x now (initialize 1 input)

  unfoldable pub after_retry :
      PayableOffer → Payment → ℕ → CheckoutInitResult → Run StartCheckoutResult
  after_retry x existing now (initialized token) s = (s, ok (started x existing.id token))
  after_retry x existing now failed s = new_session x now s

  -- An open session is reused: the provider is asked again under the same key.
  unfoldable pub reuse_session : PayableOffer → ℕ → Option Payment → Run StartCheckoutResult
  reuse_session x now none s = new_session x now s
  reuse_session x now (some existing) s =
      and_then
        (in_transaction (build_checkout_input x (rows_of_offer (engagement_of x.offer.id s) s)))
        (λ input. after_retry x existing now (initialize 0 input)) s

  unfoldable pub start_loaded : Option PayableOffer → ℕ → ℕ → Run StartCheckoutResult
  start_loaded none student_user_id now s = (s, err not_found)
  start_loaded (some x) student_user_id now s =
      run_unless (check_all (checkout_checks x student_user_id s))
        (reuse_session x now (open_session x)) s

  unfoldable pub start_checkout : ℕ → ℕ → ℕ → Run StartCheckoutResult
  start_checkout offer student_user_id now s =
      start_loaded (load_offer offer s) student_user_id now s
