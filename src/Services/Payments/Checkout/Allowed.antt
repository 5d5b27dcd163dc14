-- ===== src/Services/Payments/Checkout/Allowed.antt =====
-- Who may pay for an offer, and what the provider was asked for: what a checkout that returns has
-- checked and sent.
use kaktus.Base.{ℕ, true, none, some, List, ◌≡◌, ◌≢◌, ok, All, map}
use kaktus.Offers.StateMachine.{accepted}
use kaktus.Payments.Basket.{BasketItem, build_split}
use kaktus.Base.Int.{pos}
use kaktus.Database.{Milestone, Payment, PaymentStatus, Store}
use kaktus.Services.Milestones.Actions.{student_user}
use kaktus.Services.Payments.Checkout.{
  CheckoutInitInput, CheckoutInitResult, initialized, PayableOffer, StartCheckoutResult,
  checkout_input, checkout_key,
}

-- The offer is accepted, the caller is its student, none of its live payments is captured, and the
-- coach is approved and can be paid.
abbrev pub IsPayable : PayableOffer → ℕ → Store → Type 0
IsPayable x user s =
    (x.offer.status ≡ accepted)
    × (student_user x.offer.student_profile_id s ≡ some user)
    × All (λ (p : Payment). p.status ≢ PaymentStatus.captured) x.payments
    × (x.coach.is_approved ≡ true)
    × (x.coach.submerchant_key ≢ none)

-- What the provider is asked for: the price of the offer, for that coach, in a basket that the rows of
-- the milestones make up.
abbrev pub IsAsked : PayableOffer → CheckoutInitInput → Type 0
IsAsked x input =
    (rows : List Milestone) × (split : List BasketItem) × (build_split x.offer.price_minor
        (pos x.offer.commission_bps) (map (λ (m : Milestone). m.amount_minor) rows)
      ≡ ok split)
    × (input ≡ checkout_input x rows split)

module _ (initialize : ℕ → CheckoutInitInput → CheckoutInitResult) where
  -- The token that is returned is the provider's answer to such a request.
  abbrev pub IsStarted : PayableOffer → StartCheckoutResult → Type 0
  IsStarted x r =
      (n : ℕ) × (input : CheckoutInitInput) × (initialize n input ≡ initialized r.token)
      × IsAsked x input
      × (r.conversation_id ≡ checkout_key x.offer)
