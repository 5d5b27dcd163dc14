-- ===== src/Offers/StateMachine/Money.antt =====
-- The escrow effects of an offer's life: funded once, refunded at most once, and never cancelled
-- after funding.
use kaktus.Base.{◌≡◌, refl, arith, List, [], ◌∷◌, ◌++◌, All, All-imp, ℕ, suc, ◌+◌}
use kaktus.Offers.StateMachine.Types.{
  OfferStatus, paid_in_escrow, active, completed, disputed, refunded, SideEffect,
  post_escrow_funding, refund_unreleased_escrow, TransitionDefinition,
}
use kaktus.Offers.StateMachine.{transitions}
use kaktus.Offers.StateMachine.Runs.{Call, life, life-Inv, IsKept}

-- How often each escrow effect occurs.
abbrev pub fundings : List SideEffect → ℕ
fundings [] = 0
fundings (post_escrow_funding ∷ es) = suc (fundings es)
fundings (_ ∷ es) = fundings es

abbrev pub refunds : List SideEffect → ℕ
refunds [] = 0
refunds (refund_unreleased_escrow _ ∷ es) = suc (refunds es)
refunds (_ ∷ es) = refunds es

fundings-append : (xs ys : List SideEffect) → fundings (xs ++ ys) ≡ fundings xs + fundings ys
fundings-append [] ys = omega arith
fundings-append (post_escrow_funding ∷ es) ys = omega (arith, fundings-append es ys)
fundings-append (_ ∷ es) ys = fundings-append es ys

refunds-append : (xs ys : List SideEffect) → refunds (xs ++ ys) ≡ refunds xs + refunds ys
refunds-append [] ys = omega arith
refunds-append (refund_unreleased_escrow _ ∷ es) ys = omega (arith, refunds-append es ys)
refunds-append (_ ∷ es) ys = refunds-append es ys

-- How often an offer in each state has been funded.
abbrev pub funded_times : OfferStatus → ℕ
funded_times paid_in_escrow = 1
funded_times active = 1
funded_times completed = 1
funded_times disputed = 1
funded_times refunded = 1
funded_times _ = 0

abbrev pub refunded_times : OfferStatus → ℕ
refunded_times refunded = 1
refunded_times _ = 0

abbrev IsAccounted : OfferStatus → List SideEffect → Type 0
IsAccounted s done = (fundings done ≡ funded_times s) × (refunds done ≡ refunded_times s)

-- A row adds what its two states differ by.
abbrev IsExact : TransitionDefinition → Type 0
IsExact d =
    (funded_times d.from + fundings d.effects ≡ funded_times d.to)
    × (refunded_times d.from + refunds d.effects ≡ refunded_times d.to)

rows-IsExact : All IsExact transitions
unfolding transitions
rows-IsExact = omega arith

exact-IsKept : (d : TransitionDefinition) → IsExact d → IsKept IsAccounted d
exact-IsKept d e done h =
    (omega (arith, fundings-append done d.effects), omega (arith, refunds-append done d.effects))

-- In every life of an offer the escrow is funded exactly once if the offer is paid, active,
-- completed, disputed or refunded, and not at all if it is not; and the unreleased rest is refunded
-- exactly once if the offer is refunded, and not at all if it is not.
pub life_accounted :
    (cs : List Call)
    → let (s, done) = life cs in
      (fundings done ≡ funded_times s) × (refunds done ≡ refunded_times s)
life_accounted cs =
    life-Inv IsAccounted cs
      (All-imp IsExact (IsKept IsAccounted) exact-IsKept transitions rows-IsExact) (refl, refl)
