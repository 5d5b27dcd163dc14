-- ===== src/Offers/StateMachine/Runs.antt =====
-- Lives of an offer: a sequence of calls of `transition`, each on the state that the one before left.
-- A call that throws changes nothing (its transaction rolls back), and the effects are collected.
use kaktus.Base.{◌≡◌, refl, sym, Result, ok, err, List, [], ◌∷◌, ◌++◌, All}
use mathlib.Core.Path.{subst}
use kaktus.Offers.StateMachine.Types.{
  OfferStatus, draft, ActorRole, OfferEventName, SideEffect, TransitionContext, TransitionCode,
  TransitionOutcome, TransitionDefinition,
}
use kaktus.Offers.StateMachine.{transition, transitions}
use kaktus.Offers.StateMachine.Lookup.{transition-Passed, index_get-All}
use kaktus.Offers.StateMachine.Diagram.{IsTerminal, transition_sound}

pub record Call : Type 0 where
  pub event : OfferEventName
  pub actor : ActorRole
  pub ctx : TransitionContext

-- The state and all effects so far, after one more call.
abbrev advance :
    OfferStatus
    → List SideEffect
    → Result TransitionCode TransitionOutcome
    → OfferStatus × List SideEffect
advance s done (ok o) = (o.to, done ++ o.effects)
advance s done (err _) = (s, done)

unfoldable pub life_from : OfferStatus → List SideEffect → List Call → OfferStatus × List SideEffect
life_from s done [] = (s, done)
life_from s done (c ∷ cs) =
    let (s', done') = advance s done (transition s c.event c.actor c.ctx) in life_from s' done' cs

-- A new offer starts as a draft.
unfoldable pub life : List Call → OfferStatus × List SideEffect
unfolding life_from
life cs = life_from draft [] cs

-- What holds of a draft and is kept by every row of the table holds after every life.
module _ (Inv : OfferStatus → List SideEffect → Type 0) where
  abbrev pub IsKept : TransitionDefinition → Type 0
  IsKept d = (done : List SideEffect) → Inv d.from done → Inv d.to (done ++ d.effects)

  advance-Inv :
      (s : OfferStatus) (done : List SideEffect) (c : Call)
      → All IsKept transitions
      → Inv s done
      → (r : Result TransitionCode TransitionOutcome) → transition s c.event c.actor c.ctx ≡ r
      → let (s', done') = advance s done r in Inv s' done'
  advance-Inv s done c kept h (ok o) eq =
      let p = transition-Passed s c.event c.actor c.ctx eq in
      let (keep, from, _) = index_get-All IsKept s c.event kept p.found in
      subst (λ x. Inv x.to (done ++ x.effects)) (sym p.outcome)
        (keep done (subst (λ x. Inv x done) (sym from) h))
  advance-Inv s done c kept h (err _) eq = h

  pub life_from-Inv :
      (s : OfferStatus) (done : List SideEffect) (cs : List Call)
      → All IsKept transitions
      → Inv s done
      → let (s', done') = life_from s done cs in Inv s' done'
  unfolding life_from
  life_from-Inv s done [] kept h = h
  life_from-Inv s done (c ∷ cs) kept h =
      let r = transition s c.event c.actor c.ctx in
      let (s', done') = advance s done r in
      life_from-Inv s' done' cs kept (advance-Inv s done c kept h r refl)

  pub life-Inv :
      (cs : List Call)
      → All IsKept transitions
      → Inv draft []
      → let (s, done) = life cs in Inv s done
  unfolding life
  life-Inv cs = life_from-Inv draft [] cs

terminal_step :
    (s : OfferStatus) (c : Call)
    → IsTerminal s
    → (r : Result TransitionCode TransitionOutcome) → transition s c.event c.actor c.ctx ≡ r
    → (done : List SideEffect) → advance s done r ≡ (s, done)
terminal_step s c t (ok o) eq done = absurd ((transition_sound s c.event c.actor c.ctx eq).3 t)
terminal_step s c t (err _) eq done = refl

-- A terminal offer never changes again and has no further effect, whatever is asked of it.
pub terminal_absorbs :
    (s : OfferStatus) (done : List SideEffect) (cs : List Call)
    → IsTerminal s
    → life_from s done cs ≡ (s, done)
unfolding life_from
terminal_absorbs s done [] t = refl
terminal_absorbs s done (c ∷ cs) t =
    rw (terminal_step s c t (transition s c.event c.actor c.ctx) refl done)
      (terminal_absorbs s done cs t)
