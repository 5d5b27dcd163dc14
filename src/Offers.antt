-- ===== src/Offers.antt =====
-- lib/offers: the offer state machine, the negotiated scope, the price rules.
pub mod StateMachine
pub mod Scope
