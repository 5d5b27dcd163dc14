-- ===== src/Services.antt =====
-- The services (server/services): the state machine, the holds and the ledger put together.
pub mod Run
pub mod Samples
pub mod Offers
pub mod Disputes
pub mod Milestones
pub mod Payments
