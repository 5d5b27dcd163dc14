-- ===== src/Payments.antt =====
-- lib/payments: the arithmetic of amounts, the basket of the payment provider, and the ledger.
pub mod Split
pub mod Basket
pub mod Ledger
mod Tests
