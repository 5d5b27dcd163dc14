-- ===== src/Database.antt =====
-- The tables that the services read and write (prisma/schema.prisma), as far as the modelled code
-- uses their columns, and transactions over them (lib/tx.ts).
mod Enums
mod Rows
mod Transaction
pub mod Keeps
pub mod Samples
pub use Enums.*
pub use Rows.*
pub use Transaction.*
