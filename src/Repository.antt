-- ===== src/Repository.antt =====
-- packages/services/src/db/repository.ts: the operations whose guards keep workers apart. A table is
-- the list of its rows, and a transaction is one step from table to table.
pub mod Leases
pub mod Jobs
pub mod Trades
mod Tests
