-- ===== src/Bank.antt =====
-- midterm: the bank server, its tellers, and the shared memory between them.
pub mod Account
pub mod Log
pub mod Exchange
pub mod Command
