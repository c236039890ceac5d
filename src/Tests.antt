-- ===== src/Tests.antt =====
-- Concrete runs of the theorems on a small instance.
pub mod Toy
pub mod LinkRuns
pub mod WalletRuns
pub mod Card
pub mod Memory
pub mod CardRuns
pub mod WorkerRuns
pub mod ProbeRuns
pub mod CartridgeRuns
pub mod MailboxRuns
pub mod ClockRuns
pub mod Chip
pub mod HeaderRuns
