-- ===== src/Signer.antt =====
-- signer-probe: the signer behind the game. `Bitcoin` is the interface of the third-party crates.
pub mod Result
pub mod Bitcoin
pub mod Seed
pub mod Review
pub mod Sign
pub mod Terminal
pub mod Probe
