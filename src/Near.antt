-- ===== src/Near.antt =====
-- What a contract call runs in: the panics, the machine words of the contract's arithmetic
-- (contract/src/core.rs and the operators of contract/src/domain/), and the NEAR runtime.
pub mod Error
pub mod Word
pub mod Env
