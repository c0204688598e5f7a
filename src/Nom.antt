-- ===== src/Nom.antt =====
-- The third-party crate `nom` (version 6): results, the interface of the operations that the
-- parsers call with their documented behaviour, rules that follow, and a value of the interface.
mod Result
mod Interface
pub mod Rules
pub mod Reference
pub use Result.*
pub use Interface.*
