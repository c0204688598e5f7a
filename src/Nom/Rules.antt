-- ===== src/Nom/Rules.antt =====
-- Consequences of the laws: inversion of results, the soundness rules and the rules on values. A
-- parser is sound for a grammar if each value that it returns is spelt by the bytes that it consumed.
mod Inversion
mod Rounds
mod Grammars
mod Soundness
mod Values
mod Loops
mod Classes
mod Runs
mod Letters
mod Streaming
mod Decisions
mod DecisionLoops
mod StreamingLoops
pub use Inversion.*
pub use Rounds.*
pub use Grammars.*
pub use Soundness.*
pub use Values.*
pub use Loops.*
pub use Classes.*
pub use StreamingLoops.*
pub use Decisions.*
pub use DecisionLoops.*
pub use Streaming.*
pub use Runs.*
pub use Letters.*
