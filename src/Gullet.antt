-- ===== src/Gullet.antt =====
-- engine/gullet.rs and engine/gullet/methods.rs, with the parts of commands that they work with.
pub mod Result
pub mod Source
pub mod Parser
pub mod Groups
pub mod Arguments
pub mod Macros
pub mod Balance
pub mod Pieces
pub mod Delimited
pub mod DelimitedText
pub mod Calls
pub mod MacroCalls
pub mod Definitions
pub mod Signatures
pub mod RoundTrip
pub mod Conditionals
pub mod Skipping
pub mod Branches
pub mod Cases
pub mod Integers
pub mod Numeric
pub mod Radix
pub mod Digits
pub mod HexDigits
pub mod Invariant
pub mod Signs
mod Tests
mod BranchTests
mod IntegerTests
pub mod Keywords
pub mod KeywordText
