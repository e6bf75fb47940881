-- ===== src/Mouth.antt =====
-- engine/mouth.rs and engine/mouth/strings.rs: reading tokens from lines, and the stack of inputs.
pub mod Input
pub mod Superscript
pub mod Names
pub mod Tokenizer
pub mod Readline
pub mod Ahead
pub mod Progress
pub mod NamesTotal
pub mod Total
pub mod Exhaust
pub mod Words
pub mod ReadLoop
mod Tests
pub mod Inputs
pub mod Next
pub mod Pending
pub mod Queue
pub mod Display
