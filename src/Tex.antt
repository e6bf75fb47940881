-- ===== src/Tex.antt =====
-- tex_engine/src/tex: category codes, numbers and tokens.
pub mod Catcodes
pub mod Numbers
pub mod Tokens
pub mod Compact
pub mod Packing
mod Tests
