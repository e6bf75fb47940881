-- ===== src/Tex/Numbers.antt =====
-- The numbers of tex/numerics.rs that the state stores. Sums and scaling are not needed here.
use rus_te_x.Prelude.{ℕ, Bool, false, Option, none, ltb, ◌==◌}

-- An `i32`; `negsuc n` is -(n + 1).
pub data ℤ : Type 0 where
  pos : ℕ → ℤ
  negsuc : ℕ → ℤ

-- `== ET::Int::default()`
abbrev pub is_zero : ℤ → Bool
is_zero (pos n) = n == 0
is_zero (negsuc n) = false

-- `> ET::Int::default()`
abbrev pub is_positive : ℤ → Bool
is_positive (pos n) = ltb 0 n
is_positive (negsuc n) = false

-- `StretchShrink`; a dimension counts scaled points.
pub data StretchShrink : Type 0 where
  dim fil fill filll : ℤ → StretchShrink

pub record Skip : Type 0 where
  pub base : ℤ
  pub stretch : Option StretchShrink
  pub shrink : Option StretchShrink

-- `Skip::default()`
abbrev pub zero_skip : Skip
zero_skip = record { base = pos 0; stretch = none; shrink = none }

pub data MuStretchShrink : Type 0 where
  mu fil fill filll : ℤ → MuStretchShrink

pub record MuSkip : Type 0 where
  pub base : ℤ
  pub stretch : Option MuStretchShrink
  pub shrink : Option MuStretchShrink

-- `MuSkip::default()`
abbrev pub zero_muskip : MuSkip
zero_muskip = record { base = pos 0; stretch = none; shrink = none }
