-- ===== src/Gullet/Radix.antt =====
-- Literals in any base, for the functions of engine/gullet/methods.rs that read integers digit by digit.
use rus_te_x.Prelude.{
  ℕ, zero, suc, ◌+◌, ◌*◌, ◌≤◌, ◌<◌, Bool, true, false, some, List, [], ◌∷◌, ◌≡◌, refl, arith,
  length, ltb, sym, ◌⊎◌, inl, inr,
}
use native.Mathlib.Nat.{mul-le-mul, mul-le-mul_left}
use rus_te_x.Tex.Tokens.{Token}
use rus_te_x.Gullet.Result.{Result, ok, panic, ◌>>=◌}
use rus_te_x.Gullet.Integers.{Resolved, Expansion, appended}

-- the weight of a digit in front of the digits
abbrev pub weight : ℕ → List ℕ → ℕ
weight base [] = 1
weight base (d ∷ ds) = base * weight base ds

-- the number that the digits write
abbrev pub numeral : ℕ → List ℕ → ℕ
numeral base [] = 0
numeral base (d ∷ ds) = d * weight base ds + numeral base ds

abbrev pub AllBelow : ℕ → List ℕ → Type 0
AllBelow base [] = Unit {0}
AllBelow base (d ∷ ds) = (d < base) × AllBelow base ds

pub weight-pos : (base : ℕ) (ds : List ℕ) → 1 ≤ base → 1 ≤ weight base ds
weight-pos base [] h = omega arith
weight-pos base (d ∷ ds) h = omega (arith, mul-le-mul h (weight-pos base ds h))

shifted : (base ret d w rest : ℕ) → (base * ret + d) * w + rest ≡ ret * (base * w) + (d * w + rest)
shifted base ret d w rest = omega arith

grows : (a w rest : ℕ) → 1 ≤ w → a ≤ a * w + rest
grows a w rest h = omega (arith, mul-le-mul_left a h)

appended-fits :
    (top base ret d w rest : ℕ)
    → 1 ≤ w
    → ret * (base * w) + (d * w + rest) ≤ top
    → appended top base ret d ≡ ok (base * ret + d)
unfolding appended
appended-fits top base ret d w rest h fits =
    let small : base * ret + d ≤ top =
      omega (arith, grows (base * ret + d) w rest h, shifted base ret d w rest) in
    let test : ltb top (base * ret + d) ≡ false = ground arith in rw test refl

pub decides : (b : Bool) → (b ≡ true) ⊎ (b ≡ false)
decides true = inl refl
decides false = inr refl

module _ (E : Expansion) (IsDigit : ℕ → Resolved → Type 0) where
  -- the next tokens are the digits, up to a state
  abbrev pub DigitsAt : List ℕ → E.State → E.State → Type 0
  DigitsAt [] s s' = s ≡ s'
  DigitsAt (d ∷ ds) s s' =
      (t : Token) × (r : Resolved) × (s1 : E.State) × IsDigit d r
      × (E.next s ≡ ok (some (t, r), s1))
      × DigitsAt ds s1 s'

-- `loop` reads digits; `IsDigit` is what the digits look like.
module _ (E : Expansion) {A : Type 0} (base top : ℕ) (positive : 1 ≤ base)
    (IsDigit : ℕ → Resolved → Type 0) (loop : ℕ → ℕ → E.State → Result A)
    (ends : (ret : ℕ) (s : E.State) → loop zero ret s ≡ panic)
    (step : (fuel ret d : ℕ) (t : Token) (r : Resolved) (s s1 : E.State)
      → d < base
      → IsDigit d r
      → E.next s ≡ ok (some (t, r), s1)
      → loop (suc fuel) ret s ≡ (appended top base ret d >>= λ ret'. loop fuel ret' s1)) where
  pub digits_fit :
      (ds : List ℕ) (ret fuel : ℕ) (s s' : E.State)
      → AllBelow base ds
      → DigitsAt E IsDigit ds s s'
      → ret * weight base ds + numeral base ds ≤ top
      → length ds < fuel
      → (left : ℕ) × (1 ≤ left)
        × (loop fuel ret s ≡ loop left (ret * weight base ds + numeral base ds) s')
  digits_fit [] ret fuel s s' b at fits l =
      let same : ret * 1 + 0 ≡ ret = omega arith in (fuel, omega arith, rw (at, same) refl)
  digits_fit (d ∷ ds) ret zero s s' b at fits l = absurd (omega arith)
  digits_fit (d ∷ ds) ret (suc fuel) s s' (b, bs) (t, r, s1, sh, e, at) fits l =
      let w = weight base ds in
      let fits' =
        appended-fits top base ret d w (numeral base ds) (weight-pos base ds positive) fits in
      let shift = shifted base ret d w (numeral base ds) in
      let (left, le, eq) =
        digits_fit ds (base * ret + d) fuel s1 s' bs at (omega (arith, shift)) (omega arith) in
      (left, le, rw (step fuel ret d t r s s1 b sh e, fits', sym shift) eq)

  pub digits_overflow :
      (ds : List ℕ) (ret fuel : ℕ) (s s' : E.State)
      → AllBelow base ds
      → DigitsAt E IsDigit ds s s'
      → ret ≤ top
      → top < ret * weight base ds + numeral base ds
      → loop fuel ret s ≡ panic
  unfolding appended
  digits_overflow [] ret fuel s s' b at small big = absurd (omega arith)
  digits_overflow (d ∷ ds) ret zero s s' b at small big = ends ret s
  digits_overflow (d ∷ ds) ret (suc fuel) s s' (b, bs) (t, r, s1, sh, e, at) small big =
      let shift = shifted base ret d (weight base ds) (numeral base ds) in
      elim (decides (ltb top (base * ret + d))) [
        | inl over ↦ rw (step fuel ret d t r s s1 b sh e, over) refl
        | inr fits ↦
            rw (step fuel ret d t r s s1 b sh e, fits)
              (digits_overflow ds (base * ret + d) fuel s1 s' bs at (ground arith)
                (omega (arith, shift)))
      ]
