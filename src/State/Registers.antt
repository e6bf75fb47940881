-- ===== src/State/Registers.antt =====
-- The registers of engine/state/tex_state.rs are vectors that grow when a high index is written;
-- the tables of codes are arrays over the characters, and those of primitives are hash maps.
use rus_te_x.Prelude.{
  ℕ, zero, suc, ◌+◌, ◌-◌, ◌≤◌, ◌<◌, ◌≡◌, refl, List, [], ◌∷◌, ◌++◌, Option, none, some, arith, leb,
  ◌==◌, if◌then◌else◌, length, get_or, set, replicate, length-append, length-replicate,
}

module _ {ℓ} {A : Type ℓ} where
  -- `if reg.len() <= idx { reg.resize(idx + 1, default) }`
  unfoldable pub resize_for : ℕ → A → List A → List A
  resize_for idx d reg =
      if leb (length reg) idx then reg ++ replicate (idx + 1 - length reg) d else reg

  pub length-resize_for : (idx : ℕ) (d : A) (reg : List A) → idx < length (resize_for idx d reg)
  unfolding resize_for
  length-resize_for idx d reg = ground (
    arith,
    length-append reg (replicate (idx + 1 - length reg) d),
    length-replicate (idx + 1 - length reg) d,
  )

  pub length-le-resize_for :
      (idx : ℕ) (d : A) (reg : List A) → length reg ≤ length (resize_for idx d reg)
  unfolding resize_for
  length-le-resize_for idx d reg =
      ground (arith, length-append reg (replicate (idx + 1 - length reg) d))

  get_or-replicate : (n i : ℕ) (d : A) → get_or (replicate n d) i d ≡ d
  get_or-replicate zero i d = refl
  get_or-replicate (suc n) zero d = refl
  get_or-replicate (suc n) (suc i) d = get_or-replicate n i d

  get_or-append : (xs : List A) (n i : ℕ) (d : A) → get_or (xs ++ replicate n d) i d ≡ get_or xs i d
  get_or-append [] n i d = get_or-replicate n i d
  get_or-append (x ∷ xs) n zero d = refl
  get_or-append (x ∷ xs) n (suc i) d = get_or-append xs n i d

  -- Growing a register changes no value that can be read.
  pub get_or-resize_for :
      (idx : ℕ) (d : A) (reg : List A) (i : ℕ) → get_or (resize_for idx d reg) i d ≡ get_or reg i d
  unfolding resize_for
  get_or-resize_for idx d reg i = ground (arith, get_or-append reg (idx + 1 - length reg) i d)

  pub get_or-set :
      (xs : List A) (i j : ℕ) (v d : A)
      → i < length xs
      → get_or (set xs i v) j d ≡ (if i == j then v else get_or xs j d)
  get_or-set [] i j v d h = elim h [ ]
  get_or-set (x ∷ xs) zero zero v d h = refl
  get_or-set (x ∷ xs) zero (suc j) v d h = ground arith
  get_or-set (x ∷ xs) (suc i) zero v d h = ground arith
  get_or-set (x ∷ xs) (suc i) (suc j) v d h = ground (arith, get_or-set xs i j v d)

  -- `*map.get_mut(c) = v`, `map.insert(c, v)`
  abbrev pub update : (ℕ → A) → ℕ → A → ℕ → A
  update m i v j = if i == j then v else m j

-- `unwrap_or_default`
abbrev pub or_default {ℓ} : {A : Type ℓ} → A → Option A → A
or_default d none = d
or_default d (some a) = a

module _ {ℓ} {A : Type ℓ} where
  pub get_or_beyond : (xs : List A) (i : ℕ) (d : A) → length xs ≤ i → get_or xs i d ≡ d
  get_or_beyond [] i d h = refl
  get_or_beyond (x ∷ xs) zero d h = absurd (omega arith)
  get_or_beyond (x ∷ xs) (suc i) d h = get_or_beyond xs i d (omega arith)

  -- Writing the default needs no bound.
  pub get_or-set_default :
      (xs : List A) (i j : ℕ) (d : A)
      → get_or (set xs i d) j d ≡ (if i == j then d else get_or xs j d)
  get_or-set_default [] i j d = ground arith
  get_or-set_default (x ∷ xs) zero zero d = refl
  get_or-set_default (x ∷ xs) zero (suc j) d = ground arith
  get_or-set_default (x ∷ xs) (suc i) zero d = ground arith
  get_or-set_default (x ∷ xs) (suc i) (suc j) d = ground (arith, get_or-set_default xs i j d)
