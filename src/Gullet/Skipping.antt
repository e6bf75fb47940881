-- ===== src/Gullet/Skipping.antt =====
-- Text that the loops of conditionals skip: `false_loop` and `case_loop` of engine/gullet/methods.rs.
use rus_te_x.Prelude.{
  ℕ, zero, suc, ◌+◌, ◌≤◌, Bool, true, false, not, List, [], ◌∷◌, ◌++◌, ◌≡◌, refl, arith, length,
}
use rus_te_x.Tex.Numbers.{ℤ}
use rus_te_x.Tex.Tokens.{Token}
use rus_te_x.Gullet.Result.{TeXError, Result, ok}
use rus_te_x.Gullet.Source.{Mouth, need_iterate-Waits}
use rus_te_x.Gullet.Conditionals.{
  ActiveConditional, Role, an_else, a_fi, an_or, opens, nothing, Step, ended, goes_on, false_step,
  case_step, step_go, skip_loop,
}

-- What a token does to the number of open conditionals. Outside all of them, \else and \or stand only where
-- `e` and `o` say so, and \fi does not.
abbrev pub AtDepth : Bool → Bool → Role → ℕ → (ℕ → Type 0) → Type 0
AtDepth e o opens n P = P (suc n)
AtDepth e o a_fi zero P = ⊥
AtDepth e o a_fi (suc n) P = P n
AtDepth e o an_else zero P = (e ≡ true) × P zero
AtDepth e o an_else (suc n) P = P (suc n)
AtDepth e o an_or zero P = (o ≡ true) × P zero
AtDepth e o an_or (suc n) P = P (suc n)
AtDepth e o nothing n P = P n

-- The text closes `n` open conditionals and all that it opens.
abbrev pub Closes : (Token → Role) → Bool → Bool → ℕ → List Token → Type 0
Closes role e o n [] = n ≡ 0
Closes role e o n (t ∷ ts) = AtDepth e o (role t) n (λ m. Closes role e o m ts)

module _ (ifcase : ℕ) where
  -- A loop whose count of open conditionals `at` writes passes such text.
  abbrev Follows : Bool → Bool → {A : Type 0} → (Role → A → Result (Step A)) → (ℕ → A) → Type 1
  Follows e o f at =
      (r : Role) (n : ℕ) (P : ℕ → Type 0)
      → AtDepth e o r n P
      → (m : ℕ) × P m × (f r (at n) ≡ ok (goes_on (at m)))

  pub false_step-Follows :
      (allowelse : Bool) (cond : ℕ) (conds : List ActiveConditional)
      → Follows (not allowelse) true (false_step ifcase allowelse cond conds) (λ n. n)
  unfolding false_step
  false_step-Follows allowelse cond conds opens n P h = (suc n, h, refl)
  false_step-Follows allowelse cond conds a_fi zero P h = elim h [ ]
  false_step-Follows allowelse cond conds a_fi (suc n) P h = (n, h, refl)
  false_step-Follows true cond conds an_else zero P (h, k) = cc
  false_step-Follows false cond conds an_else zero P (h, k) = (zero, k, refl)
  false_step-Follows allowelse cond conds an_else (suc n) P h = (suc n, h, refl)
  false_step-Follows allowelse cond conds an_or zero P (h, k) = (zero, k, refl)
  false_step-Follows allowelse cond conds an_or (suc n) P h = (suc n, h, refl)
  false_step-Follows allowelse cond conds nothing n P h = (n, h, refl)

  pub case_step-Follows :
      (cond : ℤ) (conds : List ActiveConditional) (curr : ℕ)
      → Follows false false (case_step ifcase cond conds) (λ n. (n, curr))
  unfolding case_step
  case_step-Follows cond conds curr opens n P h = (suc n, h, refl)
  case_step-Follows cond conds curr a_fi zero P h = elim h [ ]
  case_step-Follows cond conds curr a_fi (suc n) P h = (n, h, refl)
  case_step-Follows cond conds curr an_else zero P (h, k) = cc
  case_step-Follows cond conds curr an_else (suc n) P h = (suc n, h, refl)
  case_step-Follows cond conds curr an_or zero P (h, k) = cc
  case_step-Follows cond conds curr an_or (suc n) P h = (suc n, h, refl)
  case_step-Follows cond conds curr nothing n P h = (n, h, refl)

  module _ (role : Token → Role) (M : Mouth) where
    pub goes_on_lem :
        {A : Type 0} (f : Role → A → Result (Step A)) (fuel : ℕ) (t : Token) (a a' : A)
        (rest : List Token) (s : M.State)
        → f (role t) a ≡ ok (goes_on a')
        → M.Waits s (t ∷ rest)
        → (s' : M.State) × (skip_loop ifcase role M f (suc fuel) a s
            ≡ skip_loop ifcase role M f fuel a' s')
          × M.Waits s' rest
    unfolding skip_loop step_go
    goes_on_lem f fuel t a a' rest s e w =
        let (s', n, w') = need_iterate-Waits M TeXError.incomplete_conditional s t rest w in
        (s', rw (n, e) refl, w')

    pub one_more :
        {A : Type 0} (f : Role → A → Result (Step A)) (fuel : ℕ) (t : Token) (a a' : A)
        (rest : List Token) (s : M.State)
        → f (role t) a ≡ ok (goes_on a')
        → M.Waits s (t ∷ rest)
        → 1 ≤ fuel
        → (s' : M.State) × (left : ℕ) × (fuel ≡ suc left)
          × (skip_loop ifcase role M f fuel a s ≡ skip_loop ifcase role M f left a' s')
          × M.Waits s' rest
    one_more f zero t a a' rest s e w l = absurd (omega arith)
    one_more f (suc fuel) t a a' rest s e w l =
        let (s', g, w') = goes_on_lem f fuel t a a' rest s e w in (s', fuel, refl, g, w')

    pub ended_lem :
        {A : Type 0} (f : Role → A → Result (Step A)) (fuel : ℕ) (t : Token) (a : A)
        (conds : List ActiveConditional) (rest : List Token) (s : M.State)
        → f (role t) a ≡ ok (ended conds)
        → M.Waits s (t ∷ rest)
        → 1 ≤ fuel
        → (s' : M.State) × (skip_loop ifcase role M f fuel a s ≡ ok (conds, s')) × M.Waits s' rest
    unfolding skip_loop step_go
    ended_lem f zero t a conds rest s e w l = absurd (omega arith)
    ended_lem f (suc fuel) t a conds rest s e w l =
        let (s', n, w') = need_iterate-Waits M TeXError.incomplete_conditional s t rest w in
        (s', rw (n, e) refl, w')

    -- The loop is where the text has been skipped, and `need` of its fuel is left.
    abbrev pub Skipped :
        {A : Type 0} → (Role → A → Result (Step A)) → ℕ → ℕ → A → A → List Token → M.State → Type 0
    Skipped f need fuel a a' rest s =
        (left : ℕ) × (s' : M.State) × (need ≤ left)
        × (skip_loop ifcase role M f fuel a s ≡ skip_loop ifcase role M f left a' s')
        × M.Waits s' rest

    pub closes_lem :
        (e o : Bool) {A : Type 0} (f : Role → A → Result (Step A)) (at : ℕ → A)
        → Follows e o f at
        → (ts : List Token) (n need fuel : ℕ) (rest : List Token) (s : M.State)
        → Closes role e o n ts
        → M.Waits s (ts ++ rest)
        → length ts + need ≤ fuel
        → Skipped f need fuel (at n) (at 0) rest s
    closes_lem e o f at follows [] n need fuel rest s c w l = (fuel, s, omega arith, rw c refl, w)
    closes_lem e o f at follows (t ∷ ts) n need zero rest s c w l = absurd (omega arith)
    closes_lem e o f at follows (t ∷ ts) n need (suc fuel) rest s c w l =
        let (m, c', g) = follows (role t) n (λ m. Closes role e o m ts) c in
        let (s', eq, w') = goes_on_lem f fuel t (at n) (at m) (ts ++ rest) s g w in
        let (left, s'', le, eq', w'') =
          closes_lem e o f at follows ts m need fuel rest s' c' w' (omega arith) in
        (left, s'', le, rw (eq, eq') refl, w'')
