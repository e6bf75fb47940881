-- ===== src/Gullet/Cases.antt =====
-- `case_loop` of engine/gullet/methods.rs, which finds a branch of an \ifcase.
use rus_te_x.Prelude.{
  ℕ, zero, suc, ◌+◌, ◌≤◌, ◌<◌, true, false, List, [], ◌∷◌, ◌++◌, ◌≡◌, refl, arith, length,
  length-append, append_assoc, drop-length-append, ltb, ◌==◌, subst, sym,
}
use rus_te_x.Tex.Numbers.{ℤ, pos}
use rus_te_x.Tex.Tokens.{Token}
use rus_te_x.Gullet.Result.{ok}
use rus_te_x.Gullet.Source.{Mouth}
use rus_te_x.Gullet.Conditionals.{
  ActiveConditional, case_of, Role, an_else, a_fi, an_or, opens, nothing, ended, goes_on, is_number,
  largest, counted, case_step, case_from, case_loop,
}
use rus_te_x.Gullet.Skipping.{Closes, Skipped, case_step-Follows, one_more, ended_lem, closes_lem}
use rus_te_x.Gullet.Branches.{Ends, length_sub}

-- Branches, each with the \or behind it, and the text behind the last \or.
abbrev pub cases_text : List (List Token × Token) → List Token → List Token
cases_text [] ts = ts
cases_text ((us, o) ∷ bs) ts = us ++ o ∷ cases_text bs ts

-- The first branch closes `n` conditionals that are open.
abbrev pub AreCases : (Token → Role) → ℕ → List (List Token × Token) → List Token → Type 0
AreCases role n [] ts = Closes role false false n ts
AreCases role n ((us, o) ∷ bs) ts =
    Closes role false false n us × (role o ≡ an_or) × AreCases role 0 bs ts

-- None of the next `k` numbers behind `curr` is the number of the \ifcase.
abbrev pub Missed : ℤ → ℕ → ℕ → Type 0
Missed n curr zero = Unit {0}
Missed n curr (suc k) = (is_number n (suc curr) ≡ false) × Missed n (suc curr) k

Missed-pos : (m curr k : ℕ) → curr + k < m → Missed (pos m) curr k
Missed-pos m curr zero h = tt
Missed-pos m curr (suc k) h = (ground arith, Missed-pos m (suc curr) k (omega arith))

module _ (ifcase : ℕ) where
  counted_missed :
      (n : ℤ) (conds : List ActiveConditional) (curr : ℕ)
      → curr < largest
      → is_number n (suc curr) ≡ false
      → counted ifcase n conds curr ≡ ok (goes_on (zero, suc curr))
  unfolding counted
  counted_missed n conds curr l m =
      let below : (curr == largest) ≡ false = ground arith in rw (below, m) refl

  counted_found :
      (conds : List ActiveConditional) (curr : ℕ)
      → curr < largest
      → counted ifcase (pos (suc curr)) conds curr ≡ ok (ended (case_of (pos (suc curr)) ∷ conds))
  unfolding counted
  counted_found conds curr l =
      let below : (curr == largest) ≡ false = ground arith in
      let same : (suc curr == suc curr) ≡ true = ground arith in rw (below, same) refl

  step-Ends-case :
      (n : ℤ) (conds r : List ActiveConditional) (curr : ℕ) (k : Role)
      → Ends true ifcase conds k r
      → case_step ifcase n conds k (zero, curr) ≡ ok (ended r)
  unfolding case_step
  step-Ends-case n conds r curr an_else h = rw h refl
  step-Ends-case n conds r curr a_fi h = rw h refl
  step-Ends-case n conds r curr an_or h = elim h [ ]
  step-Ends-case n conds r curr opens h = elim h [ ]
  step-Ends-case n conds r curr nothing h = elim h [ ]

  module _ (role : Token → Role) (M : Mouth) where
    missed_lem :
        (n : ℤ) (conds : List ActiveConditional) (bs : List (List Token × Token)) (ts : List Token)
        (depth curr need fuel : ℕ) (rest : List Token) (s : M.State)
        → AreCases role depth bs ts
        → Missed n curr (length bs)
        → curr + length bs ≤ largest
        → M.Waits s (cases_text bs ts ++ rest)
        → length (cases_text bs ts) + need ≤ fuel
        → Skipped ifcase role M
            (case_step ifcase n conds)
            need
            fuel
            (depth, curr)
            (0, curr + length bs)
            rest
            s
    unfolding case_step
    missed_lem n conds [] ts depth curr need fuel rest s c m b w l =
        let same : curr + 0 ≡ curr = omega arith in
        rw same (
          closes_lem ifcase role M false false (case_step ifcase n conds) (λ d. (d, curr))
            (case_step-Follows ifcase n conds curr) ts depth need fuel rest s c w l)
    missed_lem n conds ((us, o) ∷ bs) ts depth curr need fuel rest s (c, ro, cs) (m, ms) b w l =
        let f = case_step ifcase n conds in
        let more = cases_text bs ts in
        let (f1, s1, l1, e1, w1) =
          closes_lem ifcase role M false false f (λ d. (d, curr))
            (case_step-Follows ifcase n conds curr) us depth (suc (length more + need)) fuel
            (o ∷ (more ++ rest)) s c
            (subst (λ xs. M.Waits s xs) (append_assoc us (o ∷ more) rest) w)
            (omega (arith, length-append us (o ∷ more))) in
        let (s2, f2, fe, e2, w2) =
          one_more ifcase role M f f1 o (zero, curr) (zero, suc curr) (more ++ rest) s1
            (rw ro (counted_missed n conds curr (omega arith) m)) w1 (omega arith) in
        let (left, s3, l3, e3, w3) =
          missed_lem n conds bs ts 0 (suc curr) need f2 rest s2 cs ms (omega arith) w2
            (omega arith) in
        let count : suc curr + length bs ≡ curr + suc (length bs) = omega arith in
        (left, s3, l3, rw (e1, e2, sym count, e3) refl, w3)

    -- Where the mouth gives fewer than 2^31 - 1 branches with balanced conditionals, each but the
    -- last with its \or, the first of which also closes the conditionals that are open, then
    -- another \or and rest, and with enough fuel: case_loop for the number of these \or leaves the
    -- \ifcase on the stack and rest in the mouth.
    pub case_loop-found :
        (us : List ActiveConditional) (conds : List ActiveConditional)
        (bs : List (List Token × Token)) (ts : List Token) (o : Token) (rest : List Token)
        (fuel : ℕ) (s : M.State)
        → AreCases role (length us) bs ts
        → role o ≡ an_or
        → length bs < largest
        → M.Waits s (cases_text bs ts ++ o ∷ rest)
        → length (cases_text bs ts) < fuel
        → (s' : M.State) × (case_loop ifcase role M fuel
              (suc (length conds))
              (us ++ case_of (pos (suc (length bs))) ∷ conds)
              s
            ≡ ok (case_of (pos (suc (length bs))) ∷ conds, s'))
          × M.Waits s' rest
    unfolding case_loop case_from case_step
    case_loop-found us conds bs ts o rest fuel s c ro b w l =
        let n = pos (suc (length bs)) in
        let f = case_step ifcase n conds in
        let (left, s1, le, e1, w1) =
          missed_lem n conds bs ts (length us) 0 1 fuel (o ∷ rest) s c
            (Missed-pos (suc (length bs)) 0 (length bs) (omega arith)) (omega arith) w
            (omega arith) in
        let count : 0 + length bs ≡ length bs = omega arith in
        let (s2, e2, w2) =
          ended_lem ifcase role M f left o (zero, 0 + length bs) (case_of n ∷ conds) rest s1
            (rw (ro, count) (counted_found conds (length bs) b)) w1 le in
        let inside : ltb (length (us ++ case_of n ∷ conds)) (suc (length conds)) ≡ false =
          ground (arith, length-append us (case_of n ∷ conds)) in
        (
          s2,
          rw
              (
                inside,
                length_sub us (case_of n) conds,
                drop-length-append us (case_of n ∷ conds),
                e1,
                e2,
              )
              refl,
          w2,
        )

    -- Where the mouth gives at most 2^31 - 1 branches with balanced conditionals, the first of
    -- which also closes the conditionals that are open, none of which has the number of the
    -- \ifcase, then \else or \fi and rest, and with enough fuel: case_loop notes the else branch
    -- or removes the \ifcase, and leaves rest in the mouth.
    pub case_loop-Missed :
        (n : ℤ) (us conds r : List ActiveConditional) (bs : List (List Token × Token))
        (ts : List Token) (t : Token) (rest : List Token) (fuel : ℕ) (s : M.State)
        → AreCases role (length us) bs ts
        → Missed n 0 (length bs)
        → length bs ≤ largest
        → Ends true ifcase conds (role t) r
        → M.Waits s (cases_text bs ts ++ t ∷ rest)
        → length (cases_text bs ts) < fuel
        → (s' : M.State) × (case_loop ifcase role M fuel
              (suc (length conds))
              (us ++ case_of n ∷ conds)
              s
            ≡ ok (r, s'))
          × M.Waits s' rest
    unfolding case_loop case_from
    case_loop-Missed n us conds r bs ts t rest fuel s c m b en w l =
        let f = case_step ifcase n conds in
        let (left, s1, le, e1, w1) =
          missed_lem n conds bs ts (length us) 0 1 fuel (t ∷ rest) s c m (omega arith) w
            (omega arith) in
        let (s2, e2, w2) =
          ended_lem ifcase role M f left t (zero, 0 + length bs) r rest s1
            (step-Ends-case n conds r (0 + length bs) (role t) en) w1 le in
        let inside : ltb (length (us ++ case_of n ∷ conds)) (suc (length conds)) ≡ false =
          ground (arith, length-append us (case_of n ∷ conds)) in
        (
          s2,
          rw
              (
                inside,
                length_sub us (case_of n) conds,
                drop-length-append us (case_of n ∷ conds),
                e1,
                e2,
              )
              refl,
          w2,
        )
