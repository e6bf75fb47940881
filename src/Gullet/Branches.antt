-- ===== src/Gullet/Branches.antt =====
-- Which branch of a conditional is taken: `do_conditional` of engine/gullet.rs with the loops that skip the
-- others, and `else`, `or` and `fi` of commands/tex.rs.
use rus_te_x.Prelude.{
  ℕ, zero, suc, ◌+◌, ◌-◌, ◌<◌, Bool, true, false, not, List, [], ◌∷◌, ◌++◌, ◌≡◌, ◌≢◌, refl, arith,
  length, length-append, drop-length-append, ltb, ◌==◌, if◌then◌else◌,
}
use rus_te_x.Tex.Tokens.{Token}
use rus_te_x.Gullet.Result.{Result, ok}
use rus_te_x.Gullet.Source.{Mouth}
use rus_te_x.Gullet.Conditionals.{
  ActiveConditional, unfinished, true_branch, else_branch, Role, an_else, a_fi, an_or, opens,
  nothing, ended, name, false_step, false_from, false_loop, decided, do_conditional, do_else, do_fi,
}
use rus_te_x.Gullet.Skipping.{Closes, false_step-Follows, ended_lem, closes_lem}

-- The stack behind the token that ends `false_loop`.
abbrev pub Ends : Bool → ℕ → List ActiveConditional → Role → List ActiveConditional → Type 0
Ends true n conds an_else r = r ≡ else_branch n ∷ conds
Ends allowelse n conds a_fi r = r ≡ conds
Ends allowelse n conds role r = ⊥

pub length_sub :
    (us : List ActiveConditional) (c : ActiveConditional) (conds : List ActiveConditional)
    → length (us ++ c ∷ conds) - suc (length conds) ≡ length us
length_sub us c conds = omega (arith, length-append us (c ∷ conds))

module _ (ifcase : ℕ) where
  step-Ends :
      (allowelse : Bool) (n : ℕ) (conds r : List ActiveConditional) (k : Role)
      → Ends allowelse n conds k r
      → false_step ifcase allowelse n conds k zero ≡ ok (ended r)
  unfolding false_step
  step-Ends true n conds r an_else h = rw h refl
  step-Ends false n conds r an_else h = elim h [ ]
  step-Ends true n conds r a_fi h = rw h refl
  step-Ends false n conds r a_fi h = rw h refl
  step-Ends true n conds r an_or h = elim h [ ]
  step-Ends false n conds r an_or h = elim h [ ]
  step-Ends true n conds r opens h = elim h [ ]
  step-Ends false n conds r opens h = elim h [ ]
  step-Ends true n conds r nothing h = elim h [ ]
  step-Ends false n conds r nothing h = elim h [ ]

  module _ (role : Token → Role) (M : Mouth) where
    -- Where conditionals us stand above c on the stack, and the mouth gives text that closes us
    -- and all that it opens, with \else outside of them only where \else does not end the loop,
    -- then \fi, or \else where it ends the loop, and with more fuel than the text: false_loop down
    -- to c removes us and c, notes the else branch of c if it ends at \else, and leaves what
    -- follows.
    pub false_loop-Closes :
        (allowelse : Bool) (us : List ActiveConditional) (c : ActiveConditional)
        (conds r : List ActiveConditional) (ts : List Token) (t : Token) (rest : List Token)
        (fuel : ℕ) (s : M.State)
        → Closes role (not allowelse) true (length us) ts
        → Ends allowelse (name ifcase c) conds (role t) r
        → M.Waits s (ts ++ t ∷ rest)
        → length ts < fuel
        → (s' : M.State) × (false_loop ifcase role M fuel
              (suc (length conds))
              allowelse
              (us ++ c ∷ conds)
              s
            ≡ ok (r, s'))
          × M.Waits s' rest
    unfolding false_loop false_from
    false_loop-Closes allowelse us c conds r ts t rest fuel s cl en w l =
        let f = false_step ifcase allowelse (name ifcase c) conds in
        let (left, s1, le, e1, w1) =
          closes_lem ifcase role M (not allowelse) true f (λ n. n)
            (false_step-Follows ifcase allowelse (name ifcase c) conds) ts (length us) 1 fuel
            (t ∷ rest) s cl w (omega arith) in
        let (s2, e2, w2) =
          ended_lem ifcase role M f left t zero r rest s1
            (step-Ends allowelse (name ifcase c) conds r (role t) en) w1 le in
        let inside : ltb (length (us ++ c ∷ conds)) (suc (length conds)) ≡ false =
          ground (arith, length-append us (c ∷ conds)) in
        (s2, rw (inside, length_sub us c conds, drop-length-append us (c ∷ conds), e1, e2) refl, w2)

    module _ (n : ℕ) (other : n ≢ ifcase)
        (test : List ActiveConditional → M.State → Result (Bool × List ActiveConditional × M.State))
        (unless b : Bool) (conds : List ActiveConditional) (s s1 : M.State)
        (tested : test (unfinished n ∷ conds) s ≡ ok (b, unfinished n ∷ conds, s1)) where
      -- For a primitive other than \ifcase whose test leaves the stack of conditionals as it is
      -- and, with \unless taken into account, comes out true: do_conditional notes the true branch
      -- and reads nothing; and an \else there skips text with balanced conditionals up to its \fi,
      -- removes the note and leaves what follows.
      pub do_conditional-true :
          (ts : List Token) (e f : Token) (rest : List Token) (fuel : ℕ) (s2 : M.State)
          → (if unless then not b else b) ≡ true
          → Closes role true true 0 ts
          → role f ≡ a_fi
          → M.Waits s2 (ts ++ f ∷ rest)
          → length ts < fuel
          → (do_conditional ifcase role M fuel n test unless conds s
              ≡ ok (true_branch n ∷ conds, s1))
            × (s3 : M.State) × (do_else ifcase role M fuel e (true_branch n ∷ conds) s2
                ≡ ok (conds, s3))
            × M.Waits s3 rest
      unfolding do_conditional decided do_else
      do_conditional-true ts e f rest fuel s2 t c r w l =
          let differ : (n == ifcase) ≡ false = ground arith in
          let first : suc (length conds) - suc (length conds) ≡ 0 = omega arith in
          let inside : ltb (length conds) (suc (length conds)) ≡ true = ground arith in
          let (s3, e3, w3) =
            false_loop-Closes false [] (else_branch n) conds conds ts f rest fuel s2 c (rw r refl) w
              l in
          (rw (tested, t, differ, inside, first, first) refl, s3, e3, w3)

      -- For a primitive other than \ifcase whose test leaves the stack of conditionals as it is
      -- and, with \unless taken into account, comes out false: do_conditional skips text with
      -- balanced conditionals up to its \else, notes the else branch and leaves what follows; and
      -- \fi there removes the note.
      pub do_conditional-false :
          (ts : List Token) (e f : Token) (rest : List Token) (fuel : ℕ) (s3 : M.State)
          → (if unless then not b else b) ≡ false
          → Closes role false true 0 ts
          → role e ≡ an_else
          → M.Waits s1 (ts ++ e ∷ rest)
          → length ts < fuel
          → ((s2 : M.State) × (do_conditional ifcase role M fuel n test unless conds s
                ≡ ok (else_branch n ∷ conds, s2))
              × M.Waits s2 rest)
            × (do_fi ifcase role M f (else_branch n ∷ conds) s3 ≡ ok (conds, s3))
      unfolding do_conditional decided do_fi
      do_conditional-false ts e f rest fuel s3 t c r w l =
          let differ : (n == ifcase) ≡ false = ground arith in
          let next : length conds + 1 ≡ suc (length conds) = omega arith in
          let (s2, e2, w2) =
            false_loop-Closes true [] (unfinished n) conds (else_branch n ∷ conds) ts e rest fuel s1
              c (rw r refl) w l in
          ((s2, rw (tested, t, differ, next) e2, w2), refl)
