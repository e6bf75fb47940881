-- ===== src/Gullet/Delimited.antt =====
-- The loop of `read_delimited_argument` of engine/gullet/methods.rs on the text of an argument.
use rus_te_x.Prelude.{
  ℕ, zero, suc, ◌+◌, ◌≤◌, ◌<◌, Bool, true, false, Option, List, [], ◌∷◌, ◌++◌, ◌≡◌, refl, arith,
  length, append_assoc, append-nil, length-append, ap, subst,
}
use rus_te_x.Tex.Tokens.{Token}
use rus_te_x.Gullet.Result.{Result, ok}
use rus_te_x.Gullet.Source.{Mouth, need_next-Waits}
use rus_te_x.Gullet.Groups.{Kind, begins, ends, blank, noexpand, paragraph, plain, kind}
use rus_te_x.Gullet.Arguments.{
  ends_with, is_begin_group, opened, noted, collect, collected, compared, delimited_at,
  delimited_loop,
}
use rus_te_x.Gullet.Balance.{group_into-Inside}
use rus_te_x.Gullet.Pieces.{
  Piece, single, group, piece_text, flatten, IsSingle, IsGroup, ArePieces, Before,
}

-- the note on braces behind pieces that stand behind `a`
abbrev pub noted_after : Option (Option ℕ) → List Token → List Piece → Option (Option ℕ)
noted_after rb a [] = rb
noted_after rb a (single t ∷ ps) = noted_after rb (a ++ t ∷ []) ps
noted_after rb a (group o body c ∷ ps) =
    let a' = a ++ (o ∷ body ++ c ∷ []) in noted_after (noted a' (opened a rb)) a' ps

group_text :
    (o : Token) (body : List Token) (c : Token) (ts rest : List Token)
    → ((o ∷ body ++ c ∷ []) ++ ts) ++ rest ≡ o ∷ body ++ c ∷ (ts ++ rest)
group_text o body c ts rest =
    ap (λ us. o ∷ us)
      (rw (append_assoc (body ++ c ∷ []) ts rest, append_assoc body (c ∷ []) (ts ++ rest)) refl)

module _ (ne : ℕ) (M : Mouth) (long : Bool) (delim : List Token) (last : Token) where
  compared_early :
      (rec : Option (Option ℕ) → List Token → M.State → Result (List Token × M.State))
      (rb : Option (Option ℕ)) (t : Token) (a : List Token) (s : M.State)
      → ends_with (a ++ t ∷ []) delim ≡ false
      → compared ne M long delim last rec rb t a s ≡ rec rb (a ++ t ∷ []) s
  unfolding compared
  compared_early rec rb t a s h = ground arith

  collect-long :
      (t : Token) (a : List Token) → long ≡ true → collect ne M long t a ≡ ok (a ++ t ∷ [])
  unfolding collect collected
  collect-long t a h = rw h refl

  pub at_single :
      (rec : Option (Option ℕ) → List Token → M.State → Result (List Token × M.State)) (fuel : ℕ)
      (b : Bool) (k : Kind) (rb : Option (Option ℕ)) (t : Token) (a : List Token) (s : M.State)
      → IsSingle long k
      → delimited_at ne M long delim last rec fuel b k rb t a s
        ≡ compared ne M long delim last rec rb t a s
  unfolding delimited_at
  at_single rec fuel b begins rb t a s h = elim h [ ]
  at_single rec fuel b ends rb t a s h = elim h [ ]
  at_single rec fuel b noexpand rb t a s h = elim h [ ]
  at_single rec fuel false blank rb t a s h = refl
  at_single rec fuel true blank rb t a s h = refl
  at_single rec fuel false plain rb t a s h = refl
  at_single rec fuel true plain rb t a s h = refl
  at_single rec fuel false paragraph rb t a s h = rw (collect-long t a h) refl
  at_single rec fuel true paragraph rb t a s h = rw (collect-long t a h) refl

  abbrev brace : Bool
  brace = is_begin_group (kind ne last)

  -- The loop is past one piece.
  abbrev Passed : ℕ → Piece → Option (Option ℕ) → List Token → List Token → M.State → Type 0
  Passed fuel p rb a rest s =
      (s' : M.State) × (delimited_loop ne M long delim last (suc fuel) rb a s
        ≡ delimited_loop ne M long delim last fuel (noted_after rb a (p ∷ [])) (a ++ piece_text p)
            s')
      × M.Waits s' rest

  single-Passed :
      (fuel : ℕ) (t : Token) (rb : Option (Option ℕ)) (a rest : List Token) (s : M.State)
      → IsSingle long (kind ne t)
      → ends_with (a ++ t ∷ []) delim ≡ false
      → M.Waits s (t ∷ rest)
      → Passed fuel (single t) rb a rest s
  unfolding delimited_loop
  single-Passed fuel t rb a rest s i e w =
      let (s', n, w') = need_next-Waits M s t rest w in
      let l = delimited_loop ne M long delim last fuel in
      (
        s',
        rw (n, at_single l fuel brace (kind ne t) rb t a s' i, compared_early l rb t a s' e) refl,
        w',
      )

  group-Passed :
      (fuel : ℕ) (o : Token) (body : List Token) (c : Token) (rb : Option (Option ℕ))
      (a rest : List Token) (s : M.State)
      → brace ≡ false
      → IsGroup ne long o body c
      → M.Waits s (o ∷ body ++ c ∷ rest)
      → length body < fuel
      → Passed fuel (group o body c) rb a rest s
  unfolding delimited_loop delimited_at
  group-Passed fuel o body c rb a rest s b (ko, kc, i, al) w h =
      let (s', n, w') = need_next-Waits M s o (body ++ c ∷ rest) w in
      let (s'', g, w'') =
        group_into-Inside ne M long body fuel (a ++ o ∷ []) c rest s' i al kc w' h in
      let assoc : ((a ++ o ∷ []) ++ body) ++ c ∷ [] ≡ a ++ (o ∷ body ++ c ∷ []) =
        rw (append_assoc (a ++ o ∷ []) body (c ∷ []), append_assoc a (o ∷ []) (body ++ c ∷ []))
          refl in
      (s'', rw (n, b, ko, g, assoc) refl, w'')

  -- The loop is past the pieces, and `need` of its fuel is left.
  abbrev pub PassedAll :
      ℕ → ℕ → List Piece → Option (Option ℕ) → List Token → List Token → M.State → Type 0
  PassedAll need fuel ps rb a rest s =
      (left : ℕ) × (s' : M.State) × (need ≤ left)
      × (delimited_loop ne M long delim last fuel rb a s
          ≡ delimited_loop ne M long delim last left (noted_after rb a ps) (a ++ flatten ps) s')
      × M.Waits s' rest

  pub pieces-PassedAll :
      (need fuel : ℕ) (ps : List Piece) (rb : Option (Option ℕ)) (a rest : List Token) (s : M.State)
      → ArePieces ne long brace ps
      → Before delim a ps
      → M.Waits s (flatten ps ++ rest)
      → length (flatten ps) + need ≤ fuel
      → PassedAll need fuel ps rb a rest s
  pieces-PassedAll need fuel [] rb a rest s is early w h =
      (fuel, s, omega arith, rw (append-nil a) refl, w)
  pieces-PassedAll need zero (single t ∷ ps) rb a rest s is early w h = absurd (omega arith)
  pieces-PassedAll need (suc fuel) (single t ∷ ps) rb a rest s (i, is) (e, early) w h =
      let (s', eq, w') = single-Passed fuel t rb a (flatten ps ++ rest) s i e w in
      let (left, s'', le, eq', w'') =
        pieces-PassedAll need fuel ps rb (a ++ t ∷ []) rest s' is early w' (omega arith) in
      (left, s'', le, rw (eq, eq', append_assoc a (t ∷ []) (flatten ps)) refl, w'')
  pieces-PassedAll need zero (group o body c ∷ ps) rb a rest s is early w h = absurd (omega arith)
  pieces-PassedAll need (suc fuel) (group o body c ∷ ps) rb a rest s (i, is) early w h =
      let g = o ∷ body ++ c ∷ [] in
      let l1 = length-append body (c ∷ []) in
      let l2 = length-append (body ++ c ∷ []) (flatten ps) in
      let w0 : M.Waits s (o ∷ body ++ c ∷ (flatten ps ++ rest)) =
        (subst (λ ts. M.Waits s ts) (group_text o body c (flatten ps) rest) w) in
      let (s', eq, w') =
        group-Passed fuel o body c rb a (flatten ps ++ rest) s i.0 i.1 w0 (omega (arith, l1, l2)) in
      let (left, s'', le, eq', w'') =
        pieces-PassedAll need fuel ps (noted (a ++ g) (opened a rb)) (a ++ g) rest s' is early w'
          (omega (arith, l1, l2)) in
      (left, s'', le, rw (eq, eq', append_assoc a g (flatten ps)) refl, w'')
