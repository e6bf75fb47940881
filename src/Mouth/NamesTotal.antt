-- ===== src/Mouth/NamesTotal.antt =====
-- The loops of Names: how they return, and what they leave to read.
use rus_te_x.Prelude.{
  ℕ, zero, suc, ◌+◌, ◌<◌, Option, none, some, List, [], ◌∷◌, ◌++◌, ◌≡◌, refl, arith, ◌>>=◌, inl,
  inr, Bool-cases, Option-cases,
}
use rus_te_x.Tex.Catcodes.{CategoryCode, CategoryCodeScheme}
use rus_te_x.Tex.Tokens.{control_sequence}
use rus_te_x.Mouth.Input.{skip_blank, mid_line, InputTokenizer, get_char, back, next_line}
use rus_te_x.Mouth.Superscript.{maybe_superscript}
use rus_te_x.Mouth.Names.{
  in_state, is_letter, cs_sup, cs_letter, cs_round, cs_go, cs_loop, get_cs_name, escape_sup,
  escape_at, check_escape, endline_name, escape_from, get_escape,
}
use rus_te_x.Mouth.Ahead.{ahead, at_col, notation, maybe_superscript-notation}
use rus_te_x.Mouth.Progress.{
  remaining, Within, Advance, Advance-trans, Advance-le, Advance-refl, Returns, Finds,
  nothing_found, found, maybe_superscript-Finds, line_end, a_char, char_cases, back-get_char,
  next_line-Moves, at_col-Advance, notation-le, Advance-in_state, in_state-Advance,
}

back-get_char-then :
    (t : InputTokenizer)
    → ◌>>=◌ {B = Option ℕ × InputTokenizer} (back 1 (at_col t (t.col + 1))) (λ u. some (none, u))
      ≡ some (none, t)
back-get_char-then t = rw (back-get_char t) refl

module _ (cc : CategoryCodeScheme) (endline : Option ℕ) where
  cs_sup-Finds :
      (c : ℕ) (t : InputTokenizer)
      → Advance 1 t (at_col t (t.col + 1))
      → Within t
      → Finds 1 t (do
        (r, t') ← maybe_superscript c (at_col t (t.col + 1))
        cs_sup cc endline r (at_col t (t.col + 1)) t')
  unfolding cs_sup
  cs_sup-Finds c t a w =
      let t1 = at_col t (t.col + 1) in
      let n = (notation c (ahead t1)).1 in
      let e = maybe_superscript-notation c t1 in
      elim (Option-cases (notation c (ahead t1)).0) [
        | inl e0 ↦ nothing_found t (rw (rw e0 at e, back-get_char t) refl) (Advance-refl w)
        | inr (d, e1) ↦
            let e' = rw e1 at e in
            let b =
              Advance-trans {j = 1} {k = n} a
                (at_col-Advance t1 n a.within (notation-le c (ahead t1))) in
            elim (Bool-cases (is_letter (cc d))) [
              | inr no_letter ↦
                  nothing_found t (rw (e', no_letter, back-get_char t) refl) (Advance-refl w)
              | inl a_letter ↦
                  found d (at_col t1 (t1.col + n)) (rw (e', a_letter) refl)
                    (Advance-le {j = 1} {k = 1 + n} (omega arith) b)
            ]
      ]

  cs_letter-Finds :
      (cat : CategoryCode) (c : ℕ) (t : InputTokenizer)
      → Advance 1 t (at_col t (t.col + 1))
      → Within t
      → Finds 1 t (cs_letter cc endline cat c (at_col t (t.col + 1)))
  unfolding cs_letter
  cs_letter-Finds CategoryCode.letter c t a w = found c (at_col t (t.col + 1)) refl a
  cs_letter-Finds CategoryCode.superscript c t a w = cs_sup-Finds c t a w
  cs_letter-Finds cat c t a w = nothing_found t (back-get_char-then t) (Advance-refl w)

  cs_round-Finds : (t : InputTokenizer) → Within t → Finds 1 t (cs_round cc endline (get_char t) t)
  unfolding cs_round
  cs_round-Finds t w = elim (char_cases t) [
    | line_end e ↦ nothing_found t (rw e refl) (Advance-refl w)
    | a_char c e a ↦ rw e (cs_letter-Finds (cc c) c t a w)
  ]

  pub cs_loop-Returns :
      (fuel : ℕ) (tempstr : List ℕ) (t : InputTokenizer)
      → Within t
      → remaining t < fuel
      → Returns 0 t (cs_loop cc endline fuel tempstr t)
  unfolding cs_loop cs_go
  cs_loop-Returns zero tempstr t w h = absurd (omega arith)
  cs_loop-Returns (suc fuel) tempstr t w h = elim (cs_round-Finds t w) [
    | nothing_found u e a ↦ record { value = tempstr; after = u; returns = rw e refl; advance = a }
    | found c u e a ↦
        let r = cs_loop-Returns fuel (tempstr ++ c ∷ []) u a.within (omega (arith, a.less)) in
        record {
          value = r.value;
          after = r.after;
          returns = rw e r.returns;
          advance =
              Advance-le {j = 0} {k = 1} (omega arith) (Advance-trans {j = 1} {k = 0} a r.advance);
        }
  ]

  escape_at-Returns :
      (rec : ℕ → InputTokenizer → Option (List ℕ × InputTokenizer)) (fuel : ℕ)
      → ((c : ℕ) (t : InputTokenizer) → Within t → remaining t + 1 < fuel → Returns 0 t (rec c t))
      → (cat : CategoryCode) (c : ℕ) (t : InputTokenizer) → Within t
      → remaining t + 1 < suc fuel
      → Returns 0 t (escape_at cc endline rec fuel cat c t)
  unfolding escape_at escape_sup get_cs_name remaining
  escape_at-Returns rec fuel ih CategoryCode.superscript c t w h =
      elim (maybe_superscript-Finds c t w) [
        | nothing_found u e a ↦ record {
          value = c ∷ [];
          after = in_state mid_line u;
          returns = rw e refl;
          advance = Advance-in_state mid_line a;
        }
        | found d u e a ↦
            let r = ih d u a.within (omega (arith, a.less)) in
            record {
              value = r.value;
              after = r.after;
              returns = rw e r.returns;
              advance =
                  Advance-le {j = 0} {k = 2} (omega arith)
                    (Advance-trans {j = 2} {k = 0} a r.advance);
            }
      ]
  escape_at-Returns rec fuel ih CategoryCode.letter c t w h =
      let r = cs_loop-Returns fuel (c ∷ []) (in_state skip_blank t) w (omega arith) in
      record {
        value = r.value;
        after = r.after;
        returns = r.returns;
        advance = in_state-Advance r.advance;
      }
  escape_at-Returns rec fuel ih cat c t w h = record {
    value = c ∷ [];
    after = in_state mid_line t;
    returns = refl;
    advance = Advance-in_state mid_line (Advance-refl w);
  }

  pub check_escape-Returns :
      (fuel c : ℕ) (t : InputTokenizer)
      → Within t
      → remaining t + 1 < fuel
      → Returns 0 t (check_escape cc endline fuel c t)
  unfolding check_escape
  check_escape-Returns zero c t w h = absurd (omega arith)
  check_escape-Returns (suc fuel) c t w h =
      escape_at-Returns (check_escape cc endline fuel) fuel (check_escape-Returns fuel) (cc c) c t w
        h

  pub get_escape-Returns :
      (fuel : ℕ) (t : InputTokenizer)
      → Within t
      → remaining t < fuel
      → Returns 0 t (get_escape cc endline fuel t)
  unfolding get_escape escape_from
  get_escape-Returns fuel t w h = elim (char_cases t) [
    | line_end ee ↦ record {
      value = control_sequence (endline_name endline);
      after = next_line t;
      returns = rw ee refl;
      advance = next_line-Moves t;
    }
    | a_char c ee a ↦
        let r =
          check_escape-Returns fuel c (at_col t (t.col + 1)) a.within (omega (arith, a.less)) in
        record {
          value = control_sequence r.value;
          after = r.after;
          returns = rw (ee, r.returns) refl;
          advance =
              Advance-le {j = 0} {k = 1} (omega arith) (Advance-trans {j = 1} {k = 0} a r.advance);
        }
  ]
