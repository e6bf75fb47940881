-- ===== src/Mouth/Total.antt =====
-- `get_next` of Tokenizer: how it returns, and what it leaves to read.
use rus_te_x.Prelude.{
  ℕ, zero, suc, ◌+◌, ◌<◌, Bool, true, false, Option, none, some, ◌≡◌, refl, arith, if◌then◌else◌,
  ◌>>=◌,
}
use rus_te_x.Tex.Catcodes.{CategoryCode, CommandCode, CategoryCodeScheme, to_command}
use rus_te_x.Tex.Tokens.{Token, character}
use rus_te_x.Mouth.Input.{
  MouthState, new_line, skip_blank, mid_line, InputTokenizer, next_line, do_par,
}
use rus_te_x.Mouth.Names.{in_state}
use rus_te_x.Mouth.Tokenizer.{
  Read, token, nothing, invalid, par, endline_token, end_line, return_endline, check_eol,
  check_space, check_sup, check_at, check_char, next_go, next_at, get_next,
}
use rus_te_x.Mouth.Ahead.{at_col}
use rus_te_x.Mouth.Progress.{
  remaining, Within, Advance, Advance-trans, Advance-le, Advance-refl, Returns, nothing_found,
  found, maybe_superscript-Finds, line_end, a_char, char_cases, next_line-Moves, next_line-Advance,
  do_par-Advance, Advance-in_state,
}
use rus_te_x.Mouth.NamesTotal.{get_escape-Returns}

abbrev stays : {A : Type 0} {v : A} {t : InputTokenizer} → Within t → Returns 0 t (some (v, t))
stays {v = v} {t = t} w = record { value = v; after = t; returns = refl; advance = Advance-refl w }

abbrev changes :
    {A : Type 0} {v : A} {t : InputTokenizer} (m : MouthState)
    → Within t
    → Returns 0 t (some (v, in_state m t))
changes {v = v} {t = t} m w = record {
  value = v;
  after = in_state m t;
  returns = refl;
  advance = Advance-in_state m (Advance-refl w);
}

endline_token-Returns :
    (cat : CategoryCode) (m : MouthState) (c : ℕ) (t : InputTokenizer)
    → Within t
    → Returns 0 t (endline_token cat m c t)
unfolding endline_token to_command
endline_token-Returns CategoryCode.space skip_blank c t w = stays w
endline_token-Returns CategoryCode.space new_line c t w = stays w
endline_token-Returns CategoryCode.space mid_line c t w = stays w
endline_token-Returns CategoryCode.eol skip_blank c t w = stays w
endline_token-Returns CategoryCode.eol new_line c t w = record {
  value = token par;
  after = do_par t;
  returns = refl;
  advance = do_par-Advance t w;
}
endline_token-Returns CategoryCode.eol mid_line c t w = stays w
endline_token-Returns cat m c t w = stays w

module _ (cc : CategoryCodeScheme) (endline : Option ℕ) where
  end_line-Returns :
      (e : Option ℕ) (t : InputTokenizer) → Within t → Returns 0 t (end_line cc endline e t)
  unfolding end_line
  end_line-Returns none t w = stays w
  end_line-Returns (some c) t w = endline_token-Returns (cc c) t.state c t w

  pub return_endline-Returns :
      {k : ℕ} (t : InputTokenizer)
      → Advance k t (next_line t)
      → Returns k t (return_endline cc endline t)
  unfolding return_endline
  return_endline-Returns {k} t a =
      let r = end_line-Returns endline (next_line t) a.within in
      record {
        value = r.value;
        after = in_state new_line r.after;
        returns = rw r.returns refl;
        advance = Advance-in_state new_line (
            Advance-le {j = k} {k = k + 0} (omega arith)
              (Advance-trans {j = k} {k = 0} a r.advance));
      }

  check_eol-Returns : (m : MouthState) (t : InputTokenizer) → Returns 0 t (check_eol cc endline m t)
  unfolding check_eol
  check_eol-Returns new_line t =
      let a = next_line-Moves t in
      record {
        value = token par;
        after = do_par (next_line t);
        returns = refl;
        advance = Advance-trans {j = 0} {k = 0} a (do_par-Advance (next_line t) a.within);
      }
  check_eol-Returns m t = return_endline-Returns t (next_line-Moves t)

  check_space-Returns :
      (m : MouthState) (t : InputTokenizer) → Within t → Returns 0 t (check_space cc endline m t)
  unfolding check_space
  check_space-Returns mid_line t w = changes skip_blank w
  check_space-Returns m t w = stays w

  check_at-Returns :
      (rec : ℕ → InputTokenizer → Option (Read × InputTokenizer)) (fuel : ℕ)
      → ((c : ℕ) (t : InputTokenizer) → Within t → remaining t + 1 < fuel → Returns 0 t (rec c t))
      → (cat : CategoryCode) (c : ℕ) (t : InputTokenizer) → Within t
      → remaining t < fuel
      → Returns 0 t (check_at cc endline rec fuel cat c t)
  unfolding check_at check_sup check_space remaining to_command
  check_at-Returns rec fuel ih CategoryCode.eol c t w h = check_eol-Returns t.state t
  check_at-Returns rec fuel ih CategoryCode.space c t w h = check_space-Returns t.state t w
  check_at-Returns rec fuel ih CategoryCode.ignored c t w h = stays w
  check_at-Returns rec fuel ih CategoryCode.comment c t w h = record {
    value = nothing;
    after = in_state new_line (next_line t);
    returns = refl;
    advance = Advance-in_state new_line (next_line-Moves t);
  }
  check_at-Returns rec fuel ih CategoryCode.invalid c t w h = stays w
  check_at-Returns rec fuel ih CategoryCode.escape c t w h =
      let r = get_escape-Returns cc endline fuel t w h in
      record {
        value = token r.value;
        after = r.after;
        returns = rw r.returns refl;
        advance = r.advance;
      }
  check_at-Returns rec fuel ih CategoryCode.superscript c t w h =
      elim (maybe_superscript-Finds c t w) [
        | nothing_found u e a ↦ record {
          value = token (character c CommandCode.superscript);
          after = in_state mid_line u;
          returns = rw e refl;
          advance = Advance-in_state mid_line a;
        }
        | found d u e a ↦
            let r = ih d u a.within (omega (arith, a.less)) in
            record {
              value = r.value;
              after = r.after;
              returns = rw e r.returns;
              advance =
                  Advance-le {j = 0} {k = 2} (omega arith)
                    (Advance-trans {j = 2} {k = 0} a r.advance);
            }
      ]
  check_at-Returns rec fuel ih cat c t w h = changes mid_line w

  check_char-Returns :
      (fuel c : ℕ) (t : InputTokenizer)
      → Within t
      → remaining t + 1 < fuel
      → Returns 0 t (check_char cc endline fuel c t)
  unfolding check_char
  check_char-Returns zero c t w h = absurd (omega arith)
  check_char-Returns (suc fuel) c t w h =
      check_at-Returns (check_char cc endline fuel) fuel (check_char-Returns fuel) (cc c) c t w
        (omega arith)

-- how `get_next` returns: with a token or an invalid character, or at the end of the file
pub data Reads (t : InputTokenizer) (m : Option (Read × InputTokenizer)) : Type 0 where
  a_token : (tk : Token) (u : InputTokenizer) → m ≡ some (token tk, u) → Advance 1 t u → Reads t m
  an_error : (c : ℕ) (u : InputTokenizer) → m ≡ some (invalid c, u) → Advance 1 t u → Reads t m
  file_end : (u : InputTokenizer) → m ≡ some (nothing, u) → u.eof ≡ true → Advance 0 t u → Reads t m

Advance-Reads :
    {t u : InputTokenizer} {m : Option (Read × InputTokenizer)}
    → Advance 1 t u
    → Reads u m
    → Reads t m
Advance-Reads a (a_token tk v e b) =
    a_token tk v e (Advance-le {j = 1} {k = 2} (omega arith) (Advance-trans {j = 1} {k = 1} a b))
Advance-Reads a (an_error c v e b) =
    an_error c v e (Advance-le {j = 1} {k = 2} (omega arith) (Advance-trans {j = 1} {k = 1} a b))
Advance-Reads a (file_end v e d b) =
    file_end v e d (Advance-le {j = 0} {k = 1} (omega arith) (Advance-trans {j = 1} {k = 0} a b))

at_line_end :
    (t : InputTokenizer)
    → Within t
    → (b : Bool) {m : Option (Read × InputTokenizer)} → t.eof ≡ b
    → (t.eof ≡ false → Reads t m)
    → Reads t (if b then some (nothing, t) else m)
at_line_end t w true e r = file_end t refl e (Advance-refl w)
at_line_end t w false e r = r e

module _ (cc : CategoryCodeScheme) (endline : Option ℕ) where
  next_go-Reads :
      (rec : InputTokenizer → Option (Read × InputTokenizer)) (r : Read) (t u : InputTokenizer)
      → Advance 1 t u
      → Reads u (rec u)
      → Reads t (next_go cc endline rec r u)
  unfolding next_go
  next_go-Reads rec (token tk) t u a ih = a_token tk u refl a
  next_go-Reads rec (invalid c) t u a ih = an_error c u refl a
  next_go-Reads rec nothing t u a ih = Advance-Reads a ih

  line_end-Reads :
      (fuel : ℕ) (t : InputTokenizer)
      → ((u : InputTokenizer)
          → Within u
          → remaining u + 1 < fuel
          → Reads u (get_next cc endline fuel u))
      → remaining t + 1 < suc fuel
      → t.eof ≡ false
      → Reads t (do
        (r, t') ← return_endline cc endline t
        next_go cc endline (get_next cc endline fuel) r t')
  line_end-Reads fuel t ih h more =
      let r = return_endline-Returns cc endline t (next_line-Advance t more) in
      rw r.returns (
        next_go-Reads (get_next cc endline fuel) r.value t r.after r.advance
          (ih r.after r.advance.within (omega (arith, r.advance.less))))

  -- With the column within the line, and fuel for two rounds more than characters and lines are
  -- left and, if it has not come, the end of the file, get_next returns without a panic: with a
  -- token or an invalid character and then less is left to read, or with nothing and then the file
  -- has ended. The column is within the line again, and the line number has grown by the lines
  -- taken from the source.
  pub get_next-Reads :
      (fuel : ℕ) (t : InputTokenizer)
      → Within t
      → remaining t + 1 < fuel
      → Reads t (get_next cc endline fuel t)
  unfolding get_next next_at
  get_next-Reads zero t w h = absurd (omega arith)
  get_next-Reads (suc fuel) t w h = elim (char_cases t) [
    | line_end e ↦ rw e (at_line_end t w t.eof refl (line_end-Reads fuel t (get_next-Reads fuel) h))
    | a_char c e a ↦
        let r =
          check_char-Returns cc endline fuel c (at_col t (t.col + 1)) a.within
            (omega (arith, a.less)) in
        let b = Advance-trans {j = 1} {k = 0} a r.advance in
        rw (e, r.returns)
          (next_go-Reads (get_next cc endline fuel) r.value t r.after b
            (get_next-Reads fuel r.after b.within (omega (arith, b.less))))
  ]
