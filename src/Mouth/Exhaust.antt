-- ===== src/Mouth/Exhaust.antt =====
-- Calls of `get_next` of engine/mouth/strings.rs one after the other, as the mouth makes them.
use rus_te_x.Prelude.{ℕ, zero, suc, ◌+◌, ◌≤◌, ◌<◌, true, Option, some, ◌≡◌, arith}
use rus_te_x.Tex.Catcodes.{CategoryCodeScheme}
use rus_te_x.Mouth.Input.{InputTokenizer}
use rus_te_x.Mouth.Tokenizer.{Read, nothing, token, invalid, get_next}
use rus_te_x.Mouth.Progress.{remaining, Within}
use rus_te_x.Mouth.Total.{Reads, a_token, an_error, file_end, get_next-Reads}

-- Each call may have another scheme of category codes and another \endlinechar, since commands change
-- them between the calls.
module _ (schemes : ℕ → CategoryCodeScheme) (endlines : ℕ → Option ℕ) where
  -- the call with number `i`
  abbrev pub nth_call : ℕ → ℕ → InputTokenizer → Option (Read × InputTokenizer)
  nth_call i fuel t = get_next (schemes i) (endlines i) fuel t

  -- Some call from number `i` on, with at most `k` before it that give tokens or invalid characters,
  -- finds the end of the file.
  pub data Ends (fuel : ℕ) : ℕ → ℕ → InputTokenizer → Type 0 where
    at_end :
        {i k : ℕ} {t : InputTokenizer} (u : InputTokenizer)
        → nth_call i fuel t ≡ some (nothing, u)
        → u.eof ≡ true
        → Ends fuel i k t
    one_call :
        {i k : ℕ} {t : InputTokenizer} (r : Read) (u : InputTokenizer)
        → nth_call i fuel t ≡ some (r, u)
        → remaining u < remaining t
        → Ends fuel (suc i) k u
        → Ends fuel i (suc k) t

  last_call :
      (i fuel : ℕ) (t : InputTokenizer)
      → remaining t ≤ 0
      → Reads t (nth_call i fuel t)
      → Ends fuel i 0 t
  last_call i fuel t h (file_end u e d a) = at_end u e d
  last_call i fuel t h (a_token tk u e a) = absurd (omega (arith, a.less))
  last_call i fuel t h (an_error c u e a) = absurd (omega (arith, a.less))

  first_call :
      (k i fuel : ℕ) (t : InputTokenizer)
      → ((u : InputTokenizer) → Within u → remaining u < remaining t → Ends fuel (suc i) k u)
      → Reads t (nth_call i fuel t)
      → Ends fuel i (suc k) t
  first_call k i fuel t rest (file_end u e d a) = at_end u e d
  first_call k i fuel t rest (a_token tk u e a) =
      let less : remaining u < remaining t = omega (arith, a.less) in
      one_call (token tk) u e less (rest u a.within less)
  first_call k i fuel t rest (an_error c u e a) =
      let less : remaining u < remaining t = omega (arith, a.less) in
      one_call (invalid c) u e less (rest u a.within less)

  bounded_calls :
      (k i fuel : ℕ) (t : InputTokenizer)
      → Within t
      → remaining t ≤ k
      → remaining t + 1 < fuel
      → Ends fuel i k t
  bounded_calls zero i fuel t w h f =
      last_call i fuel t h (get_next-Reads (schemes i) (endlines i) fuel t w f)
  bounded_calls (suc k) i fuel t w h f =
      first_call k i fuel t
        (λ u within less. bounded_calls k (suc i) fuel u within (omega arith) (omega arith))
        (get_next-Reads (schemes i) (endlines i) fuel t w f)

  -- With the column within the line, and fuel for two rounds more than characters and lines are
  -- left and, if it has not come, the end of the file, calls of get_next one after the other find
  -- the end of the file after at most as many tokens and invalid characters as are left, whatever
  -- category codes and end-of-line character each call is given.
  pub get_next-Ends :
      (fuel : ℕ) (t : InputTokenizer)
      → Within t
      → remaining t + 1 < fuel
      → Ends fuel 0 (remaining t) t
  get_next-Ends fuel t w f = bounded_calls (remaining t) 0 fuel t w (omega arith) f
