-- ===== src/Gullet/Keywords.antt =====
-- engine/gullet/methods.rs: `read_keyword`, outside alignments.
use rus_te_x.Prelude.{
  ℕ, zero, suc, ◌+◌, Bool, true, false, ◌&&◌, Option, none, some, List, [], ◌∷◌, ◌++◌, length, ltb,
  leb, ◌==◌, if◌then◌else◌,
}
use rus_te_x.Tex.Catcodes.{CommandCode}
use rus_te_x.Tex.Tokens.{Token}
use rus_te_x.Gullet.Result.{Result, ok, panic, ◌>>=◌}
use rus_te_x.Gullet.Integers.{Resolved, tk, Expansion}

-- `to_ascii_lowercase`
unfoldable pub lower : ℕ → ℕ
lower c = if leb 65 c && leb c 90 then c + 32 else c

-- `kw.starts_with(&ret)`
unfoldable pub is_prefix : List ℕ → List ℕ → Bool
is_prefix [] kw = true
is_prefix (c ∷ cs) [] = false
is_prefix (c ∷ cs) (k ∷ kw) = c == k && is_prefix cs kw

-- the capacity of the vectors; beyond it a push panics
abbrev pub capacity : ℕ
capacity = 20

module _ (E : Expansion) (kw : List ℕ) where
  -- `for t in read.into_iter().rev() {engine.requeue(t)?}`
  unfoldable pub put_back : List Token → E.State → E.State
  put_back [] s = s
  put_back (t ∷ ts) s = E.requeue t (put_back ts s)

  unfoldable pub keyword_char :
      (List ℕ → List Token → E.State → Result (Bool × E.State))
      → List ℕ
      → List Token
      → ℕ
      → Token
      → E.State
      → Result (Bool × E.State)
  unfolding lower is_prefix put_back
  keyword_char rec ret read c t s =
      if ltb (length ret) capacity
      then (if is_prefix (ret ++ lower c ∷ []) kw
          then (if length kw == length (ret ++ lower c ∷ [])
              then ok (true, s)
              else rec (ret ++ lower c ∷ []) (read ++ t ∷ []) s)
          else ok (false, put_back (read ++ t ∷ []) s))
      else panic

  unfoldable pub keyword_at :
      (List ℕ → List Token → E.State → Result (Bool × E.State))
      → List ℕ
      → List Token
      → Token
      → Resolved
      → E.State
      → Result (Bool × E.State)
  unfolding keyword_char
  keyword_at rec [] read t (tk c CommandCode.space) s = rec [] read s
  keyword_at rec ret read t (tk c code) s = keyword_char rec ret read c t s
  keyword_at rec ret read t r s =
      if ltb (length read) capacity then ok (false, put_back (read ++ t ∷ []) s) else panic

  -- behind the loop
  unfoldable pub keyword_end : List ℕ → List Token → E.State → Result (Bool × E.State)
  unfolding is_prefix put_back
  keyword_end ret read s =
      if length kw == length ret && is_prefix ret kw
      then ok (true, s)
      else ok (false, put_back read s)

  unfoldable pub keyword_go :
      (List ℕ → List Token → E.State → Result (Bool × E.State))
      → List ℕ
      → List Token
      → Option (Token × Resolved) × E.State
      → Result (Bool × E.State)
  unfolding keyword_at keyword_end
  keyword_go rec ret read (none, s) = keyword_end ret read s
  keyword_go rec ret read (some (t, r), s) = keyword_at rec ret read t r s

  unfoldable pub keyword_loop : ℕ → List ℕ → List Token → E.State → Result (Bool × E.State)
  unfolding keyword_go
  keyword_loop zero ret read s = panic
  keyword_loop (suc fuel) ret read s = E.next s >>= keyword_go (keyword_loop fuel) ret read

  -- `first` is a character that the caller has read.
  unfoldable pub read_keyword : ℕ → Option (ℕ × Token) → E.State → Result (Bool × E.State)
  unfolding keyword_loop lower
  read_keyword fuel none s = keyword_loop fuel [] [] s
  read_keyword fuel (some (b, t)) s = keyword_loop fuel (lower b ∷ []) (t ∷ []) s
