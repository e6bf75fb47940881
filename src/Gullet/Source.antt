-- ===== src/Gullet/Source.antt =====
-- The mouth as the gullet uses it: the calls of `get_next` and `iterate`, `push_exp` and `requeue`, with
-- the laws that the gullet's proofs rely on, and `DefaultMouth` as one.
use rus_te_x.Prelude.{ℕ, suc, ◌+◌, Option, some, List, ◌∷◌, ◌++◌, ◌≡◌, refl, arith, length}
use rus_te_x.Tex.Tokens.{Token}
use rus_te_x.Mouth.Inputs
use rus_te_x.Mouth.Inputs.{TokenSource, SourceReference, DefaultMouth}
use rus_te_x.Mouth.Next as Reading
use rus_te_x.Mouth.Next.{Next, a_token, no_input, failed, Settings}
use rus_te_x.Mouth.Pending.{Holds, get_next-Gives, iterate_next-Gives}
use rus_te_x.Mouth.Queue.{push_exp-Holds, requeue-Holds}
use rus_te_x.Gullet.Result.{TeXError, Result, ok, err, lift, ◌>>=◌}

pub record Mouth : Type 1 where
  pub State : Type 0
  pub get_next : State → Option (Next × State)
  pub iterate_next : State → Option (Next × State)
  pub push_exp : List Token → State → State
  pub requeue : Token → State → State
  -- the tokens that are given next, before what lies below them
  pub Waits : State → List Token → Type 0
  pub get_next-Waits :
      (s : State) (t : Token) (ts : List Token)
      → Waits s (t ∷ ts)
      → (s' : State) × (get_next s ≡ some (a_token t, s')) × Waits s' ts
  pub iterate_next-Waits :
      (s : State) (t : Token) (ts : List Token)
      → Waits s (t ∷ ts)
      → (s' : State) × (iterate_next s ≡ some (a_token t, s')) × Waits s' ts
  pub push_exp-Waits :
      (xs : List Token) (s : State) (ts : List Token)
      → Waits s ts
      → Waits (push_exp xs s) (xs ++ ts)
  pub requeue-Waits :
      (t : Token) (s : State) (ts : List Token) → Waits s ts → Waits (requeue t s) (t ∷ ts)

-- Fuel grows with the number of sources; `fuel` is what tokenizers need beyond it.
abbrev enough : ℕ → DefaultMouth → ℕ
enough fuel m = suc (length m.inputs) + fuel

-- Sources `b` and source references `r` lie below the tokens.
abbrev pub default_mouth : Settings → ℕ → List TokenSource → List SourceReference → Mouth
default_mouth settings fuel b r = record {
  State = DefaultMouth;
  get_next = λ m. Reading.get_next settings (enough fuel m) m;
  iterate_next = λ m. Reading.iterate_next settings (enough fuel m) m;
  push_exp = Inputs.push_exp;
  requeue = Inputs.requeue;
  Waits = λ m ts. Holds m ts b r;
  get_next-Waits = λ m t ts h.
      (let g = get_next-Gives settings (enough fuel m) m h (omega arith) in
        (g.after, g.gives, g.holds));
  iterate_next-Waits = λ m t ts h.
      (let g = iterate_next-Gives settings (enough fuel m) m h (omega arith) in
        (g.after, g.gives, g.holds));
  push_exp-Waits = λ xs m ts h. push_exp-Holds xs m h;
  requeue-Waits = λ t m ts h. requeue-Holds t m h;
}

-- a token that must be there; without input the error is `e`
unfoldable pub needed : {S : Type 0} → TeXError → Next × S → Result (Token × S)
needed e (a_token t, s) = ok (t, s)
needed e (no_input, s) = err e
needed e (failed c, s) = err (TeXError.invalid_character c)

module _ (M : Mouth) where
  unfoldable pub need_next : M.State → Result (Token × M.State)
  unfolding needed
  need_next s = lift (M.get_next s) >>= needed TeXError.file_ended_while_scanning_use_of

  -- `e` is what the argument `eof` throws.
  unfoldable pub need_iterate : TeXError → M.State → Result (Token × M.State)
  unfolding needed
  need_iterate e s = lift (M.iterate_next s) >>= needed e

  pub need_next-Waits :
      (s : M.State) (t : Token) (ts : List Token)
      → M.Waits s (t ∷ ts)
      → (s' : M.State) × (need_next s ≡ ok (t, s')) × M.Waits s' ts
  unfolding need_next
  need_next-Waits s t ts h = let (s', e, w) = M.get_next-Waits s t ts h in (s', rw e refl, w)

  pub need_iterate-Waits :
      (e : TeXError) (s : M.State) (t : Token) (ts : List Token)
      → M.Waits s (t ∷ ts)
      → (s' : M.State) × (need_iterate e s ≡ ok (t, s')) × M.Waits s' ts
  unfolding need_iterate
  need_iterate-Waits e s t ts h =
      let (s', g, w) = M.iterate_next-Waits s t ts h in (s', rw g refl, w)
