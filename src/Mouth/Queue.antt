-- ===== src/Mouth/Queue.antt =====
-- Reading from the mouth what has been pushed into it, and the ends of files.
use rus_te_x.Prelude.{
  ℕ, zero, suc, ◌+◌, ◌<◌, Option, none, some, List, [], ◌∷◌, ◌++◌, ◌≡◌, refl, arith, ◌>>=◌, length,
}
use rus_te_x.Tex.Tokens.{Token}
use rus_te_x.Mouth.Inputs.{
  TokenSource, string, file, tokens, SourceReference, DefaultMouth, with_inputs, with_list, requeue,
  push_exp, with_list_at, reuse, eof_token, close_source, pop_token, every_eof, end_file,
}
use rus_te_x.Mouth.Next.{Next, a_token, Settings, get_next}
use rus_te_x.Mouth.Pending.{
  pending_in, below_in, AllEmpty, Holds, with_list-Holds, length-with_list, get_next-Gives,
}

pub push_exp-Holds :
    (ts : List Token) (m : DefaultMouth) {w : List Token} {b : List TokenSource}
    {r : List SourceReference}
    → Holds m w b r
    → Holds (push_exp ts m) (ts ++ w) b r
unfolding push_exp
push_exp-Holds ts m h = with_list-Holds (λ v. ts ++ v) ts (λ v. refl) m h

pub requeue-Holds :
    (t : Token) (m : DefaultMouth) {w : List Token} {b : List TokenSource}
    {r : List SourceReference}
    → Holds m w b r
    → Holds (requeue t m) (t ∷ w) b r
unfolding requeue
requeue-Holds t m h = with_list-Holds (λ v. t ∷ v) (t ∷ []) (λ v. refl) m h

-- the token that was read, before the others
then_read :
    (DefaultMouth → Option (List Token × DefaultMouth))
    → Next
    → DefaultMouth
    → Option (List Token × DefaultMouth)
then_read rec (a_token t) m = do (ts, m') ← rec m; some (t ∷ ts, m')
then_read rec _ m = none

-- `n` tokens read one after the other
unfoldable pub read_tokens : Settings → ℕ → ℕ → DefaultMouth → Option (List Token × DefaultMouth)
unfolding then_read
read_tokens settings fuel zero m = some ([], m)
read_tokens settings fuel (suc n) m = do
  (t, m') ← get_next settings fuel m
  then_read (read_tokens settings fuel n) t m'

pub record GivesAll (run : Option (List Token × DefaultMouth)) (ts w : List Token)
    (b : List TokenSource) (r : List SourceReference) : Type 0 where
  pub after : DefaultMouth
  pub gives : run ≡ some (ts, after)
  pub holds : Holds after w b r

read_tokens-GivesAll :
    (settings : Settings) (fuel : ℕ) (ts : List Token) (m : DefaultMouth) {w : List Token}
    {b : List TokenSource} {r : List SourceReference}
    → Holds m (ts ++ w) b r
    → length m.inputs < fuel
    → GivesAll (read_tokens settings fuel (length ts) m) ts w b r
unfolding read_tokens
read_tokens-GivesAll settings fuel [] m h l = record { after = m; gives = refl; holds = h }
read_tokens-GivesAll settings fuel (t ∷ ts) m h l =
    let g = get_next-Gives settings fuel m h l in
    let rest = read_tokens-GivesAll settings fuel ts g.after g.holds (omega (arith, g.sources)) in
    record { after = rest.after; gives = rw (g.gives, rest.gives) refl; holds = rest.holds }

-- In a mouth that holds the tokens w above the sources b, with empty vectors for reuse, and with
-- more fuel than sources and one: after push_exp ts, as many reads as ts is long give ts in order
-- without a panic, and then the mouth holds w above b and its source references again.
pub read_tokens-push_exp :
    (settings : Settings) (fuel : ℕ) (ts : List Token) (m : DefaultMouth) {w : List Token}
    {b : List TokenSource} {r : List SourceReference}
    → Holds m w b r
    → length m.inputs + 1 < fuel
    → GivesAll (read_tokens settings fuel (length ts) (push_exp ts m)) ts w b r
unfolding push_exp
read_tokens-push_exp settings fuel ts m h l =
    read_tokens-GivesAll settings fuel ts (push_exp ts m) (push_exp-Holds ts m h)
      (omega (arith, length-with_list (λ v. ts ++ v) m))

-- the end of a file: the token that is returned, and what the mouth holds then
pub record EndsFile (run : Option (Token × DefaultMouth)) (ts : List Token) (b : List TokenSource)
    (r : List SourceReference) : Type 0 where
  pub first : Token
  pub after : DefaultMouth
  pub waiting : List Token
  pub ends : run ≡ some (first, after)
  pub in_order : first ∷ waiting ≡ ts
  pub holds : Holds after waiting b r

-- The last source is a list that begins with `t`.
record BeginsWith (t : Token) (i : List TokenSource) : Type 0 where
  us : List Token
  rest : List TokenSource
  shape : i ≡ tokens (t ∷ us) ∷ rest

push_exp-BeginsWith :
    (t : Token) (ts : List Token) (m : DefaultMouth) → BeginsWith t (push_exp (t ∷ ts) m).inputs
unfolding push_exp with_list with_list_at reuse
push_exp-BeginsWith t ts m = go m.inputs m.vecs
  where
    go :
        (i : List TokenSource) (vs : List (List Token))
        → BeginsWith t
            (with_list_at (λ v. t ∷ ts ++ v) i (record m { inputs = i; vecs = vs })).inputs
    go (tokens v ∷ rest) vs = record { us = ts ++ v; rest = rest; shape = refl }
    go [] [] = record { us = ts ++ []; rest = []; shape = refl }
    go [] (v ∷ vs) = record { us = ts ++ v; rest = []; shape = refl }
    go (s ∷ rest) [] = record { us = ts ++ []; rest = s ∷ rest; shape = refl }
    go (s ∷ rest) (v ∷ vs) = record { us = ts ++ v; rest = s ∷ rest; shape = refl }

pop_token-EndsFile :
    (t : Token) (m : DefaultMouth) {w : List Token} {b : List TokenSource}
    {r : List SourceReference}
    → BeginsWith t m.inputs
    → Holds m (t ∷ w) b r
    → EndsFile (pop_token m.inputs m) (t ∷ w) b r
unfolding pop_token pending_in below_in
pop_token-EndsFile t m {w} s h =
    let p : t ∷ s.us ++ pending_in s.rest ≡ t ∷ w = rw s.shape at h.waits in
    record {
      first = t;
      after = with_inputs (tokens s.us ∷ s.rest) m;
      waiting = w;
      ends = rw s.shape refl;
      in_order = refl;
      holds = record {
        waits = cc p;
        under = rw s.shape at h.under;
        located = h.located;
        pool = h.pool;
      };
    }

every_eof-EndsFile :
    (everyeof : List Token) (m : DefaultMouth) {w : List Token} {b : List TokenSource}
    {r : List SourceReference}
    → Holds m w b r
    → EndsFile (every_eof everyeof m) (everyeof ++ eof_token ∷ w) b r
unfolding every_eof
every_eof-EndsFile [] m {w} h = record {
  first = eof_token;
  after = m;
  waiting = w;
  ends = refl;
  in_order = refl;
  holds = h;
}
every_eof-EndsFile (t ∷ ts) m h =
    let m1 = requeue eof_token m in
    pop_token-EndsFile t (push_exp (t ∷ ts) m1) (push_exp-BeginsWith t ts m1)
      (push_exp-Holds (t ∷ ts) m1 (requeue-Holds eof_token m h))

-- the source references when `source` ends are `before`, and when it has ended they are `refs`: a
-- file has the last one, a string has none, and a list of tokens does not end this way
abbrev pub Leaves : TokenSource → List SourceReference → List SourceReference → Type 0
Leaves (file f id) before refs = (x : SourceReference) × (before ≡ x ∷ refs)
Leaves (string s) before refs = before ≡ refs
Leaves (tokens v) before refs = ⊥

-- what the mouth holds when its last source has been closed
record Closes (m : DefaultMouth) (w : List Token) (b : List TokenSource) (r : List SourceReference)
    : Type 0 where
  after : DefaultMouth
  closes : close_source m.inputs m ≡ some after
  holds : Holds after w b r

close_source-Closes :
    (m : DefaultMouth) (source : TokenSource) (rest : List TokenSource) (r : List SourceReference)
    → m.inputs ≡ source ∷ rest
    → Leaves source m.start_ref r
    → AllEmpty m.vecs
    → Closes m (pending_in rest) (below_in rest) r
unfolding close_source
close_source-Closes m (file f id) rest r e (x, g) p = record {
  after = record m { inputs = rest; start_ref = r };
  closes = rw (e, g) refl;
  holds = record { waits = refl; under = refl; located = refl; pool = p };
}
close_source-Closes m (string s) rest r e g p = record {
  after = with_inputs rest m;
  closes = rw e refl;
  holds = record { waits = refl; under = refl; located = g; pool = p };
}
close_source-Closes m (tokens v) rest r e g p = absurd g

-- Where the last source is a string, or a file with a source reference, and the vectors for reuse
-- are empty: end_file does not panic; the token that it returns and the tokens that wait then are
-- those of \everyeof, the token for the end of a file, and those that waited below that source;
-- below them are the same sources as before; and the last source reference has gone with a file,
-- while a string leaves them all.
pub end_file-EndsFile :
    (everyeof : List Token) (m : DefaultMouth) (source : TokenSource) (rest : List TokenSource)
    (refs : List SourceReference)
    → m.inputs ≡ source ∷ rest
    → Leaves source m.start_ref refs
    → AllEmpty m.vecs
    → EndsFile (end_file everyeof m) (everyeof ++ eof_token ∷ pending_in rest) (below_in rest) refs
unfolding end_file
end_file-EndsFile everyeof m source rest refs e g p =
    let c = close_source-Closes m source rest refs e g p in
    let x = every_eof-EndsFile everyeof c.after c.holds in
    record {
      first = x.first;
      after = x.after;
      waiting = x.waiting;
      ends = rw c.closes x.ends;
      in_order = x.in_order;
      holds = x.holds;
    }
