-- ===== src/Mouth/Pending.antt =====
-- The mouth as a queue: the tokens that wait in token lists, and the sources below them.
use rus_te_x.Prelude.{
  ℕ, zero, suc, ◌≤◌, ◌<◌, Option, some, List, [], ◌∷◌, ◌++◌, ◌≡◌, refl, ap, ◌∙◌, arith,
  append_assoc, length,
}
use rus_te_x.Tex.Tokens.{Token}
use rus_te_x.Mouth.Inputs.{
  TokenSource, string, file, tokens, SourceReference, DefaultMouth, with_inputs, with_list,
  with_list_at, reuse,
}
use rus_te_x.Mouth.Next.{
  Next, a_token, no_input, Settings, next_from, loop_next, end_of_file, get_next, iterate_next,
}

unfoldable pub pending_in : List TokenSource → List Token
pending_in [] = []
pending_in (tokens v ∷ rest) = v ++ pending_in rest
pending_in (_ ∷ rest) = []

unfoldable pub below_in : List TokenSource → List TokenSource
below_in [] = []
below_in (tokens v ∷ rest) = below_in rest
below_in (s ∷ rest) = s ∷ rest

abbrev pub AllEmpty : List (List Token) → Type 0
AllEmpty [] = Unit {0}
AllEmpty (v ∷ vs) = (v ≡ []) × AllEmpty vs

-- The mouth `m` gives `waiting`, and then what the sources `below` give; the vectors to be reused are
-- empty.
pub record Holds (m : DefaultMouth) (waiting : List Token) (below : List TokenSource)
    (refs : List SourceReference) : Type 0 where
  pub waits : pending_in m.inputs ≡ waiting
  pub under : below_in m.inputs ≡ below
  pub located : m.start_ref ≡ refs
  pub pool : AllEmpty m.vecs

pub with_list-Holds :
    (f : List Token → List Token) (ts : List Token)
    → ((v : List Token) → f v ≡ ts ++ v)
    → (m : DefaultMouth) {w : List Token} {b : List TokenSource} {r : List SourceReference}
    → Holds m w b r
    → Holds (with_list f m) (ts ++ w) b r
unfolding with_list with_list_at reuse pending_in below_in
with_list-Holds f ts e m h =
    let k = go m.inputs m.vecs h.pool in
    record {
      waits = k.waits ∙ ap (λ l. ts ++ l) h.waits;
      under = k.under ∙ h.under;
      located = k.located ∙ h.located;
      pool = k.pool;
    }
  where
    fresh :
        (i : List TokenSource) (vs : List (List Token))
        → AllEmpty vs
        → Holds
            (reuse f vs (record { inputs = i; start_ref = m.start_ref; vecs = vs }))
            (ts ++ pending_in i)
            (below_in i)
            m.start_ref
    fresh i [] a = record {
      waits = rw (e []) (append_assoc ts [] (pending_in i));
      under = refl;
      located = refl;
      pool = a;
    }
    fresh i (v ∷ vs) a = record {
      waits = rw (a.0, e []) (append_assoc ts [] (pending_in i));
      under = refl;
      located = refl;
      pool = a.1;
    }

    go :
        (i : List TokenSource) (vs : List (List Token))
        → AllEmpty vs
        → Holds
            (with_list f (record { inputs = i; start_ref = m.start_ref; vecs = vs }))
            (ts ++ pending_in i)
            (below_in i)
            m.start_ref
    go [] vs a = fresh [] vs a
    go (string s ∷ rest) vs a = fresh (string s ∷ rest) vs a
    go (file s id ∷ rest) vs a = fresh (file s id ∷ rest) vs a
    go (tokens v ∷ rest) vs a = record {
      waits = rw (e v) (append_assoc ts v (pending_in rest));
      under = refl;
      located = refl;
      pool = a;
    }

pub length-with_list :
    (f : List Token → List Token) (m : DefaultMouth)
    → length (with_list f m).inputs ≤ suc (length m.inputs)
unfolding with_list with_list_at reuse
length-with_list f m = ground arith

-- a run that gives the token `t`, and leaves a mouth that holds what is said, with no more sources
pub record Gives (n : ℕ) (run : Option (Next × DefaultMouth)) (t : Token) (w : List Token)
    (b : List TokenSource) (r : List SourceReference) : Type 0 where
  pub after : DefaultMouth
  pub gives : run ≡ some (a_token t, after)
  pub holds : Holds after w b r
  pub sources : length after.inputs ≤ n

no_tokens : {t : Token} {w : List Token} → [] ≡ t ∷ w → ⊥
no_tokens e = cc

pub loop_next-Gives :
    (settings : Settings) (at_end : DefaultMouth → Option (Next × DefaultMouth)) (fuel : ℕ)
    (m : DefaultMouth) {t : Token} {w : List Token} {b : List TokenSource}
    {r : List SourceReference}
    → Holds m (t ∷ w) b r
    → length m.inputs < fuel
    → Gives (length m.inputs) (loop_next settings at_end fuel m) t w b r
unfolding loop_next next_from pending_in below_in
loop_next-Gives settings at_end zero m h l = absurd (omega arith)
loop_next-Gives settings at_end (suc fuel) m {t} {w} {b} {r} h l =
    go (λ m' h' l'. loop_next-Gives settings at_end fuel m' h' l') m.inputs refl
  where
    go :
        ((m' : DefaultMouth)
          → Holds m' (t ∷ w) b r
          → length m'.inputs < fuel
          → Gives (length m'.inputs) (loop_next settings at_end fuel m') t w b r)
        → (i : List TokenSource) → m.inputs ≡ i
        → Gives
            (length i)
            (next_from settings at_end (loop_next settings at_end fuel) fuel i m)
            t
            w
            b
            r
    go ih [] e = absurd (no_tokens (rw e at h.waits))
    go ih (string s ∷ rest) e = absurd (no_tokens (rw e at h.waits))
    go ih (file s id ∷ rest) e = absurd (no_tokens (rw e at h.waits))
    go ih (tokens [] ∷ rest) e =
        let g =
          ih (record m { inputs = rest; vecs = [] ∷ m.vecs })
            (record {
              waits = rw e at h.waits;
              under = rw e at h.under;
              located = h.located;
              pool = (refl, h.pool);
            })
            (omega (arith, ap length e)) in
        record {
          after = g.after;
          gives = g.gives;
          holds = g.holds;
          sources = omega (arith, g.sources);
        }
    go ih (tokens (u ∷ us) ∷ rest) e =
        let p : u ∷ us ++ pending_in rest ≡ t ∷ w = rw e at h.waits in
        record {
          after = with_inputs (tokens us ∷ rest) m;
          gives = cc p;
          holds = record {
            waits = cc p;
            under = rw e at h.under;
            located = h.located;
            pool = h.pool;
          };
          sources = omega arith;
        }

pub get_next-Gives :
    (settings : Settings) (fuel : ℕ) (m : DefaultMouth) {t : Token} {w : List Token}
    {b : List TokenSource} {r : List SourceReference}
    → Holds m (t ∷ w) b r
    → length m.inputs < fuel
    → Gives (length m.inputs) (get_next settings fuel m) t w b r
unfolding get_next
get_next-Gives settings fuel m h l = loop_next-Gives settings (end_of_file settings) fuel m h l

pub iterate_next-Gives :
    (settings : Settings) (fuel : ℕ) (m : DefaultMouth) {t : Token} {w : List Token}
    {b : List TokenSource} {r : List SourceReference}
    → Holds m (t ∷ w) b r
    → length m.inputs < fuel
    → Gives (length m.inputs) (iterate_next settings fuel m) t w b r
unfolding iterate_next
iterate_next-Gives settings fuel m h l =
    loop_next-Gives settings (λ m. some (no_input, m)) fuel m h l
