-- ===== src/Mouth/Progress.antt =====
-- What a move of the tokenizer may do: stay within its line, count every line that it takes from the
-- source, and leave less to read.
use rus_te_x.Prelude.{
  ℕ, zero, suc, ◌+◌, ◌-◌, ◌≤◌, ◌<◌, false, Option, none, some, List, [], ◌∷◌, ◌≡◌, refl, ◌∙◌, subst,
  arith, if◌then◌else◌, length, get_elem?, drop, inl, inr, Option-cases,
}
use rus_te_x.Mouth.Input.{
  MouthState, InputTokenizer, get_char, back, next_line, do_par, next_line_from, do_par_at,
  skip_empty,
}
use rus_te_x.Mouth.Superscript.{maybe_superscript}
use rus_te_x.Mouth.Names.{in_state}
use rus_te_x.Mouth.Ahead.{ahead, at_col, notation, maybe_superscript-notation}

abbrev pub total : List (List ℕ) → ℕ
total [] = 0
total (l ∷ ls) = suc (length l) + total ls

-- what is left to read: characters, lines, and the end of the file
unfoldable pub remaining : InputTokenizer → ℕ
remaining t = length t.current_line - t.col + total t.source + (if t.eof then 0 else 1)

-- The column is within the line.
abbrev pub Within : InputTokenizer → Type 0
Within t = t.col ≤ length t.current_line

-- From `t` to `u` at least `k` of what was left to read has been read.
pub record Advance (k : ℕ) (t u : InputTokenizer) : Type 0 where
  pub within : Within u
  pub lines : u.line + length u.source ≡ t.line + length t.source
  pub less : remaining u + k ≤ remaining t

pub Advance-trans :
    {j k : ℕ} {t u v : InputTokenizer} → Advance j t u → Advance k u v → Advance (j + k) t v
Advance-trans a b = record { within = b.within; lines = b.lines ∙ a.lines; less = omega arith }

pub Advance-le : {j k : ℕ} {t u : InputTokenizer} → j ≤ k → Advance k t u → Advance j t u
Advance-le h a = record { within = a.within; lines = a.lines; less = omega arith }

pub Advance-refl : {t : InputTokenizer} → Within t → Advance 0 t t
Advance-refl h = record { within = h; lines = refl; less = omega arith }

pub Advance-in_state :
    {k : ℕ} {t u : InputTokenizer} (m : MouthState) → Advance k t u → Advance k t (in_state m u)
unfolding remaining
Advance-in_state m a = record { within = a.within; lines = a.lines; less = a.less }

pub in_state-Advance :
    {k : ℕ} {t u : InputTokenizer} {m : MouthState} → Advance k (in_state m t) u → Advance k t u
unfolding remaining
in_state-Advance a = record { within = a.within; lines = a.lines; less = a.less }

-- the result of an operation that neither panics nor runs out of fuel
pub record Returns {A : Type 0} (k : ℕ) (t : InputTokenizer) (m : Option (A × InputTokenizer))
    : Type 0 where
  pub value : A
  pub after : InputTokenizer
  pub returns : m ≡ some (value, after)
  pub advance : Advance k t after

get_elem?-lt : (xs : List ℕ) (i : ℕ) {c : ℕ} → get_elem? xs i ≡ some c → i < length xs
get_elem?-lt [] i h = cc
get_elem?-lt (x ∷ xs) zero h = omega arith
get_elem?-lt (x ∷ xs) (suc i) h = omega (arith, get_elem?-lt xs i h)

pub get_char-Advance :
    (t : InputTokenizer) {c : ℕ} {u : InputTokenizer} → get_char t ≡ some (c, u) → Advance 1 t u
unfolding get_char remaining
get_char-Advance t {c} {u} h = elim (Option-cases (get_elem? t.current_line t.col)) [
  | inl e ↦ cc (rw (e, get_char) at h)
  | inr (d, e) ↦
      let eq : record t { col = t.col + 1 } ≡ u = cc (rw (e, get_char) at h) in
      let lt = get_elem?-lt t.current_line t.col e in
      subst (λ v. Advance 1 t v) eq
        (record { within = omega (arith, lt); lines = refl; less = omega (arith, lt) })
]

pub next_line-Advance : (t : InputTokenizer) → t.eof ≡ false → Advance 1 t (next_line t)
unfolding next_line next_line_from remaining
next_line-Advance t e = go t.source refl
  where
    go : (ls : List (List ℕ)) → t.source ≡ ls → Advance 1 t (next_line_from ls t)
    go [] s = record { within = omega arith; lines = refl; less = ground (arith, s, e) }
    go (l ∷ ls) s = record {
      within = omega arith;
      lines = ground (arith, s);
      less = ground (arith, s, e);
    }

pub next_line-Moves : (t : InputTokenizer) → Advance 0 t (next_line t)
unfolding next_line next_line_from remaining
next_line-Moves t = go t.source refl
  where
    go : (ls : List (List ℕ)) → t.source ≡ ls → Advance 0 t (next_line_from ls t)
    go [] s = record { within = omega arith; lines = refl; less = ground (arith, s) }
    go (l ∷ ls) s = record {
      within = omega arith;
      lines = ground (arith, s);
      less = ground (arith, s);
    }

abbrev with_source : List (List ℕ) → InputTokenizer → InputTokenizer
with_source ls t = record t { source = ls }

skip_empty-Advance :
    (ls : List (List ℕ)) (t : InputTokenizer)
    → t.current_line ≡ []
    → Within t
    → Advance 0 (with_source ls t) (skip_empty ls t)
unfolding skip_empty remaining
skip_empty-Advance [] t e w = Advance-refl w
skip_empty-Advance ([] ∷ ls) t e w =
    Advance-trans {j = 0} {k = 0} {t = with_source ([] ∷ ls) t}
      {u = with_source ls (record t { line = t.line + 1 })}
      (record { within = w; lines = omega arith; less = omega arith })
      (skip_empty-Advance ls (record t { line = t.line + 1 }) e w)
skip_empty-Advance ((c ∷ cs) ∷ ls) t e w = record {
  within = ground (arith, e);
  lines = omega arith;
  less = omega arith;
}

pub do_par-Advance : (t : InputTokenizer) → Within t → Advance 0 t (do_par t)
unfolding do_par do_par_at
do_par-Advance t w = go t.current_line refl
  where
    go : (l : List ℕ) → t.current_line ≡ l → Advance 0 t (do_par_at l t)
    go [] e = skip_empty-Advance t.source t e w
    go (c ∷ cs) e = Advance-refl w

pub notation-le : (sup : ℕ) (cs : List ℕ) → (notation sup cs).1 ≤ length cs
unfolding notation
notation-le sup [] = ground arith
notation-le sup (c ∷ []) = ground arith
notation-le sup (c ∷ x ∷ []) = ground arith
notation-le sup (c ∷ x ∷ y ∷ cs) = ground arith

notation-some :
    (sup : ℕ) (cs : List ℕ) {c : ℕ} → (notation sup cs).0 ≡ some c → 2 ≤ (notation sup cs).1
unfolding notation
notation-some sup [] h = ground arith
notation-some sup (c ∷ []) h = ground arith
notation-some sup (c ∷ x ∷ []) h = ground arith
notation-some sup (c ∷ x ∷ y ∷ cs) h = ground arith

length-drop : (n : ℕ) (xs : List ℕ) → length (drop n xs) ≡ length xs - n
length-drop zero xs = omega arith
length-drop (suc n) [] = omega arith
length-drop (suc n) (x ∷ xs) = omega (arith, length-drop n xs)

pub at_col-Advance :
    (t : InputTokenizer) (n : ℕ)
    → Within t
    → n ≤ length (ahead t)
    → Advance n t (at_col t (t.col + n))
unfolding remaining
at_col-Advance t n w h = record {
  within = omega (arith, length-drop t.col t.current_line);
  lines = refl;
  less = omega (arith, length-drop t.col t.current_line);
}

-- A step that may find something: it finds nothing and reads nothing back to front, or it finds a
-- character and reads `k` at least.
pub data Finds (k : ℕ) (t : InputTokenizer) (m : Option (Option ℕ × InputTokenizer)) : Type 0 where
  nothing_found : (u : InputTokenizer) → m ≡ some (none, u) → Advance 0 t u → Finds k t m
  found : (c : ℕ) (u : InputTokenizer) → m ≡ some (some c, u) → Advance k t u → Finds k t m

pub maybe_superscript-Finds :
    (sup : ℕ) (t : InputTokenizer) → Within t → Finds 2 t (maybe_superscript sup t)
maybe_superscript-Finds sup t w =
    let n = (notation sup (ahead t)).1 in
    let a = at_col-Advance t n w (notation-le sup (ahead t)) in
    let e = maybe_superscript-notation sup t in
    elim (Option-cases (notation sup (ahead t)).0) [
      | inl e0 ↦
          nothing_found (at_col t (t.col + n)) (rw e0 at e)
            (Advance-le {j = 0} {k = n} (omega arith) a)
      | inr (c, e1) ↦
          found c (at_col t (t.col + n)) (rw e1 at e)
            (Advance-le {j = 2} {k = n} (notation-some sup (ahead t) e1) a)
    ]

-- the two outcomes of `get_char`
pub data CharCases (t : InputTokenizer) : Type 0 where
  line_end : get_char t ≡ none → CharCases t
  a_char :
      (c : ℕ)
      → get_char t ≡ some (c, at_col t (t.col + 1))
      → Advance 1 t (at_col t (t.col + 1))
      → CharCases t

pub char_cases : (t : InputTokenizer) → CharCases t
unfolding get_char
char_cases t = elim (Option-cases (get_elem? t.current_line t.col)) [
  | inl e ↦ line_end (rw (e, get_char) refl)
  | inr (d, e) ↦
      let h : get_char t ≡ some (d, at_col t (t.col + 1)) = rw (e, get_char) refl in
      a_char d h (get_char-Advance t h)
]

pub back-get_char : (t : InputTokenizer) → back 1 (at_col t (t.col + 1)) ≡ some t
unfolding back
back-get_char t = ground arith
