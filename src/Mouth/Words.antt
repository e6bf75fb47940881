-- ===== src/Mouth/Words.antt =====
-- Control words over plain characters: which letters `get_cs_name` takes.
use rus_te_x.Prelude.{
  ℕ, zero, suc, ◌+◌, ◌<◌, Bool, true, false, Option, none, some, List, [], ◌∷◌, ◌++◌, ◌≡◌, refl,
  sym, ap, arith, if◌then◌else◌, length, inl, inr, Bool-cases,
}
use rus_te_x.Tex.Catcodes.{CategoryCode, CategoryCodeScheme}
use rus_te_x.Mouth.Input.{skip_blank, InputTokenizer}
use rus_te_x.Mouth.Names.{in_state, is_letter, cs_letter, cs_round, cs_go, cs_loop, get_cs_name}
use rus_te_x.Mouth.Ahead.{ahead, at_col, get_char-nil, get_char-cons, ahead-cons}
use rus_te_x.Mouth.Progress.{back-get_char}

abbrev is_superscript : CategoryCode → Bool
is_superscript CategoryCode.superscript = true
is_superscript _ = false

-- no character of the text can begin `^^` notation
unfoldable pub plain : CategoryCodeScheme → List ℕ → Bool
plain codes [] = true
plain codes (c ∷ cs) = if is_superscript (codes c) then false else plain codes cs

-- the longest run of letters at the start of a text
unfoldable pub letters : CategoryCodeScheme → List ℕ → List ℕ
letters codes [] = []
letters codes (c ∷ cs) = let rest = letters codes cs in if is_letter (codes c) then c ∷ rest else []

append_nil : (xs : List ℕ) → xs ++ [] ≡ xs
append_nil [] = refl
append_nil (x ∷ xs) = ap (λ l. x ∷ l) (append_nil xs)

append_cons : (xs : List ℕ) (y : ℕ) (ys : List ℕ) → (xs ++ y ∷ []) ++ ys ≡ xs ++ y ∷ ys
append_cons [] y ys = refl
append_cons (x ∷ xs) y ys = ap (λ l. x ∷ l) (append_cons xs y ys)

same_end :
    {xs ys : List ℕ} {m n : ℕ} (t : InputTokenizer)
    → xs ≡ ys
    → m ≡ n
    → ◌≡◌ {A = Option (List ℕ × InputTokenizer)} (some (xs, at_col t m)) (some (ys, at_col t n))
same_end t p q = rw (p, q) refl

module _ (codes : CategoryCodeScheme) (endline : Option ℕ) where
  cs_letter-plain :
      (cat : CategoryCode) (c : ℕ) (t : InputTokenizer)
      → is_superscript cat ≡ false
      → cs_letter codes endline cat c (at_col t (t.col + 1))
        ≡ (if is_letter cat then some (some c, at_col t (t.col + 1)) else some (none, t))
  unfolding cs_letter
  cs_letter-plain CategoryCode.superscript c t h = cc
  cs_letter-plain CategoryCode.letter c t h = refl
  cs_letter-plain cat c t h = rw (back-get_char t) refl

  cs_loop-letters :
      (fuel : ℕ) (tempstr : List ℕ) (t : InputTokenizer) (cs : List ℕ)
      → ahead t ≡ cs
      → plain codes cs ≡ true
      → length cs < fuel
      → cs_loop codes endline fuel tempstr t
        ≡ some (tempstr ++ letters codes cs, at_col t (t.col + length (letters codes cs)))
  unfolding cs_loop cs_round cs_go plain letters
  cs_loop-letters zero tempstr t cs a p h = absurd (omega arith)
  cs_loop-letters (suc fuel) tempstr t [] a p h =
      rw (get_char-nil t a) (same_end t (sym (append_nil tempstr)) (omega arith))
  cs_loop-letters (suc fuel) tempstr t (c ∷ cs) a p h =
      elim (Bool-cases (is_superscript (codes c))) [
        | inl sup ↦ cc (rw sup at p)
        | inr no_sup ↦ elim (Bool-cases (is_letter (codes c))) [
          | inl l ↦
              let ih =
                cs_loop-letters fuel (tempstr ++ c ∷ []) (at_col t (t.col + 1)) cs
                  (ahead-cons t a).0 (rw no_sup at p) (omega arith) in
              rw (get_char-cons t a, cs_letter-plain (codes c) c t no_sup, l, ih)
                (same_end t (append_cons tempstr c (letters codes cs)) (omega arith))
          | inr n ↦
              rw (get_char-cons t a, cs_letter-plain (codes c) c t no_sup, n)
                (same_end t (sym (append_nil tempstr)) (omega arith))
        ]
      ]

  -- Where no character left on the line has the category of a superscript, and with more fuel than
  -- characters are left on the line, the name of a control word is its first letter and the
  -- longest run of letters behind it; the column moves behind that run and the state is that in
  -- which blanks are skipped.
  pub get_cs_name-letters :
      (fuel letter : ℕ) (t : InputTokenizer)
      → plain codes (ahead t) ≡ true
      → length (ahead t) < fuel
      → get_cs_name codes endline fuel letter t
        ≡ some (
          letter ∷ letters codes (ahead t),
          at_col (in_state skip_blank t) (t.col + length (letters codes (ahead t))),
        )
  unfolding get_cs_name
  get_cs_name-letters fuel letter t p h =
      cs_loop-letters fuel (letter ∷ []) (in_state skip_blank t) (ahead t) refl p h
