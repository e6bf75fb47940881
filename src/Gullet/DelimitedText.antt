-- ===== src/Gullet/DelimitedText.antt =====
-- `read_delimited_argument` of engine/gullet/methods.rs on the text of an argument and its delimiter.
use rus_te_x.Prelude.{
  ℕ, zero, suc, ◌+◌, ◌≤◌, ◌<◌, Bool, false, Option, none, some, List, [], ◌∷◌, ◌++◌, ◌≡◌, refl,
  arith, length, append_assoc, append-nil, length-append, map, sym, ap, ◌∙◌, subst, ◌==◌,
}
use rus_te_x.Tex.Tokens.{Token}
use rus_te_x.Gullet.Result.{Result, ok}
use rus_te_x.Gullet.Source.{Mouth, need_next-Waits}
use rus_te_x.Gullet.Groups.{Kind, begins, ends, blank, noexpand, paragraph, plain, kind}
use rus_te_x.Gullet.Arguments.{
  last_of, is_begin_group, opened, noted, braces_removed, without_ends, compared, delimited_at,
  delimited_loop, read_delimited_argument,
}
use rus_te_x.Gullet.Pieces.{
  Piece, single, group, piece_text, flatten, stripped, IsLast, ArePieces, append-ArePieces,
  same_token_refl, ends_with-append, take-append, without_ends-group, flatten-append,
  flatten-singles, front_of, front_of-last_of, IsDelimited,
}
use rus_te_x.Gullet.Delimited.{noted_after, at_single, pieces-PassedAll}

-- Behind the first piece, a note is kept.
noted_after-none :
    (x : Token) (xs : List Token) (ps : List Piece) → noted_after none (x ∷ xs) ps ≡ none
unfolding opened noted
noted_after-none x xs [] = refl
noted_after-none x xs (single t ∷ ps) = noted_after-none x (xs ++ t ∷ []) ps
noted_after-none x xs (group o body c ∷ ps) = noted_after-none x (xs ++ (o ∷ body ++ c ∷ [])) ps

noted_after-some :
    (n : ℕ) (x : Token) (xs : List Token) (ps : List Piece)
    → noted_after (some (some n)) (x ∷ xs) ps ≡ some (some n)
unfolding opened noted
noted_after-some n x xs [] = refl
noted_after-some n x xs (single t ∷ ps) = noted_after-some n x (xs ++ t ∷ []) ps
noted_after-some n x xs (group o body c ∷ ps) = noted_after-some n x (xs ++ (o ∷ body ++ c ∷ [])) ps

length-piece_text : (p : Piece) → 1 ≤ length (piece_text p)
length-piece_text (single t) = omega arith
length-piece_text (group o body c) = omega arith

braces_one : (a : List Token) → braces_removed (some (some (length a))) a ≡ without_ends a
unfolding braces_removed
braces_one a = ground arith

braces_removed-stripped :
    (ps : List Piece) (ts : List Token)
    → braces_removed (noted_after none [] (ps ++ map single ts)) (flatten ps) ≡ stripped ps
unfolding braces_removed opened noted
braces_removed-stripped [] [] = refl
braces_removed-stripped [] (t ∷ ts) = rw (noted_after-none t [] (map single ts)) refl
braces_removed-stripped (single t ∷ ps) ts = rw (noted_after-none t [] (ps ++ map single ts)) refl
braces_removed-stripped (group o body c ∷ []) ts =
    let g = o ∷ body ++ c ∷ [] in
    rw (append-nil g, noted_after-some (length g) o (body ++ c ∷ []) (map single ts), braces_one g)
      (without_ends-group o body c)
braces_removed-stripped (group o body c ∷ p ∷ ps) ts =
    let g = o ∷ body ++ c ∷ [] in
    let l1 = length-append g (flatten (p ∷ ps)) in
    let l2 = length-append (piece_text p) (flatten ps) in
    let differ : (length (g ++ flatten (p ∷ ps)) == length g) ≡ false =
      ground (arith, l1, l2, length-piece_text p) in
    rw (noted_after-some (length g) o (body ++ c ∷ []) ((p ∷ ps) ++ map single ts), differ) refl

module _ (ne : ℕ) (M : Mouth) (long : Bool) where
  at_last :
      (delim : List Token) (last : Token)
      (rec : Option (Option ℕ) → List Token → M.State → Result (List Token × M.State)) (fuel : ℕ)
      (k : Kind) (rb : Option (Option ℕ)) (t : Token) (a : List Token) (s : M.State)
      → IsLast long k
      → delimited_at ne M long delim last rec fuel (is_begin_group k) k rb t a s
        ≡ compared ne M long delim last rec rb t a s
  unfolding delimited_at
  at_last delim last rec fuel begins rb t a s i = refl
  at_last delim last rec fuel ends rb t a s i = elim i [ ]
  at_last delim last rec fuel noexpand rb t a s i = elim i [ ]
  at_last delim last rec fuel blank rb t a s i = refl
  at_last delim last rec fuel plain rb t a s i = refl
  at_last delim last rec fuel paragraph rb t a s i =
      at_single ne M long delim last rec fuel false paragraph rb t a s i

  compared_last :
      (rec : Option (Option ℕ) → List Token → M.State → Result (List Token × M.State)) (t : Token)
      (rb : Option (Option ℕ)) (front a : List Token) (s : M.State)
      → compared ne M long (front ++ t ∷ []) t rec rb t (a ++ front) s ≡ ok (braces_removed rb a, s)
  unfolding compared
  compared_last rec t rb front a s =
      rw
        (
          same_token_refl t,
          append_assoc a front (t ∷ []),
          ends_with-append a (front ++ t ∷ []),
          take-append a (front ++ t ∷ []),
        )
        refl

  delimited-last :
      (t : Token) (fuel : ℕ) (rb : Option (Option ℕ)) (front a rest : List Token) (s : M.State)
      → IsLast long (kind ne t)
      → M.Waits s (t ∷ rest)
      → 1 ≤ fuel
      → (s' : M.State) × (delimited_loop ne M long (front ++ t ∷ []) t fuel rb (a ++ front) s
          ≡ ok (braces_removed rb a, s'))
        × M.Waits s' rest
  unfolding delimited_loop
  delimited-last t zero rb front a rest s i w h = absurd (omega arith)
  delimited-last t (suc fuel) rb front a rest s i w h =
      let (s', n, w') = need_next-Waits M s t rest w in
      let delim = front ++ t ∷ [] in
      let l = delimited_loop ne M long delim t fuel in
      (
        s',
        rw (n, at_last delim t l fuel (kind ne t) rb t (a ++ front) s' i)
            (compared_last l t rb front a s'),
        w',
      )

  singles_any :
      (b : Bool) (ts : List Token)
      → ArePieces ne long false (map single ts)
      → ArePieces ne long b (map single ts)
  singles_any b [] h = tt
  singles_any b (t ∷ ts) (h, hs) = (h, singles_any b ts hs)

  -- Where the mouth gives an argument, then the delimiter, then rest, and with more fuel than the
  -- tokens of argument and delimiter: read_delimited_argument gives the argument, without its
  -- braces if it is exactly one group, and leaves rest. The argument is single tokens that are no
  -- braces, and balanced groups, but no groups where the delimiter ends in an opening brace; the
  -- delimiter is such single tokens too, but may end in an opening brace; neither has \noexpand,
  -- nor \par unless the macro is \long; and behind no earlier single token of argument or
  -- delimiter does the text end in the delimiter.
  pub read_delimited_argument-Pieces :
      (d : Token) (ds : List Token) (ps : List Piece) (rest : List Token) (fuel : ℕ) (s : M.State)
      → IsDelimited ne long d ds ps
      → M.Waits s (flatten ps ++ (d ∷ ds ++ rest))
      → length (flatten ps) + length (d ∷ ds) < fuel
      → (s' : M.State) × (read_delimited_argument ne M long fuel d ds [] s ≡ ok (stripped ps, s'))
        × M.Waits s' rest
  unfolding read_delimited_argument
  read_delimited_argument-Pieces d ds ps rest fuel s ((fs, l), is, early) w h =
      let t = last_of d ds in
      let front = front_of d ds in
      let qs = ps ++ map single front in
      let whole = front_of-last_of d ds in
      let flat : flatten qs ≡ flatten ps ++ front =
        flatten-append ps (map single front)
        ∙ ap (λ ts. flatten ps ++ ts) (flatten-singles front) in
      let tail : front ++ t ∷ rest ≡ d ∷ ds ++ rest =
        sym (append_assoc front (t ∷ []) rest) ∙ ap (λ ts. ts ++ rest) whole in
      let text : flatten qs ++ t ∷ rest ≡ flatten ps ++ (d ∷ ds ++ rest) =
        rw flat (append_assoc (flatten ps) front (t ∷ rest) ∙ ap (λ ts. flatten ps ++ ts) tail) in
      let b = is_begin_group (kind ne t) in
      let (left, s', le, e, w') =
        pieces-PassedAll ne M long (d ∷ ds) t 1 fuel qs none [] (t ∷ rest) s
          (append-ArePieces ne long b ps (map single front) is (singles_any b front fs)) early
          (subst (λ ts. M.Waits s ts) (sym text) w)
          (omega (
            arith,
            ap (λ ts. length ts) flat,
            ap (λ ts. length ts) whole,
            length-append (flatten ps) front,
            length-append front (t ∷ []),
          )) in
      let (s'', e', w'') =
        delimited-last t left (noted_after none [] qs) front (flatten ps) rest s' l w' le in
      let rb = noted_after none [] qs in
      let loop : List Token → List Token → Result (List Token × M.State) =
        λ delim a. delimited_loop ne M long delim t left rb a s' in
      (
        s'',
        e
            ∙ ap (λ a. loop (d ∷ ds) a) flat
            ∙ subst
                (λ delim.
                  loop delim (flatten ps ++ front) ≡ ok (braces_removed rb (flatten ps), s''))
                whole e'
            ∙ ap (λ a. ok (a, s'')) (braces_removed-stripped ps front),
        w'',
      )
