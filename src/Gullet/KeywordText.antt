-- ===== src/Gullet/KeywordText.antt =====
-- `read_keyword` of engine/gullet/methods.rs on a text.
use rus_te_x.Prelude.{
  ℕ, zero, suc, ◌+◌, ◌≤◌, ◌<◌, Bool, true, false, none, some, List, [], ◌∷◌, ◌++◌, ◌≡◌, refl, arith,
  length, length-append, append_assoc, append-nil, ltb, ◌==◌, ap, subst,
}
use rus_te_x.Tex.Catcodes.{CommandCode}
use rus_te_x.Tex.Tokens.{Token}
use rus_te_x.Gullet.Result.{Result, ok}
use rus_te_x.Gullet.Integers.{tk, Expansion}
use rus_te_x.Gullet.Keywords.{
  lower, is_prefix, capacity, put_back, keyword_char, keyword_at, keyword_go, keyword_loop,
  read_keyword,
}

-- a token that is a character, its character and its code
pub record Char : Type 0 where
  pub of : Token
  pub char : ℕ
  pub code : CommandCode

abbrev pub chars : List Char → List ℕ
chars [] = []
chars (x ∷ xs) = lower x.char ∷ chars xs

abbrev pub char_tokens : List Char → List Token
char_tokens [] = []
char_tokens (x ∷ xs) = x.of ∷ char_tokens xs

abbrev pub NotSpace : CommandCode → Type 0
NotSpace CommandCode.space = ⊥
NotSpace code = Unit {0}

pub is_prefix-append : (xs ys : List ℕ) → is_prefix xs (xs ++ ys) ≡ true
unfolding is_prefix
is_prefix-append [] ys = refl
is_prefix-append (x ∷ xs) ys = rw (is_prefix-append xs ys) ground arith

module _ (E : Expansion) where
  -- the next tokens are spaces, up to a state
  abbrev pub SpacesAt : ℕ → E.State → E.State → Type 0
  SpacesAt zero s s' = s ≡ s'
  SpacesAt (suc n) s s' =
      (t : Token) × (c : ℕ) × (s1 : E.State) × (E.next s
        ≡ ok (some (t, tk c CommandCode.space), s1))
      × SpacesAt n s1 s'

  -- the next tokens are these characters, none of them a space
  abbrev pub CharsAt : List Char → E.State → E.State → Type 0
  CharsAt [] s s' = s ≡ s'
  CharsAt (x ∷ xs) s s' =
      (s1 : E.State) × NotSpace x.code
      × (E.next s ≡ ok (some (x.of, tk x.char x.code), s1))
      × CharsAt xs s1 s'

  -- in every state each of these characters can be put back, and then comes next
  abbrev pub Returnable : List Char → Type 0
  Returnable [] = Unit {0}
  Returnable (x ∷ xs) =
      ((u : E.State) → E.next (E.requeue x.of u) ≡ ok (some (x.of, tk x.char x.code), u))
      × Returnable xs

module _ (E : Expansion) (kw : List ℕ) where
  at_text :
      (rec : List ℕ → List Token → E.State → Result (Bool × E.State)) (ret : List ℕ)
      (read : List Token) (t : Token) (c : ℕ) (code : CommandCode) (s : E.State)
      → NotSpace code
      → keyword_at E kw rec ret read t (tk c code) s ≡ keyword_char E kw rec ret read c t s
  unfolding keyword_at
  at_text rec [] read t c CommandCode.escape s h = refl
  at_text rec (k ∷ ks) read t c CommandCode.escape s h = refl
  at_text rec [] read t c CommandCode.begin_group s h = refl
  at_text rec (k ∷ ks) read t c CommandCode.begin_group s h = refl
  at_text rec [] read t c CommandCode.end_group s h = refl
  at_text rec (k ∷ ks) read t c CommandCode.end_group s h = refl
  at_text rec [] read t c CommandCode.math_shift s h = refl
  at_text rec (k ∷ ks) read t c CommandCode.math_shift s h = refl
  at_text rec [] read t c CommandCode.alignment_tab s h = refl
  at_text rec (k ∷ ks) read t c CommandCode.alignment_tab s h = refl
  at_text rec [] read t c CommandCode.eof s h = refl
  at_text rec (k ∷ ks) read t c CommandCode.eof s h = refl
  at_text rec [] read t c CommandCode.parameter s h = refl
  at_text rec (k ∷ ks) read t c CommandCode.parameter s h = refl
  at_text rec [] read t c CommandCode.superscript s h = refl
  at_text rec (k ∷ ks) read t c CommandCode.superscript s h = refl
  at_text rec [] read t c CommandCode.subscript s h = refl
  at_text rec (k ∷ ks) read t c CommandCode.subscript s h = refl
  at_text rec [] read t c CommandCode.primitive s h = refl
  at_text rec (k ∷ ks) read t c CommandCode.primitive s h = refl
  at_text rec [] read t c CommandCode.space s h = elim h [ ]
  at_text rec (k ∷ ks) read t c CommandCode.space s h = refl
  at_text rec [] read t c CommandCode.letter s h = refl
  at_text rec (k ∷ ks) read t c CommandCode.letter s h = refl
  at_text rec [] read t c CommandCode.other s h = refl
  at_text rec (k ∷ ks) read t c CommandCode.other s h = refl
  at_text rec [] read t c CommandCode.active s h = refl
  at_text rec (k ∷ ks) read t c CommandCode.active s h = refl
  at_text rec [] read t c CommandCode.argument s h = refl
  at_text rec (k ∷ ks) read t c CommandCode.argument s h = refl

  -- one more character of the keyword, but not the last
  char_step :
      (x : Char) (more : List ℕ) (ret : List ℕ) (read : List Token) (fuel : ℕ) (s s1 : E.State)
      → kw ≡ (ret ++ lower x.char ∷ []) ++ more
      → 1 ≤ length more
      → length kw ≤ capacity
      → NotSpace x.code
      → E.next s ≡ ok (some (x.of, tk x.char x.code), s1)
      → keyword_loop E kw (suc fuel) ret read s
        ≡ keyword_loop E kw fuel (ret ++ lower x.char ∷ []) (read ++ x.of ∷ []) s1
  unfolding keyword_loop keyword_go keyword_char
  char_step x more ret read fuel s s1 k m l ns e =
      let ret' = ret ++ lower x.char ∷ [] in
      let len : length kw ≡ length ret + 1 + length more = omega (
        arith,
        ap (λ xs. length xs) k,
        length-append ret' more,
        length-append ret (lower x.char ∷ []),
      ) in
      let room : ltb (length ret) capacity ≡ true = ground arith in
      let starts : is_prefix ret' kw ≡ true = rw k (is_prefix-append ret' more) in
      let longer : (length kw == length ret') ≡ false =
        ground (arith, length-append ret (lower x.char ∷ [])) in
      rw
        (
          e,
          at_text (keyword_loop E kw fuel) ret read x.of x.char x.code s1 ns,
          room,
          starts,
          longer,
        )
        refl

  -- the last character of the keyword
  char_last :
      (x : Char) (ret : List ℕ) (read : List Token) (fuel : ℕ) (s s1 : E.State)
      → kw ≡ ret ++ lower x.char ∷ []
      → length kw ≤ capacity
      → NotSpace x.code
      → E.next s ≡ ok (some (x.of, tk x.char x.code), s1)
      → keyword_loop E kw (suc fuel) ret read s ≡ ok (true, s1)
  unfolding keyword_loop keyword_go keyword_char
  char_last x ret read fuel s s1 k l ns e =
      let ret' = ret ++ lower x.char ∷ [] in
      let len : length kw ≡ length ret' = ap (λ xs. length xs) k in
      let room : ltb (length ret) capacity ≡ true =
        ground (arith, length-append ret (lower x.char ∷ [])) in
      let starts : is_prefix ret' kw ≡ true =
        rw k
          (subst (λ xs. is_prefix ret' xs ≡ true) (append-nil ret') (is_prefix-append ret' [])) in
      let whole : (length kw == length ret') ≡ true = ground arith in
      rw
        (e, at_text (keyword_loop E kw fuel) ret read x.of x.char x.code s1 ns, room, starts, whole)
        refl

  -- a character that the keyword does not have there
  char_miss :
      (x : Char) (ret : List ℕ) (read : List Token) (fuel : ℕ) (s s1 : E.State)
      → is_prefix (ret ++ lower x.char ∷ []) kw ≡ false
      → length ret < capacity
      → NotSpace x.code
      → E.next s ≡ ok (some (x.of, tk x.char x.code), s1)
      → keyword_loop E kw (suc fuel) ret read s ≡ ok (false, put_back E kw (read ++ x.of ∷ []) s1)
  unfolding keyword_loop keyword_go keyword_char
  char_miss x ret read fuel s s1 k l ns e =
      let room : ltb (length ret) capacity ≡ true = ground arith in
      rw (e, at_text (keyword_loop E kw fuel) ret read x.of x.char x.code s1 ns, room, k) refl

  chars_lem :
      (xs : List Char) (x : Char) (ret : List ℕ) (read : List Token) (fuel : ℕ) (s s1 s2 : E.State)
      → kw ≡ ret ++ (chars xs ++ lower x.char ∷ [])
      → length kw ≤ capacity
      → CharsAt E xs s s1
      → NotSpace x.code
      → E.next s1 ≡ ok (some (x.of, tk x.char x.code), s2)
      → length xs < fuel
      → keyword_loop E kw fuel ret read s ≡ ok (true, s2)
  chars_lem xs x ret read zero s s1 s2 k m at ns e l = absurd (omega arith)
  chars_lem [] x ret read (suc fuel) s s1 s2 k m at ns e l =
      rw at (char_last x ret read fuel s1 s2 k m ns e)
  chars_lem (y ∷ ys) x ret read (suc fuel) s s1 s2 k m (s', ns', e', at) ns e l =
      let more = chars ys ++ lower x.char ∷ [] in
      let k' : kw ≡ (ret ++ lower y.char ∷ []) ++ more =
        rw (append_assoc ret (lower y.char ∷ []) more) k in
      let some_left : 1 ≤ length more =
        omega (arith, length-append (chars ys) (lower x.char ∷ [])) in
      rw (char_step y more ret read fuel s s' k' some_left m ns' e') (
        chars_lem ys x (ret ++ lower y.char ∷ []) (read ++ y.of ∷ []) fuel s' s1 s2 k' m at ns e
          (omega arith))

  chars_miss :
      (xs : List Char) (x : Char) (more ret : List ℕ) (read : List Token) (fuel : ℕ)
      (s s1 s2 : E.State)
      → kw ≡ ret ++ (chars xs ++ more)
      → 1 ≤ length more
      → is_prefix (ret ++ (chars xs ++ lower x.char ∷ [])) kw ≡ false
      → length kw ≤ capacity
      → CharsAt E xs s s1
      → NotSpace x.code
      → E.next s1 ≡ ok (some (x.of, tk x.char x.code), s2)
      → length xs < fuel
      → keyword_loop E kw fuel ret read s
        ≡ ok (false, put_back E kw (read ++ (char_tokens xs ++ x.of ∷ [])) s2)
  chars_miss xs x more ret read zero s s1 s2 k o p m at ns e l = absurd (omega arith)
  chars_miss [] x more ret read (suc fuel) s s1 s2 k o p m at ns e l =
      let len : length kw ≡ length ret + length more =
        omega (arith, ap (λ xs. length xs) k, length-append ret more) in
      rw at (char_miss x ret read fuel s1 s2 p (omega arith) ns e)
  chars_miss (y ∷ ys) x more ret read (suc fuel) s s1 s2 k o p m (s', ns', e', at) ns e l =
      let rest = chars ys ++ more in
      let ret' = ret ++ lower y.char ∷ [] in
      let k' : kw ≡ ret' ++ rest = rw (append_assoc ret (lower y.char ∷ []) rest) k in
      let p' : is_prefix (ret' ++ (chars ys ++ lower x.char ∷ [])) kw ≡ false =
        rw (append_assoc ret (lower y.char ∷ []) (chars ys ++ lower x.char ∷ [])) p in
      let some_left : 1 ≤ length rest = omega (arith, length-append (chars ys) more) in
      rw
        (
          char_step y rest ret read fuel s s' k' some_left m ns' e',
          chars_miss ys x more ret' (read ++ y.of ∷ []) fuel s' s1 s2 k' o p' m at ns e
              (omega arith),
          append_assoc read (y.of ∷ []) (char_tokens ys ++ x.of ∷ []),
        )
        refl

  spaces_lem :
      (n fuel : ℕ) (s s1 : E.State)
      → SpacesAt E n s s1
      → n < fuel
      → (left : ℕ) × (fuel ≡ n + left)
        × (keyword_loop E kw fuel [] [] s ≡ keyword_loop E kw left [] [] s1)
  unfolding keyword_loop keyword_go keyword_at
  spaces_lem zero fuel s s1 at l = (fuel, omega arith, rw at refl)
  spaces_lem (suc n) zero s s1 at l = absurd (omega arith)
  spaces_lem (suc n) (suc fuel) s s1 (t, c, s', e, at) l =
      let (left, fe, eq) = spaces_lem n fuel s' s1 at (omega arith) in
      (left, omega arith, rw (e, eq) refl)

  -- Where spaces come, and then, with other command codes, the characters of a keyword of at most
  -- 20 characters, in either case, and with fuel for them: read_keyword without a first character
  -- gives true, and has taken exactly these.
  pub read_keyword-chars :
      (n : ℕ) (xs : List Char) (x : Char) (fuel : ℕ) (s s1 s2 s3 : E.State)
      → kw ≡ chars xs ++ lower x.char ∷ []
      → length kw ≤ capacity
      → SpacesAt E n s s1
      → CharsAt E xs s1 s2
      → NotSpace x.code
      → E.next s2 ≡ ok (some (x.of, tk x.char x.code), s3)
      → n + length xs < fuel
      → read_keyword E kw fuel none s ≡ ok (true, s3)
  unfolding read_keyword
  read_keyword-chars n xs x fuel s s1 s2 s3 k m sp at ns e l =
      let (left, fe, eq) = spaces_lem n fuel s s1 sp (omega arith) in
      rw eq (chars_lem xs x [] [] left s1 s2 s3 k m at ns e (omega arith))

  put_back-CharsAt :
      (xs : List Char) (x : Char) (s s1 s2 : E.State)
      → CharsAt E xs s s1
      → NotSpace x.code
      → Returnable E (xs ++ x ∷ [])
      → CharsAt E (xs ++ x ∷ []) (put_back E kw (char_tokens xs ++ x.of ∷ []) s2) s2
  unfolding put_back
  put_back-CharsAt [] x s s1 s2 at ns (r, q) = (s2, ns, r s2, refl)
  put_back-CharsAt (y ∷ ys) x s s1 s2 (s', ns', e, at) ns (r, q) =
      let u = put_back E kw (char_tokens ys ++ x.of ∷ []) s2 in
      (u, ns', r u, put_back-CharsAt ys x s' s1 s2 at ns q)

  -- Where spaces come, and then, with other command codes, characters that a keyword of at most 20
  -- characters begins with, but not all of it, and one that does not go on with it, each of which
  -- comes next wherever it is requeued, and with fuel for them: read_keyword without a first
  -- character gives false, and then these characters come next again in their order, without the
  -- spaces, and then what came behind them.
  pub read_keyword-miss :
      (n : ℕ) (xs : List Char) (x : Char) (more : List ℕ) (fuel : ℕ) (s s1 s2 s3 : E.State)
      → kw ≡ chars xs ++ more
      → 1 ≤ length more
      → is_prefix (chars xs ++ lower x.char ∷ []) kw ≡ false
      → length kw ≤ capacity
      → SpacesAt E n s s1
      → CharsAt E xs s1 s2
      → NotSpace x.code
      → E.next s2 ≡ ok (some (x.of, tk x.char x.code), s3)
      → Returnable E (xs ++ x ∷ [])
      → n + length xs < fuel
      → (s' : E.State) × (read_keyword E kw fuel none s ≡ ok (false, s'))
        × CharsAt E (xs ++ x ∷ []) s' s3
  unfolding read_keyword
  read_keyword-miss n xs x more fuel s s1 s2 s3 k o p m sp at ns e r l =
      let (left, fe, eq) = spaces_lem n fuel s s1 sp (omega arith) in
      (
        put_back E kw (char_tokens xs ++ x.of ∷ []) s3,
        rw eq (chars_miss xs x more [] [] left s1 s2 s3 k o p m at ns e (omega arith)),
        put_back-CharsAt xs x s1 s2 s3 at ns r,
      )
