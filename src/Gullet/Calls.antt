-- ===== src/Gullet/Calls.antt =====
-- The text that calls a macro, and `read_arguments` of engine/gullet/methods.rs on it.
use rus_te_x.Prelude.{
  ℕ, zero, suc, ◌+◌, ◌≤◌, ◌<◌, Bool, true, false, none, List, [], ◌∷◌, ◌++◌, ◌≡◌, refl, arith,
  length, append_assoc, append-nil, length-append, length-set, drop, map, ap, subst, ◌&&◌, set, ltb,
}
use rus_te_x.Tex.Tokens.{Token, is_argument_marker}
use rus_te_x.Gullet.Result.{Result, ok}
use rus_te_x.Gullet.Source.{Mouth, need_next-Waits}
use rus_te_x.Gullet.Groups.{blank, plain, kind}
use rus_te_x.Gullet.Parser.{argument_marker}
use rus_te_x.Gullet.Arguments.{
  same_token, same_tokens, argument_at, read_argument, with_arg, until_marker, continued, marker_at,
  literal_at, arguments_loop, read_arguments, parameter_at, marked,
}
use rus_te_x.Gullet.Balance.{group_into-Inside}
use rus_te_x.Gullet.Pieces.{
  Piece, single, group, piece_text, flatten, stripped, IsGroup, IsDelimited,
}
use rus_te_x.Gullet.DelimitedText.{read_delimited_argument-Pieces}

-- an argument, with its delimiter where the parameter has one
pub data Slot : Type 0 where
  -- blanks, then a token or a group
  undelimited : List Token → Piece → Slot
  delimited : List Piece → Token → List Token → Slot

abbrev pub slot_text : Slot → List Token
slot_text (undelimited bs p) = bs ++ piece_text p
slot_text (delimited ps d ds) = flatten ps ++ d ∷ ds

abbrev pub slot_argument : Slot → List Token
slot_argument (undelimited bs p) = stripped (p ∷ [])
slot_argument (delimited ps d ds) = stripped ps

abbrev pub slot_delimiter : Slot → List Token
slot_delimiter (undelimited bs p) = []
slot_delimiter (delimited ps d ds) = d ∷ ds

abbrev pub slots_text : List Slot → List Token
slots_text [] = []
slots_text (s ∷ ss) = slot_text s ++ slots_text ss

-- the parameters from number `n` on
abbrev pub slots_params : ℕ → List Slot → List Token
slots_params n [] = []
slots_params n (s ∷ ss) = argument_marker n ∷ slot_delimiter s ++ slots_params (suc n) ss

abbrev pub NoMarkers : List Token → Type 0
NoMarkers [] = Unit {0}
NoMarkers (t ∷ ts) = (is_argument_marker t ≡ none) × NoMarkers ts

-- the arguments written from number `n` on
abbrev pub filled : ℕ → List (List Token) → List Slot → List (List Token)
filled n args [] = args
filled n args (s ∷ ss) = filled (suc n) (set args n (slot_argument s)) ss

module _ (ne : ℕ) (long : Bool) where
  abbrev pub AreBlank : List Token → Type 0
  AreBlank [] = Unit {0}
  AreBlank (t ∷ ts) = (kind ne t ≡ blank) × AreBlank ts

  abbrev pub IsUndelimited : Piece → Type 0
  IsUndelimited (single t) = kind ne t ≡ plain
  IsUndelimited (group o body c) = IsGroup ne long o body c

  abbrev pub IsSlot : Slot → Type 0
  IsSlot (undelimited bs p) = AreBlank bs × IsUndelimited p
  IsSlot (delimited ps d ds) = IsDelimited ne long d ds ps × NoMarkers (d ∷ ds)

  abbrev pub AreSlots : List Slot → Type 0
  AreSlots [] = Unit {0}
  AreSlots (s ∷ ss) = IsSlot s × AreSlots ss

until_marker-slots :
    (ts : List Token) (n : ℕ) (ss : List Slot)
    → NoMarkers ts
    → until_marker (ts ++ slots_params n ss) ≡ (ts, slots_params n ss)
unfolding until_marker marked
until_marker-slots [] n [] h = refl
until_marker-slots [] n (s ∷ ss) h = refl
until_marker-slots (t ∷ ts) n ss (h, hs) = rw (h, until_marker-slots ts n ss hs) refl

both : (a b : Bool) → (a && b) ≡ true → (a ≡ true) × (b ≡ true)
both true true h = (refl, refl)
both true false h = cc
both false b h = cc

module _ (ne : ℕ) (long : Bool) where
  slot_NoMarkers : (s : Slot) → IsSlot ne long s → NoMarkers (slot_delimiter s)
  slot_NoMarkers (undelimited bs p) h = tt
  slot_NoMarkers (delimited ps d ds) (h, m) = m

module _ (ne : ℕ) (M : Mouth) (long : Bool) where
  read_argument-Piece :
      (bs : List Token) (p : Piece) (fuel : ℕ) (rest : List Token) (s : M.State)
      → AreBlank ne long bs
      → IsUndelimited ne long p
      → M.Waits s ((bs ++ piece_text p) ++ rest)
      → length (bs ++ piece_text p) < fuel
      → (s' : M.State) × (read_argument ne M long fuel [] s ≡ ok (stripped (p ∷ []), s'))
        × M.Waits s' rest
  unfolding read_argument argument_at
  read_argument-Piece bs p zero rest s h k w l = absurd (omega arith)
  read_argument-Piece [] (single t) (suc fuel) rest s h k w l =
      let (s', n, w') = need_next-Waits M s t rest w in (s', rw (n, k) refl, w')
  read_argument-Piece [] (group o body c) (suc fuel) rest s h (ko, kc, i, al) w l =
      let text = ap (λ ts. o ∷ ts) (append_assoc body (c ∷ []) rest) in
      let (s', n, w') =
        need_next-Waits M s o (body ++ c ∷ rest) (subst (λ ts. M.Waits s ts) text w) in
      let (s'', g, w'') =
        group_into-Inside ne M long body fuel [] c rest s' i al kc w'
          (omega (arith, length-append body (c ∷ []))) in
      (s'', rw (n, ko, g) refl, w'')
  read_argument-Piece (b ∷ bs) p (suc fuel) rest s (h, hs) k w l =
      let (s', n, w') = need_next-Waits M s b ((bs ++ piece_text p) ++ rest) w in
      let (s'', e, w'') = read_argument-Piece bs p fuel rest s' hs k w' (omega arith) in
      (s'', rw (n, h, e) refl, w'')

module _ (ne : ℕ) (M : Mouth) (long : Bool) (fuel : ℕ) where
  abbrev loop :
      ℕ → Token → List Token → List (List Token) → M.State → Result (List (List Token) × M.State)
  loop ticks = arguments_loop ne M long fuel ticks

  -- one parameter
  slot_lem :
      (sl : Slot) (n : ℕ)
      (rec : Token
        → List Token
        → List (List Token)
        → M.State
        → Result (List (List Token) × M.State))
      (ps : List Token) (args : List (List Token)) (rest : List Token) (s : M.State)
      → IsSlot ne long sl
      → n < length args
      → M.Waits s (slot_text sl ++ rest)
      → length (slot_text sl) < fuel
      → (s' : M.State) × (marker_at ne M long fuel rec n (slot_delimiter sl, ps) args s
          ≡ continued ne M long fuel rec ps (set args n (slot_argument sl)) s')
        × M.Waits s' rest
  unfolding marker_at with_arg
  slot_lem (undelimited bs p) n rec ps args rest s (h, k) lt w l =
      let (s', e, w') = read_argument-Piece ne M long bs p fuel rest s h k w l in
      let inside : ltb n (length args) ≡ true = ground arith in (s', rw (inside, e) refl, w')
  slot_lem (delimited qs d ds) n rec ps args rest s (h, k) lt w l =
      let text = append_assoc (flatten qs) (d ∷ ds) rest in
      let (s', e, w') =
        read_delimited_argument-Pieces ne M long d ds qs rest fuel s h
          (subst (λ ts. M.Waits s ts) text w)
          (omega (arith, length-append (flatten qs) (d ∷ ds))) in
      let inside : ltb n (length args) ≡ true = ground arith in (s', rw (inside, e) refl, w')

  -- what is left of the parameters from number `n` on
  slots_lem :
      (ss : List Slot) (n ticks : ℕ) (args : List (List Token)) (rest : List Token) (s : M.State)
      → AreSlots ne long ss
      → n + length ss ≤ length args
      → length (slots_params n ss) ≤ ticks
      → M.Waits s (slots_text ss ++ rest)
      → length (slots_text ss) < fuel
      → (s' : M.State) × (continued ne M long fuel (loop ticks) (slots_params n ss) args s
          ≡ ok (filled n args ss, s'))
        × M.Waits s' rest
  unfolding continued arguments_loop parameter_at is_argument_marker
  slots_lem [] n ticks args rest s h lt t w l = (s, refl, w)
  slots_lem (sl ∷ ss) n zero args rest s h lt t w l = absurd (omega arith)
  slots_lem (sl ∷ ss) n (suc ticks) args rest s (h, hs) lt t w l =
      let next = slots_params (suc n) ss in
      let l1 = length-append (slot_text sl) (slots_text ss) in
      let l2 = length-append (slot_delimiter sl) next in
      let text = append_assoc (slot_text sl) (slots_text ss) rest in
      let marks = until_marker-slots (slot_delimiter sl) (suc n) ss (slot_NoMarkers ne long sl h) in
      let (s', e, w') =
        slot_lem sl n (loop ticks) next args (slots_text ss ++ rest) s h (omega arith)
          (subst (λ ts. M.Waits s ts) text w) (omega (arith, l1)) in
      let (s'', e', w'') =
        slots_lem ss (suc n) ticks (set args n (slot_argument sl)) rest s' hs
          (omega (arith, length-set args n (slot_argument sl))) (omega (arith, l2)) w'
          (omega (arith, l1)) in
      (s'', rw (marks, e, e') refl, w'')

  literals_lem :
      (ls os : List Token) (ss : List Slot) (ticks : ℕ) (args : List (List Token))
      (rest : List Token) (s : M.State)
      → same_tokens os ls ≡ true
      → NoMarkers ls
      → AreSlots ne long ss
      → length ss ≤ length args
      → length (ls ++ slots_params 0 ss) ≤ ticks
      → M.Waits s ((os ++ slots_text ss) ++ rest)
      → length (slots_text ss) < fuel
      → (s' : M.State) × (continued ne M long fuel (loop ticks) (ls ++ slots_params 0 ss) args s
          ≡ ok (filled 0 args ss, s'))
        × M.Waits s' rest
  unfolding continued arguments_loop parameter_at literal_at same_tokens
  literals_lem [] [] ss ticks args rest s eq m h lt t w l =
      slots_lem ss 0 ticks args rest s h (omega arith) t w l
  literals_lem [] (o ∷ os) ss ticks args rest s eq m h lt t w l = cc
  literals_lem (p ∷ ls) [] ss ticks args rest s eq m h lt t w l = cc
  literals_lem (p ∷ ls) (o ∷ os) ss zero args rest s eq m h lt t w l = absurd (omega arith)
  literals_lem (p ∷ ls) (o ∷ os) ss (suc ticks) args rest s eq (m, ms) h lt t w l =
      let (one, others) = both (same_token o p) (same_tokens os ls) eq in
      let (s', n, w') = need_next-Waits M s o ((os ++ slots_text ss) ++ rest) w in
      let (s'', e, w'') =
        literals_lem ls os ss ticks args rest s' others ms h lt (omega arith) w' l in
      (s'', rw (m, n, one, e) refl, w'')

  pub read_arguments-Slots :
      (ls os : List Token) (ss : List Slot) (p : Token) (ps : List Token) (args : List (List Token))
      (rest : List Token) (s : M.State)
      → ls ++ slots_params 0 ss ≡ p ∷ ps
      → same_tokens os ls ≡ true
      → NoMarkers ls
      → AreSlots ne long ss
      → length ss ≤ length args
      → M.Waits s ((os ++ slots_text ss) ++ rest)
      → length (slots_text ss) < fuel
      → (s' : M.State) × (read_arguments ne M long fuel args (p ∷ ps) s ≡ ok (filled 0 args ss, s'))
        × M.Waits s' rest
  unfolding read_arguments
  read_arguments-Slots ls os ss p ps args rest s whole eq m h lt w l =
      let ticks = length (p ∷ ps) in
      let (s', e, w') =
        literals_lem ls os ss ticks args rest s eq m h lt
          (omega (arith, ap (λ ts. length ts) whole)) w l in
      (
        s',
        subst (λ ts. continued ne M long fuel (loop ticks) ts args s ≡ ok (filled 0 args ss, s'))
            whole e,
        w',
      )

set_append :
    (xs : List (List Token)) (a v : List Token) (ys : List (List Token))
    → set (xs ++ a ∷ ys) (length xs) v ≡ (xs ++ v ∷ []) ++ ys
set_append [] a v ys = refl
set_append (x ∷ xs) a v ys = ap (λ zs. x ∷ zs) (set_append xs a v ys)

filled_from :
    (ss : List Slot) (xs ys : List (List Token))
    → length ss ≤ length ys
    → filled (length xs) (xs ++ ys) ss ≡ (xs ++ map slot_argument ss) ++ drop (length ss) ys
filled_from [] xs ys h = rw (append-nil xs) refl
filled_from (s ∷ ss) xs [] h = absurd (omega arith)
filled_from (s ∷ ss) xs (y ∷ ys) h =
    let v = slot_argument s in
    let more : suc (length xs) ≡ length (xs ++ v ∷ []) = omega (arith, length-append xs (v ∷ [])) in
    rw
      (
        set_append xs y v ys,
        more,
        filled_from ss (xs ++ v ∷ []) ys (omega arith),
        append_assoc xs (v ∷ []) (map slot_argument ss),
      )
      refl

-- The arguments are written in order.
pub filled_lem :
    (ss : List Slot) (args : List (List Token))
    → length ss ≤ length args
    → filled 0 args ss ≡ map slot_argument ss ++ drop (length ss) args
filled_lem ss args h = filled_from ss [] args h
