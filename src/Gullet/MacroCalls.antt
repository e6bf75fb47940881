-- ===== src/Gullet/MacroCalls.antt =====
-- `do_macro` of engine/gullet.rs on the text that calls a macro.
use rus_te_x.Prelude.{
  ℕ, zero, suc, ◌≤◌, ◌<◌, true, Option, none, some, List, [], ◌∷◌, ◌++◌, ◌≡◌, refl, arith, length,
  length-map, map, sym, ◌∙◌, subst, get_elem?, get_or, drop,
}
use rus_te_x.Tex.Tokens.{Token, is_argument_marker}
use rus_te_x.Mouth.Inputs.{consume_rev, expand_marker}
use rus_te_x.Gullet.Result.{ok}
use rus_te_x.Gullet.Source.{Mouth}
use rus_te_x.Gullet.Parser.{Macro}
use rus_te_x.Gullet.Arguments.{same_tokens}
use rus_te_x.Gullet.Macros.{empty_args, expanded, with_params, do_macro}
use rus_te_x.Gullet.Calls.{
  Slot, slots_text, slots_params, slot_argument, AreSlots, NoMarkers, filled_lem,
  read_arguments-Slots,
}

-- The body with the arguments in place of their markers.
abbrev pub argument_for : Option ℕ → List (List Token) → Token → List Token
argument_for none args t = t ∷ []
argument_for (some i) args t = get_or args i []

abbrev pub substituted : List (List Token) → List Token → List Token
substituted args [] = []
substituted args (t ∷ ts) = argument_for (is_argument_marker t) args t ++ substituted args ts

abbrev pub MarkerBelow : Option ℕ → ℕ → Type 0
MarkerBelow none n = Unit {0}
MarkerBelow (some i) n = i < n

-- Every marker stands for one of the `n` parameters.
abbrev pub MarkersBelow : List Token → ℕ → Type 0
MarkersBelow [] n = Unit {0}
MarkersBelow (t ∷ ts) n = MarkerBelow (is_argument_marker t) n × MarkersBelow ts n

get_elem?-append :
    (xs ys : List (List Token)) (i : ℕ)
    → i < length xs
    → get_elem? (xs ++ ys) i ≡ some (get_or xs i [])
get_elem?-append [] ys i h = absurd (omega arith)
get_elem?-append (x ∷ xs) ys zero h = refl
get_elem?-append (x ∷ xs) ys (suc i) h = get_elem?-append xs ys i (omega arith)

expand_marker-append :
    (o : Option ℕ) (xs ys : List (List Token)) (t : Token)
    → MarkerBelow o (length xs)
    → expand_marker o (xs ++ ys) t ≡ some (argument_for o xs t)
unfolding expand_marker
expand_marker-append none xs ys t h = refl
expand_marker-append (some i) xs ys t h = get_elem?-append xs ys i h

pub consume_rev-substituted :
    (ts : List Token) (xs ys : List (List Token))
    → MarkersBelow ts (length xs)
    → consume_rev ts (xs ++ ys) [] ≡ some (substituted xs ts)
unfolding consume_rev
consume_rev-substituted [] xs ys h = refl
consume_rev-substituted (t ∷ ts) xs ys (h, hs) =
    rw (consume_rev-substituted ts xs ys hs, expand_marker-append (is_argument_marker t) xs ys t h)
      refl

argument_for_none : (o : Option ℕ) (t : Token) → MarkerBelow o 0 → argument_for o [] t ≡ t ∷ []
argument_for_none none t h = refl
argument_for_none (some i) t h = absurd (omega arith)

substituted_none : (ts : List Token) → MarkersBelow ts 0 → substituted [] ts ≡ ts
substituted_none [] h = refl
substituted_none (t ∷ ts) (h, hs) =
    rw (argument_for_none (is_argument_marker t) t h, substituted_none ts hs) refl

module _ (ne : ℕ) (M : Mouth) (fuel : ℕ) where
  expanded-substituted :
      (arity : ℕ) (exp : List Token) (xs ys : List (List Token)) (rest : List Token) (s : M.State)
      → length xs ≡ arity
      → MarkersBelow exp arity
      → M.Waits s rest
      → (s' : M.State) × (expanded ne M fuel arity exp (xs ++ ys, s) ≡ ok s')
        × M.Waits s' (substituted xs exp ++ rest)
  unfolding expanded
  expanded-substituted zero exp [] ys rest s e h w =
      (M.push_exp exp s, refl, rw (substituted_none exp h) (M.push_exp-Waits exp s rest w))
  expanded-substituted zero exp (x ∷ xs) ys rest s e h w = absurd (omega arith)
  expanded-substituted (suc arity) exp xs ys rest s e h w = (
    M.push_exp (substituted xs exp) s,
    rw (consume_rev-substituted exp xs ys (rw e h)) refl,
    M.push_exp-Waits (substituted xs exp) s rest w,
  )

  -- the call of a macro with parameters `ps`
  abbrev IsCall : Macro → List Token → List Token → List Token → List Slot → Type 0
  IsCall m ps ls os ss =
      (ps ≡ ls ++ slots_params 0 ss)
      × (same_tokens os ls ≡ true)
      × NoMarkers ls
      × AreSlots ne m.long ss
      × (m.arity ≡ length ss)
      × (length ss ≤ 9)
      × MarkersBelow m.expansion m.arity

  with_params-Slots :
      (m : Macro) (ps ls os : List Token) (ss : List Slot) (rest : List Token) (s : M.State)
      → IsCall m ps ls os ss
      → M.Waits s ((os ++ slots_text ss) ++ rest)
      → length (slots_text ss) < fuel
      → (s' : M.State) × (with_params ne M fuel ps m s ≡ ok s')
        × M.Waits s' (substituted (map slot_argument ss) m.expansion ++ rest)
  unfolding with_params same_tokens
  with_params-Slots m [] [] [] [] rest s (e, eq, marks, slots, ar, nine, below) w l = (
    M.push_exp m.expansion s,
    refl,
    rw (substituted_none m.expansion (subst (λ n. MarkersBelow m.expansion n) ar below))
        (M.push_exp-Waits m.expansion s rest w),
  )
  with_params-Slots m [] [] (o ∷ os) [] rest s (e, eq, m1, m2, m3, m4, m5) w l = cc
  with_params-Slots m [] [] os (sl ∷ ss) rest s (e, eq, m1, m2, m3, m4, m5) w l = cc
  with_params-Slots m [] (t ∷ ls) os ss rest s (e, eq, m1, m2, m3, m4, m5) w l = cc
  with_params-Slots m (p ∷ ps) ls os ss rest s (e, eq, marks, slots, ar, nine, below) w l =
      let (s', r, w') =
        read_arguments-Slots ne M m.long fuel ls os ss p ps empty_args rest s (sym e) eq marks slots
          nine w l in
      let args = map slot_argument ss in
      let len : length args ≡ m.arity = length-map slot_argument ss ∙ sym ar in
      let (s'', x, w'') =
        expanded-substituted m.arity m.expansion args (drop (length ss) empty_args) rest s' len
          below w' in
      (s'', rw (r, filled_lem ss empty_args nine, x) refl, w'')

  -- For a macro with as many parameters as arguments, at most nine, and no marker beyond them in
  -- its body, where the mouth gives its literal tokens and the arguments that fit its parameters,
  -- then rest, and with more fuel than the arguments' tokens: do_macro succeeds, and the mouth
  -- gives the body with the arguments in place of their markers, then rest.
  pub do_macro-Slots :
      (m : Macro) (ls os : List Token) (ss : List Slot) (rest : List Token) (s : M.State)
      → m.params ≡ ls ++ slots_params 0 ss
      → m.arity ≡ length ss
      → length ss ≤ 9
      → MarkersBelow m.expansion m.arity
      → same_tokens os ls ≡ true
      → NoMarkers ls
      → AreSlots ne m.long ss
      → M.Waits s ((os ++ slots_text ss) ++ rest)
      → length (slots_text ss) < fuel
      → (s' : M.State) × (do_macro ne M fuel m s ≡ ok s')
        × M.Waits s' (substituted (map slot_argument ss) m.expansion ++ rest)
  unfolding do_macro
  do_macro-Slots m ls os ss rest s pe ae nine below eq marks slots w l =
      with_params-Slots m m.params ls os ss rest s (pe, eq, marks, slots, ae, nine, below) w l
