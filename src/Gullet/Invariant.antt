-- ===== src/Gullet/Invariant.antt =====
-- What `MacroParser` of commands/methods.rs keeps: the numbers of the markers in the signature and in the
-- body, for the calls of the macro in engine/gullet.rs and engine/mouth.rs.
use rus_te_x.Prelude.{
  ℕ, zero, suc, ◌+◌, ◌-◌, ◌≤◌, Bool, true, false, Option, none, some, List, [], ◌∷◌, ◌++◌, ◌≡◌,
  refl, arith, length, ltb, ◌==◌, ◌&&◌, append-nil, inl, inr, subst,
}
use rus_te_x.Tex.Catcodes.{CommandCode}
use rus_te_x.Tex.Tokens
use rus_te_x.Tex.Tokens.{Token, is_argument_marker}
use rus_te_x.Mouth.Inputs.{consume_rev}
use rus_te_x.Gullet.Result.{Result, ok, err, panic}
use rus_te_x.Gullet.Parser.{
  MacroParser, argument_marker, char_value, signature_digit, signature_at, do_signature_token,
  expansion_digit, expansion_at, do_expansion_token, closed, close,
}
use rus_te_x.Gullet.MacroCalls.{MarkerBelow, MarkersBelow, substituted, consume_rev-substituted}
use rus_te_x.Gullet.Radix.{decides}

-- the numbers of the markers, in order
abbrev pub with_marker : Option ℕ → List ℕ → List ℕ
with_marker none ns = ns
with_marker (some i) ns = i ∷ ns

abbrev pub markers : List Token → List ℕ
markers [] = []
markers (t ∷ ts) = with_marker (is_argument_marker t) (markers ts)

abbrev pub upto : ℕ → List ℕ
upto zero = []
upto (suc n) = upto n ++ n ∷ []

abbrev pub IsUnmarked : Option Token → Type 0
IsUnmarked none = Unit {0}
IsUnmarked (some t) = is_argument_marker t ≡ none

-- The signature has its parameters in order, and the body has none beyond them.
abbrev pub IsParsed : MacroParser → Type 0
IsParsed p =
    (markers p.params ≡ upto p.arity) × MarkersBelow p.exp p.arity × IsUnmarked p.ends_with_brace

-- of what comes out, and of when it is a panic
abbrev pub After {ℓ} : {A : Type ℓ} → Type 0 → (A → Type 0) → Result A → Type 0
After Q P (ok a) = P a
After Q P (err e) = Unit {0}
After Q P panic = Q

with_marker-append :
    (o : Option ℕ) (xs ys : List ℕ) → with_marker o (xs ++ ys) ≡ with_marker o xs ++ ys
with_marker-append none xs ys = refl
with_marker-append (some i) xs ys = refl

markers-append : (xs ys : List Token) → markers (xs ++ ys) ≡ markers xs ++ markers ys
markers-append [] ys = refl
markers-append (x ∷ xs) ys =
    rw (markers-append xs ys) (with_marker-append (is_argument_marker x) (markers xs) (markers ys))

pushed_markers :
    (t : Token) (ts : List Token) (n : ℕ)
    → is_argument_marker t ≡ none
    → markers ts ≡ upto n
    → markers (ts ++ t ∷ []) ≡ upto n
pushed_markers t ts n m h = rw (markers-append ts (t ∷ []), m, append-nil (markers ts)) h

append-MarkersBelow :
    (xs ys : List Token) (n : ℕ) → MarkersBelow xs n → MarkersBelow ys n → MarkersBelow (xs ++ ys) n
append-MarkersBelow [] ys n h k = k
append-MarkersBelow (x ∷ xs) ys n (h, hs) k = (h, append-MarkersBelow xs ys n hs k)

more-MarkerBelow : (o : Option ℕ) (n m : ℕ) → n ≤ m → MarkerBelow o n → MarkerBelow o m
more-MarkerBelow none n m l h = tt
more-MarkerBelow (some i) n m l h = omega arith

more-MarkersBelow : (ts : List Token) (n m : ℕ) → n ≤ m → MarkersBelow ts n → MarkersBelow ts m
more-MarkersBelow [] n m l h = tt
more-MarkersBelow (t ∷ ts) n m l (h, hs) =
    (more-MarkerBelow (is_argument_marker t) n m l h, more-MarkersBelow ts n m l hs)

signature_digit-IsParsed :
    (o : Option ℕ) (p : MacroParser)
    → IsParsed p
    → After (207 ≤ p.arity) (λ r. IsParsed r.1) (signature_digit o p)
unfolding signature_digit is_argument_marker
signature_digit-IsParsed none p h = tt
signature_digit-IsParsed (some u) p (o, e, b) = elim (decides (ltb 48 u && ltb u 256)) [
  | inr other ↦ rw other tt
  | inl byte ↦ rw byte (elim (decides (ltb (49 + p.arity) 256)) [
    | inr above ↦ rw above (ground arith)
    | inl room ↦ rw room (elim (decides (u == 49 + p.arity)) [
      | inr other ↦ rw other tt
      | inl in_order ↦ rw in_order (
          let next : p.arity + 1 ≡ suc p.arity = omega arith in
          (
            rw (next, markers-append p.params (argument_marker p.arity ∷ []), o) refl,
            more-MarkersBelow p.exp p.arity (p.arity + 1) (omega arith) e,
            b,
          ))
    ])
  ])
]

expansion_digit-IsParsed :
    (o : Option ℕ) (p : MacroParser) → IsParsed p → After ⊥ IsParsed (expansion_digit o p)
unfolding expansion_digit is_argument_marker
expansion_digit-IsParsed none p h = tt
expansion_digit-IsParsed (some u) p (o, e, b) = elim (decides (ltb 48 u && ltb (u - 49) p.arity)) [
  | inl in_order ↦
      rw in_order (
        o,
        append-MarkersBelow p.exp (argument_marker (u - 49) ∷ []) p.arity e (ground arith, tt),
        b,
      )
  | inr other ↦ rw other tt
]

signature_at-IsParsed :
    (inparam : Bool) (code : CommandCode) (t : Token) (p : MacroParser)
    → is_argument_marker t ≡ none
    → IsParsed p
    → After (207 ≤ p.arity) (λ r. IsParsed r.1) (signature_at inparam code t p)
unfolding signature_at
signature_at-IsParsed true CommandCode.escape t p m (o, e, b) =
    signature_digit-IsParsed (char_value t) p (o, e, b)
signature_at-IsParsed true CommandCode.begin_group t p m (o, e, b) =
    (pushed_markers t p.params p.arity m o, e, m)
signature_at-IsParsed true CommandCode.end_group t p m (o, e, b) =
    signature_digit-IsParsed (char_value t) p (o, e, b)
signature_at-IsParsed true CommandCode.math_shift t p m (o, e, b) =
    signature_digit-IsParsed (char_value t) p (o, e, b)
signature_at-IsParsed true CommandCode.alignment_tab t p m (o, e, b) =
    signature_digit-IsParsed (char_value t) p (o, e, b)
signature_at-IsParsed true CommandCode.eof t p m (o, e, b) =
    signature_digit-IsParsed (char_value t) p (o, e, b)
signature_at-IsParsed true CommandCode.parameter t p m (o, e, b) =
    (pushed_markers t p.params p.arity m o, e, b)
signature_at-IsParsed true CommandCode.superscript t p m (o, e, b) =
    signature_digit-IsParsed (char_value t) p (o, e, b)
signature_at-IsParsed true CommandCode.subscript t p m (o, e, b) =
    signature_digit-IsParsed (char_value t) p (o, e, b)
signature_at-IsParsed true CommandCode.primitive t p m (o, e, b) =
    signature_digit-IsParsed (char_value t) p (o, e, b)
signature_at-IsParsed true CommandCode.space t p m (o, e, b) =
    signature_digit-IsParsed (char_value t) p (o, e, b)
signature_at-IsParsed true CommandCode.letter t p m (o, e, b) =
    signature_digit-IsParsed (char_value t) p (o, e, b)
signature_at-IsParsed true CommandCode.other t p m (o, e, b) =
    signature_digit-IsParsed (char_value t) p (o, e, b)
signature_at-IsParsed true CommandCode.active t p m (o, e, b) =
    signature_digit-IsParsed (char_value t) p (o, e, b)
signature_at-IsParsed true CommandCode.argument t p m (o, e, b) =
    signature_digit-IsParsed (char_value t) p (o, e, b)
signature_at-IsParsed false CommandCode.escape t p m (o, e, b) =
    (pushed_markers t p.params p.arity m o, e, b)
signature_at-IsParsed false CommandCode.begin_group t p m (o, e, b) = (o, e, b)
signature_at-IsParsed false CommandCode.end_group t p m (o, e, b) =
    (pushed_markers t p.params p.arity m o, e, b)
signature_at-IsParsed false CommandCode.math_shift t p m (o, e, b) =
    (pushed_markers t p.params p.arity m o, e, b)
signature_at-IsParsed false CommandCode.alignment_tab t p m (o, e, b) =
    (pushed_markers t p.params p.arity m o, e, b)
signature_at-IsParsed false CommandCode.eof t p m (o, e, b) =
    (pushed_markers t p.params p.arity m o, e, b)
signature_at-IsParsed false CommandCode.parameter t p m (o, e, b) = (o, e, b)
signature_at-IsParsed false CommandCode.superscript t p m (o, e, b) =
    (pushed_markers t p.params p.arity m o, e, b)
signature_at-IsParsed false CommandCode.subscript t p m (o, e, b) =
    (pushed_markers t p.params p.arity m o, e, b)
signature_at-IsParsed false CommandCode.primitive t p m (o, e, b) =
    (pushed_markers t p.params p.arity m o, e, b)
signature_at-IsParsed false CommandCode.space t p m (o, e, b) =
    (pushed_markers t p.params p.arity m o, e, b)
signature_at-IsParsed false CommandCode.letter t p m (o, e, b) =
    (pushed_markers t p.params p.arity m o, e, b)
signature_at-IsParsed false CommandCode.other t p m (o, e, b) =
    (pushed_markers t p.params p.arity m o, e, b)
signature_at-IsParsed false CommandCode.active t p m (o, e, b) =
    (pushed_markers t p.params p.arity m o, e, b)
signature_at-IsParsed false CommandCode.argument t p m (o, e, b) =
    (pushed_markers t p.params p.arity m o, e, b)

expansion_at-IsParsed :
    (inparam : Bool) (code : CommandCode) (t : Token) (p : MacroParser)
    → is_argument_marker t ≡ none
    → IsParsed p
    → After ⊥ IsParsed (expansion_at inparam code t p)
unfolding expansion_at
expansion_at-IsParsed true CommandCode.escape t p m (o, e, b) =
    expansion_digit-IsParsed (char_value t) p (o, e, b)
expansion_at-IsParsed true CommandCode.begin_group t p m (o, e, b) =
    expansion_digit-IsParsed (char_value t) p (o, e, b)
expansion_at-IsParsed true CommandCode.end_group t p m (o, e, b) =
    expansion_digit-IsParsed (char_value t) p (o, e, b)
expansion_at-IsParsed true CommandCode.math_shift t p m (o, e, b) =
    expansion_digit-IsParsed (char_value t) p (o, e, b)
expansion_at-IsParsed true CommandCode.alignment_tab t p m (o, e, b) =
    expansion_digit-IsParsed (char_value t) p (o, e, b)
expansion_at-IsParsed true CommandCode.eof t p m (o, e, b) =
    expansion_digit-IsParsed (char_value t) p (o, e, b)
expansion_at-IsParsed true CommandCode.parameter t p m (o, e, b) =
    (o, append-MarkersBelow p.exp (t ∷ []) p.arity e (rw m (tt, tt)), b)
expansion_at-IsParsed true CommandCode.superscript t p m (o, e, b) =
    expansion_digit-IsParsed (char_value t) p (o, e, b)
expansion_at-IsParsed true CommandCode.subscript t p m (o, e, b) =
    expansion_digit-IsParsed (char_value t) p (o, e, b)
expansion_at-IsParsed true CommandCode.primitive t p m (o, e, b) =
    expansion_digit-IsParsed (char_value t) p (o, e, b)
expansion_at-IsParsed true CommandCode.space t p m (o, e, b) =
    expansion_digit-IsParsed (char_value t) p (o, e, b)
expansion_at-IsParsed true CommandCode.letter t p m (o, e, b) =
    expansion_digit-IsParsed (char_value t) p (o, e, b)
expansion_at-IsParsed true CommandCode.other t p m (o, e, b) =
    expansion_digit-IsParsed (char_value t) p (o, e, b)
expansion_at-IsParsed true CommandCode.active t p m (o, e, b) =
    expansion_digit-IsParsed (char_value t) p (o, e, b)
expansion_at-IsParsed true CommandCode.argument t p m (o, e, b) =
    expansion_digit-IsParsed (char_value t) p (o, e, b)
expansion_at-IsParsed false CommandCode.escape t p m (o, e, b) =
    (o, append-MarkersBelow p.exp (t ∷ []) p.arity e (rw m (tt, tt)), b)
expansion_at-IsParsed false CommandCode.begin_group t p m (o, e, b) =
    (o, append-MarkersBelow p.exp (t ∷ []) p.arity e (rw m (tt, tt)), b)
expansion_at-IsParsed false CommandCode.end_group t p m (o, e, b) =
    (o, append-MarkersBelow p.exp (t ∷ []) p.arity e (rw m (tt, tt)), b)
expansion_at-IsParsed false CommandCode.math_shift t p m (o, e, b) =
    (o, append-MarkersBelow p.exp (t ∷ []) p.arity e (rw m (tt, tt)), b)
expansion_at-IsParsed false CommandCode.alignment_tab t p m (o, e, b) =
    (o, append-MarkersBelow p.exp (t ∷ []) p.arity e (rw m (tt, tt)), b)
expansion_at-IsParsed false CommandCode.eof t p m (o, e, b) =
    (o, append-MarkersBelow p.exp (t ∷ []) p.arity e (rw m (tt, tt)), b)
expansion_at-IsParsed false CommandCode.parameter t p m (o, e, b) = (o, e, b)
expansion_at-IsParsed false CommandCode.superscript t p m (o, e, b) =
    (o, append-MarkersBelow p.exp (t ∷ []) p.arity e (rw m (tt, tt)), b)
expansion_at-IsParsed false CommandCode.subscript t p m (o, e, b) =
    (o, append-MarkersBelow p.exp (t ∷ []) p.arity e (rw m (tt, tt)), b)
expansion_at-IsParsed false CommandCode.primitive t p m (o, e, b) =
    (o, append-MarkersBelow p.exp (t ∷ []) p.arity e (rw m (tt, tt)), b)
expansion_at-IsParsed false CommandCode.space t p m (o, e, b) =
    (o, append-MarkersBelow p.exp (t ∷ []) p.arity e (rw m (tt, tt)), b)
expansion_at-IsParsed false CommandCode.letter t p m (o, e, b) =
    (o, append-MarkersBelow p.exp (t ∷ []) p.arity e (rw m (tt, tt)), b)
expansion_at-IsParsed false CommandCode.other t p m (o, e, b) =
    (o, append-MarkersBelow p.exp (t ∷ []) p.arity e (rw m (tt, tt)), b)
expansion_at-IsParsed false CommandCode.active t p m (o, e, b) =
    (o, append-MarkersBelow p.exp (t ∷ []) p.arity e (rw m (tt, tt)), b)
expansion_at-IsParsed false CommandCode.argument t p m (o, e, b) =
    (o, append-MarkersBelow p.exp (t ∷ []) p.arity e (rw m (tt, tt)), b)

-- From a parser whose signature has the markers of its parameters in order and whose body has no
-- marker beyond them, any token that is no marker leads both steps of MacroParser to such a parser
-- or to an error; only do_signature_token may panic instead, and only behind 207 parameters.
pub token-IsParsed :
    (t : Token) (p : MacroParser)
    → is_argument_marker t ≡ none
    → IsParsed p
    → After (207 ≤ p.arity) (λ r. IsParsed r.1) (do_signature_token t p)
      × After ⊥ IsParsed (do_expansion_token t p)
unfolding do_signature_token do_expansion_token
token-IsParsed t p m h = (
  signature_at-IsParsed p.inparam (Tokens.command_code t) t p m h,
  expansion_at-IsParsed p.inparam (Tokens.command_code t) t p m h,
)

closed-MarkersBelow :
    (o : Option Token) (ts : List Token) (n : ℕ)
    → IsUnmarked o
    → MarkersBelow ts n
    → MarkersBelow (closed o ts) n
unfolding closed
closed-MarkersBelow none ts n m h = h
closed-MarkersBelow (some t) ts n m h = append-MarkersBelow ts (t ∷ []) n h (rw m (tt, tt))

-- For a parser whose body has no marker beyond its parameters, and at least as many arguments as
-- parameters, consume_rev on the macro that close makes finds every argument and puts them in
-- place of their markers.
pub consume_rev-IsParsed :
    (p : MacroParser) (long outer protected : Bool) (args : List (List Token))
    → IsParsed p
    → p.arity ≤ length args
    → consume_rev (close long outer protected p).expansion args []
      ≡ some (substituted args (close long outer protected p).expansion)
unfolding close
consume_rev-IsParsed p long outer protected args (o, e, b) l =
    let body = closed p.ends_with_brace p.exp in
    let below =
      more-MarkersBelow body p.arity (length args) l
        (closed-MarkersBelow p.ends_with_brace p.exp p.arity b e) in
    subst (λ a. consume_rev body a [] ≡ some (substituted args body)) (append-nil args)
      (consume_rev-substituted body args [] below)
