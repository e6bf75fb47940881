-- ===== src/Gullet/RoundTrip.antt =====
-- A macro that is defined by a text and called by another: `def` of commands/tex.rs and `do_macro` of
-- engine/gullet.rs together.
use rus_te_x.Prelude.{
  ℕ, ◌+◌, ◌≤◌, ◌<◌, Bool, true, none, List, [], ◌∷◌, ◌++◌, ◌≡◌, refl, arith, length, append_assoc,
  append-nil, length-append, sym, ap, ◌∙◌, subst, map,
}
use rus_te_x.Tex.Catcodes.{CommandCode}
use rus_te_x.Tex.Tokens
use rus_te_x.Tex.Tokens.{Token, is_argument_marker, control_sequence, character, primitive}
use rus_te_x.Gullet.Result.{ok}
use rus_te_x.Gullet.Source.{Mouth}
use rus_te_x.Gullet.Groups.{ends, kind, read_until_endgroup}
use rus_te_x.Gullet.Parser.{MacroParser, Macro, new, do_expansion_token, close, closed}
use rus_te_x.Gullet.Macros.{signature_loop, read_macro, do_macro}
use rus_te_x.Gullet.Balance.{Inside, until_loop-Inside}
use rus_te_x.Gullet.Definitions.{
  body_result, item_result, IsItem, item_token, body_token, body_parameter, body_hash, ArePlain,
  AllPlain, signature_text, signature_params, BodyItem, AreItems, body_text, body_tokens, Ending,
  brace, hash_brace, ending_text, ending_params, ending_brace, IsEnding, defined, definition_text,
}
use rus_te_x.Gullet.Calls.{Slot, slots_text, slots_params, slot_argument, AreSlots, NoMarkers}
use rus_te_x.Gullet.MacroCalls.{
  argument_for, substituted, MarkerBelow, MarkersBelow, do_macro-Slots,
}
use rus_te_x.Gullet.Arguments.{same_tokens}
use rus_te_x.Gullet.Signatures.{ready, body_lem, plain_Read, parameters_Read, ending_lem}

closed-ending : (e : Ending) (ts : List Token) → closed (ending_brace e) ts ≡ ts ++ ending_params e
unfolding closed
closed-ending (brace t) ts = sym (append-nil ts)
closed-ending (hash_brace hash t) ts = refl

module _ (ne : ℕ) (M : Mouth) (hash : Token) (hc : Tokens.command_code hash ≡ CommandCode.parameter)
    (ls : List Token) (dss : List (List Token)) (e : Ending) (bs : List BodyItem) where
  abbrev pub IsDefinition : Type 0
  IsDefinition =
      ArePlain ls
      × AllPlain dss
      × IsEnding e
      × AreItems (length dss) bs
      × Inside ne 0 (body_text bs)

  -- the parser behind the signature
  abbrev parsed : MacroParser
  parsed =
      ready (length dss) ((ls ++ signature_params 0 dss) ++ ending_params e) (ending_brace e) []

  signature-definition :
      (fuel : ℕ) (rest : List Token) (s : M.State)
      → IsDefinition
      → M.Waits s (ls ++ (signature_text hash 0 dss ++ (ending_text e ++ rest)))
      → length ls + (length (signature_text hash 0 dss) + length (ending_text e)) ≤ fuel
      → length dss ≤ 207
      → (s' : M.State) × (signature_loop M fuel new s ≡ ok (parsed, s')) × M.Waits s' rest
  unfolding new
  signature-definition fuel rest s (pl, al, en, it, is) w h few =
      let texts = length (signature_text hash 0 dss) in
      let (f1, s1, l1, e1, w1) =
        plain_Read M ls (texts + length (ending_text e)) fuel 0 []
          (signature_text hash 0 dss ++ (ending_text e ++ rest)) s pl w h in
      let (f2, s2, l2, e2, w2) =
        parameters_Read M hash hc dss (length (ending_text e)) f1 0 ls (ending_text e ++ rest) s1 al
          w1 l1 (omega arith) in
      let (s3, e3, w3) =
        ending_lem M e f2 (length dss) (ls ++ signature_params 0 dss) rest s2 en w2 l2 in
      let n : 0 + length dss ≡ length dss = omega arith in (s3, rw (e1, e2, n, e3) refl, w3)

  -- Where the mouth gives the text of a definition with at most 207 well-formed parameters and a
  -- balanced body, then rest, and with more fuel than its tokens: def's reading gives the macro
  -- that was written, with markers for #1, #2 and so on, one # for ##, and the brace of #{ in the
  -- signature and behind the body; rest is left.
  pub read_macro-definition :
      (long outer protected : Bool) (fuel : ℕ) (r : Token) (rest : List Token) (s : M.State)
      → IsDefinition
      → kind ne r ≡ ends
      → M.Waits s (definition_text hash ls dss e bs (r ∷ rest))
      → length (definition_text hash ls dss e bs []) < fuel
      → length dss ≤ 207
      → (s' : M.State) × (read_macro ne M fuel long outer protected s
          ≡ ok (defined long outer protected ls dss e bs, s'))
        × M.Waits s' rest
  unfolding read_macro read_until_endgroup close
  read_macro-definition long outer protected fuel r rest s d k w h few =
      let l1 =
        length-append ls (signature_text hash 0 dss ++ (ending_text e ++ (body_text bs ++ []))) in
      let l2 = length-append (signature_text hash 0 dss) (ending_text e ++ (body_text bs ++ [])) in
      let l3 = length-append (ending_text e) (body_text bs ++ []) in
      let l4 = length-append (body_text bs) [] in
      let (s1, e1, w1) =
        signature-definition fuel (body_text bs ++ r ∷ rest) s d w (omega (arith, l1, l2, l3, l4))
          few in
      let p =
        ready (length dss) ((ls ++ signature_params 0 dss) ++ ending_params e) (ending_brace e)
          (body_tokens bs) in
      let (pl, al, en, it, is) = d in
      let (s2, e2, w2) =
        until_loop-Inside ne M do_expansion_token (body_text bs) 0 fuel parsed p r rest s1 is
          (body_lem (length dss) ((ls ++ signature_params 0 dss) ++ ending_params e)
            (ending_brace e) bs [] it)
          k w1 (omega (arith, l1, l2, l3, l4)) in
      (s2, rw (e1, e2, closed-ending e (body_tokens bs)) refl, w2)

abbrev NotArgument : CommandCode → Type 0
NotArgument CommandCode.argument = ⊥
NotArgument code = Unit {0}

character_lem :
    (c : ℕ) (code : CommandCode)
    → NotArgument code
    → is_argument_marker {CS = List ℕ} (character c code) ≡ none
unfolding is_argument_marker
character_lem c CommandCode.escape h = refl
character_lem c CommandCode.begin_group h = refl
character_lem c CommandCode.end_group h = refl
character_lem c CommandCode.math_shift h = refl
character_lem c CommandCode.alignment_tab h = refl
character_lem c CommandCode.eof h = refl
character_lem c CommandCode.parameter h = refl
character_lem c CommandCode.superscript h = refl
character_lem c CommandCode.subscript h = refl
character_lem c CommandCode.primitive h = refl
character_lem c CommandCode.space h = refl
character_lem c CommandCode.letter h = refl
character_lem c CommandCode.other h = refl
character_lem c CommandCode.active h = refl
character_lem c CommandCode.argument h = elim h [ ]

unmarked : (t : Token) → NotArgument (Tokens.command_code t) → is_argument_marker t ≡ none
unfolding is_argument_marker Tokens.command_code
unmarked (control_sequence name) h = refl
unmarked (character c code) h = character_lem c code h
unmarked (primitive id) h = refl

-- A `#` is no marker.
parameter_lem :
    (t : Token) → Tokens.command_code t ≡ CommandCode.parameter → is_argument_marker t ≡ none
parameter_lem t h = unmarked t (subst (λ c. NotArgument c) (sym h) tt)

brace_lem :
    (t : Token) → Tokens.command_code t ≡ CommandCode.begin_group → is_argument_marker t ≡ none
brace_lem t h = unmarked t (subst (λ c. NotArgument c) (sym h) tt)

ending_substituted :
    (args : List (List Token)) (n : ℕ) (e : Ending)
    → IsEnding e
    → MarkersBelow (ending_params e) n × (substituted args (ending_params e) ≡ ending_params e)
ending_substituted args n (brace t) h = (tt, refl)
ending_substituted args n (hash_brace hash t) (c, h) =
    (rw (brace_lem t h) (tt, tt), rw (brace_lem t h) refl)

item_marker :
    (n : ℕ) (b : BodyItem) → IsItem n b → MarkerBelow (is_argument_marker (item_token b)) n
unfolding is_argument_marker
item_marker n (body_token t) (h, m) = rw m tt
item_marker n (body_parameter hash i) (c, h) = h
item_marker n (body_hash hash t) (c, c') = rw (parameter_lem t c') tt

item_substituted :
    (n : ℕ) (args : List (List Token)) (b : BodyItem)
    → IsItem n b
    → argument_for (is_argument_marker (item_token b)) args (item_token b) ≡ item_result args b
unfolding is_argument_marker
item_substituted n args (body_token t) (h, m) = rw m refl
item_substituted n args (body_parameter hash i) (c, h) = refl
item_substituted n args (body_hash hash t) (c, c') = rw (parameter_lem t c') refl

body_markers :
    (n : ℕ) (bs : List BodyItem) (ts : List Token)
    → AreItems n bs
    → MarkersBelow ts n
    → MarkersBelow (body_tokens bs ++ ts) n
body_markers n [] ts h k = k
body_markers n (b ∷ bs) ts (h, hs) k = (item_marker n b h, body_markers n bs ts hs k)

body_substituted :
    (n : ℕ) (args : List (List Token)) (bs : List BodyItem) (ts : List Token)
    → AreItems n bs
    → substituted args (body_tokens bs ++ ts) ≡ body_result args bs ++ substituted args ts
body_substituted n args [] ts h = refl
body_substituted n args (b ∷ bs) ts (h, hs) =
    rw (item_substituted n args b h, body_substituted n args bs ts hs)
      (sym (append_assoc (item_result args b) (body_result args bs) (substituted args ts)))

module _ (ne : ℕ) (M : Mouth) (hash : Token) (hc : Tokens.command_code hash ≡ CommandCode.parameter)
    (ls : List Token) (dss : List (List Token)) (e : Ending) (bs : List BodyItem) where
  -- The text `os`, then the arguments, fits the parameters of the definition.
  abbrev pub IsUse : Bool → List Token → List Token → List Slot → Type 0
  IsUse long ls' os ss =
      ((ls ++ signature_params 0 dss) ++ ending_params e ≡ ls' ++ slots_params 0 ss)
      × (length dss ≡ length ss)
      × (length ss ≤ 9)
      × (same_tokens os ls' ≡ true)
      × NoMarkers ls'
      × AreSlots ne long ss

  -- what the call gives
  abbrev pub use_result : List Slot → List Token
  use_result ss = body_result (map slot_argument ss) bs ++ ending_params e

  -- Where the mouth gives the text of a definition with well-formed parameters and a balanced
  -- body, then literal tokens and at most nine arguments that fit the parameters, then rest, and
  -- with enough fuel: def's reading and do_macro both succeed, and the mouth then gives the body
  -- with the arguments in place of #1 to #9, ## as one #, and rest.
  pub do_macro-read_macro :
      (long outer protected : Bool) (fuel : ℕ) (r : Token) (ls' os : List Token) (ss : List Slot)
      (rest : List Token) (s : M.State)
      → IsDefinition ne M hash hc ls dss e bs
      → kind ne r ≡ ends
      → IsUse long ls' os ss
      → M.Waits s (definition_text hash ls dss e bs (r ∷ ((os ++ slots_text ss) ++ rest)))
      → length (definition_text hash ls dss e bs []) + length (slots_text ss) < fuel
      → (m : Macro) × (s1 : M.State) × (s2 : M.State) × (read_macro ne M fuel long outer protected s
          ≡ ok (m, s1))
        × (do_macro ne M fuel m s1 ≡ ok s2)
        × M.Waits s2 (use_result ss ++ rest)
  do_macro-read_macro long outer protected fuel r ls' os ss rest s d k
        (ps, ar, nine, eq, marks, slots) w h =
      let m = defined long outer protected ls dss e bs in
      let (pl, al, en, it, is) = d in
      let args = map slot_argument ss in
      let (s1, e1, w1) =
        read_macro-definition ne M hash hc ls dss e bs long outer protected fuel r
          ((os ++ slots_text ss) ++ rest) s d k w (omega arith) (omega arith) in
      let (below, same) = ending_substituted args (length dss) e en in
      let (s2, e2, w2) =
        do_macro-Slots ne M fuel m ls' os ss rest s1 ps ar nine
          (body_markers (length dss) bs (ending_params e) it below) eq marks slots w1
          (omega arith) in
      let result : substituted args m.expansion ≡ use_result ss =
        body_substituted (length dss) args bs (ending_params e) it
        ∙ ap (λ ts. body_result args bs ++ ts) same in
      (m, s1, s2, e1, e2, subst (λ ts. M.Waits s2 (ts ++ rest)) result w2)
