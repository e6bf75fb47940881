-- ===== src/Gullet/Signatures.antt =====
-- The loop in `def` of commands/tex.rs on the text of a signature, and `do_expansion_token` of
-- commands/methods.rs on the text of a body.
use rus_te_x.Prelude.{
  ℕ, zero, suc, ◌+◌, ◌-◌, ◌≤◌, ◌<◌, true, false, Option, none, some, List, [], ◌∷◌, ◌++◌, ◌≡◌, refl,
  arith, length, append_assoc, append-nil, length-append, ap, ◌∙◌, subst, ltb, ◌==◌,
}
use rus_te_x.Tex.Catcodes.{CommandCode}
use rus_te_x.Tex.Tokens
use rus_te_x.Tex.Tokens.{Token, control_sequence, character, primitive}
use rus_te_x.Gullet.Result.{TeXError, ok}
use rus_te_x.Gullet.Source.{Mouth, need_iterate-Waits}
use rus_te_x.Gullet.Parser.{
  MacroParser, argument_marker, char_value, signature_digit, signature_at, do_signature_token,
  expansion_digit, expansion_at, do_expansion_token,
}
use rus_te_x.Gullet.Macros.{signature_go, signature_loop}
use rus_te_x.Gullet.Balance.{folded, folded-append}
use rus_te_x.Gullet.Definitions.{
  digit, signature_code, body_code, ArePlain, signature_text, signature_params, AllPlain, BodyItem,
  body_token, body_parameter, body_hash, item_text, item_token, IsItem, AreItems, body_text,
  body_tokens, Ending, brace, hash_brace, ending_text, ending_params, ending_brace, IsEnding,
}

-- the parser where no `#` is pending
abbrev pub ready : ℕ → List Token → Option Token → List Token → MacroParser
ready arity params eb exp = record {
  arity = arity;
  params = params;
  inparam = false;
  ends_with_brace = eb;
  exp = exp;
}

abbrev pending : MacroParser → MacroParser
pending p = record p { inparam = true }

module _ (hash : Token) (h : Tokens.command_code hash ≡ CommandCode.parameter) where
  hash_body : (p : MacroParser) → p.inparam ≡ false → do_expansion_token hash p ≡ ok (pending p)
  unfolding do_expansion_token expansion_at
  hash_body p i = rw (h, i) refl

  hash_signature :
      (p : MacroParser) → p.inparam ≡ false → do_signature_token hash p ≡ ok (false, pending p)
  unfolding do_signature_token signature_at
  hash_signature p i = rw (h, i) refl

module _ (n : ℕ) (params : List Token) (eb : Option Token) where
  item_lem :
      (b : BodyItem) (exp : List Token)
      → IsItem n b
      → folded do_expansion_token (item_text b) (ready n params eb exp)
        ≡ ok (ready n params eb (exp ++ item_token b ∷ []))
  unfolding folded do_expansion_token expansion_at expansion_digit char_value
  item_lem (body_token t) exp (h, m) =
      rw (body_code (Tokens.command_code t) t (ready n params eb exp) h) refl
  item_lem (body_parameter hash i) exp (c, h) =
      let above : ltb 48 (49 + i) ≡ true = ground arith in
      let same : (49 + i) - 49 ≡ i = omega arith in
      let below : ltb i n ≡ true = ground arith in
      rw (hash_body hash c (ready n params eb exp) refl, above, same, below) refl
  item_lem (body_hash hash t) exp (c, c') =
      rw (hash_body hash c (ready n params eb exp) refl, c') refl

  pub body_lem :
      (bs : List BodyItem) (exp : List Token)
      → AreItems n bs
      → folded do_expansion_token (body_text bs) (ready n params eb exp)
        ≡ ok (ready n params eb (exp ++ body_tokens bs))
  unfolding folded
  body_lem [] exp h = rw (append-nil exp) refl
  body_lem (b ∷ bs) exp (h, hs) =
      folded-append do_expansion_token (item_text b) (body_text bs) (ready n params eb exp)
        (ready n params eb (exp ++ item_token b ∷ [])) (item_lem b exp h)
      ∙ (body_lem bs (exp ++ item_token b ∷ []) hs
          ∙ ap (λ ts. ok (ready n params eb ts))
              (append_assoc exp (item_token b ∷ []) (body_tokens bs)))

module _ (M : Mouth) where
  -- The loop is where the parser is `p'`, and `need` of its fuel is left.
  abbrev pub Read : ℕ → ℕ → MacroParser → M.State → MacroParser → List Token → Type 0
  Read need fuel p s p' rest =
      (left : ℕ) × (s' : M.State) × (need ≤ left)
      × (signature_loop M fuel p s ≡ signature_loop M left p' s')
      × M.Waits s' rest

  step_Read :
      (fuel : ℕ) (t : Token) (p p' : MacroParser) (rest : List Token) (s : M.State)
      → do_signature_token t p ≡ ok (false, p')
      → M.Waits s (t ∷ rest)
      → 1 ≤ fuel
      → (s' : M.State) × (left : ℕ) × (fuel ≡ suc left)
        × (signature_loop M fuel p s ≡ signature_loop M left p' s')
        × M.Waits s' rest
  unfolding signature_loop signature_go
  step_Read zero t p p' rest s e w h = absurd (omega arith)
  step_Read (suc fuel) t p p' rest s e w h =
      let (s', n, w') = need_iterate-Waits M TeXError.general s t rest w in
      (s', fuel, refl, rw (n, e) refl, w')

  pub plain_Read :
      (ts : List Token) (need fuel n : ℕ) (params rest : List Token) (s : M.State)
      → ArePlain ts
      → M.Waits s (ts ++ rest)
      → length ts + need ≤ fuel
      → Read need fuel (ready n params none []) s (ready n (params ++ ts) none []) rest
  unfolding do_signature_token
  plain_Read [] need fuel n params rest s h w l =
      (fuel, s, omega arith, rw (append-nil params) refl, w)
  plain_Read (t ∷ ts) need fuel n params rest s (h, hs) w l =
      let p = ready n params none [] in
      let (s', f, fe, e, w') =
        step_Read fuel t p (ready n (params ++ t ∷ []) none []) (ts ++ rest) s
          (signature_code (Tokens.command_code t) t p h) w (omega arith) in
      let (left, s'', le, e', w'') =
        plain_Read ts need f n (params ++ t ∷ []) rest s' hs w' (omega arith) in
      (left, s'', le, rw (e, e', append_assoc params (t ∷ []) ts) refl, w'')

  module _ (hash : Token) (hc : Tokens.command_code hash ≡ CommandCode.parameter) where
    digit_lem :
        (n : ℕ) (params : List Token)
        → n < 207
        → do_signature_token (digit n) (pending (ready n params none []))
          ≡ ok (false, ready (suc n) (params ++ argument_marker n ∷ []) none [])
    unfolding do_signature_token signature_at signature_digit char_value
    digit_lem n params b =
        let above : ltb 48 (49 + n) ≡ true = ground arith in
        let room : ltb (49 + n) 256 ≡ true = ground arith in
        let same : ((49 + n) == (49 + n)) ≡ true = ground arith in
        let next : n + 1 ≡ suc n = omega arith in rw (above, room, same, next) refl

    parameter_Read :
        (ds : List Token) (need fuel n : ℕ) (params rest : List Token) (s : M.State)
        → ArePlain ds
        → M.Waits s (hash ∷ digit n ∷ (ds ++ rest))
        → suc (suc (length ds + need)) ≤ fuel
        → n < 207
        → Read need fuel
            (ready n params none [])
            s
            (ready (suc n) (params ++ argument_marker n ∷ ds) none [])
            rest
    parameter_Read ds need fuel n params rest s h w l b =
        let p = ready n params none [] in
        let (s1, f1, fe1, e1, w1) =
          step_Read fuel hash p (pending p) (digit n ∷ (ds ++ rest)) s
            (hash_signature hash hc p refl) w (omega arith) in
        let (s2, f2, fe2, e2, w2) =
          step_Read f1 (digit n) (pending p)
            (ready (suc n) (params ++ argument_marker n ∷ []) none []) (ds ++ rest) s1
            (digit_lem n params b) w1 (omega arith) in
        let (left, s', le, e3, w3) =
          plain_Read ds need f2 (suc n) (params ++ argument_marker n ∷ []) rest s2 h w2
            (omega arith) in
        (left, s', le, rw (e1, e2, e3, append_assoc params (argument_marker n ∷ []) ds) refl, w3)

    pub parameters_Read :
        (dss : List (List Token)) (need fuel n : ℕ) (params rest : List Token) (s : M.State)
        → AllPlain dss
        → M.Waits s (signature_text hash n dss ++ rest)
        → length (signature_text hash n dss) + need ≤ fuel
        → n + length dss ≤ 207
        → Read need fuel
            (ready n params none [])
            s
            (ready (n + length dss) (params ++ signature_params n dss) none [])
            rest
    parameters_Read [] need fuel n params rest s h w l b =
        let same : n + 0 ≡ n = omega arith in
        (fuel, s, omega arith, rw (append-nil params, same) refl, w)
    parameters_Read (ds ∷ dss) need fuel n params rest s (h, hs) w l b =
        let more = signature_text hash (suc n) dss in
        let text = append_assoc ds more rest in
        let (f, s1, le1, e1, w1) =
          parameter_Read ds (length more + need) fuel n params (more ++ rest) s h
            (subst (λ ts. M.Waits s (hash ∷ digit n ∷ ts)) text w)
            (omega (arith, length-append ds more)) (omega arith) in
        let (left, s2, le2, e2, w2) =
          parameters_Read dss need f (suc n) (params ++ argument_marker n ∷ ds) rest s1 hs w1 le1
            (omega arith) in
        let count : suc n + length dss ≡ n + suc (length dss) = omega arith in
        (
          left,
          s2,
          le2,
          rw
              (
                e1,
                e2,
                count,
                append_assoc params (argument_marker n ∷ ds) (signature_params (suc n) dss),
              )
              refl,
          w2,
        )

module _ (M : Mouth) where
  -- The loop ends at the brace.
  abbrev pub Done : ℕ → MacroParser → M.State → MacroParser → List Token → Type 0
  Done fuel p s p' rest =
      (s' : M.State) × (signature_loop M fuel p s ≡ ok (p', s')) × M.Waits s' rest

  done_lem :
      (fuel : ℕ) (t : Token) (p p' : MacroParser) (rest : List Token) (s : M.State)
      → do_signature_token t p ≡ ok (true, p')
      → M.Waits s (t ∷ rest)
      → 1 ≤ fuel
      → Done fuel p s p' rest
  unfolding signature_loop signature_go
  done_lem zero t p p' rest s e w l = absurd (omega arith)
  done_lem (suc fuel) t p p' rest s e w l =
      let (s', n, w') = need_iterate-Waits M TeXError.general s t rest w in (s', rw (n, e) refl, w')

  pub ending_lem :
      (e : Ending) (fuel n : ℕ) (params rest : List Token) (s : M.State)
      → IsEnding e
      → M.Waits s (ending_text e ++ rest)
      → length (ending_text e) ≤ fuel
      → Done fuel
          (ready n params none [])
          s
          (ready n (params ++ ending_params e) (ending_brace e) [])
          rest
  unfolding do_signature_token signature_at
  ending_lem (brace t) fuel n params rest s h w l =
      let p = ready n params none [] in
      done_lem fuel t p (ready n (params ++ []) none []) rest s (rw (h, append-nil params) refl) w l
  ending_lem (hash_brace hash t) fuel n params rest s (hc, h) w l =
      let p = ready n params none [] in
      let (s1, f, fe, e, w1) =
        step_Read M fuel hash p (pending p) (t ∷ rest) s (hash_signature hash hc p refl) w
          (omega arith) in
      let (s2, e', w2) =
        done_lem f t (pending p) (ready n (params ++ t ∷ []) (some t) []) rest s1 (rw h refl) w1
          (omega arith) in
      (s2, rw (e, e') refl, w2)
