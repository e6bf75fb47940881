-- ===== src/Mouth/Readline.antt =====
-- engine/mouth/strings.rs: `readline`, which reads the rest of the line as plain characters.
use rus_te_x.Prelude.{ℕ, ◌+◌, List, [], ◌∷◌, if◌then◌else◌, ◌==◌, drop}
use rus_te_x.Tex.Catcodes.{CommandCode}
use rus_te_x.Tex.Tokens.{Token, character, space_token}
use rus_te_x.Mouth.Input.{InputTokenizer, next_line}

other_token : ℕ → Token
other_token c = if c == 32 then space_token else character c CommandCode.other

-- the loop, over what is left of the line
readline_loop : List ℕ → InputTokenizer → List Token × InputTokenizer
unfolding other_token
readline_loop [] t = ([], t)
readline_loop (c ∷ cs) t =
    let (tks, t') = readline_loop cs (record t { col = t.col + 1 }) in (other_token c ∷ tks, t')

unfoldable pub readline : InputTokenizer → List Token × InputTokenizer
unfolding readline_loop
readline t = let (tks, t') = readline_loop (drop t.col t.current_line) t in (tks, next_line t')
