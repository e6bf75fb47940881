-- ===== src/Gullet/Pieces.antt =====
-- An argument as the user writes it: tokens and groups in braces. What the text of a macro's call looks
-- like, for `read_arguments` of engine/gullet/methods.rs.
use rus_te_x.Prelude.{
  ℕ, Bool, true, false, List, [], ◌∷◌, ◌++◌, ◌≡◌, refl, arith, length, append_assoc, map, sym, ◌-◌,
  ap, leb, take, length-append, take-length-append, drop-length-append,
}
use rus_te_x.Tex.Tokens.{Token, control_sequence, character, primitive}
use rus_te_x.Gullet.Groups.{Kind, begins, ends, blank, noexpand, paragraph, plain, kind, same_name}
use rus_te_x.Gullet.Arguments.{
  same_token, same_tokens, ends_with, last_of, is_begin_group, without_ends,
}
use rus_te_x.Gullet.Balance.{Inside, Allowed}

pub data Piece : Type 0 where
  single : Token → Piece
  -- the opening brace, what stands inside, and the closing brace
  group : Token → List Token → Token → Piece

abbrev pub piece_text : Piece → List Token
piece_text (single t) = t ∷ []
piece_text (group o body c) = o ∷ body ++ c ∷ []

abbrev pub flatten : List Piece → List Token
flatten [] = []
flatten (p ∷ ps) = piece_text p ++ flatten ps

-- An argument that is one group loses its braces.
abbrev pub stripped : List Piece → List Token
stripped [] = []
stripped (single t ∷ ps) = flatten (single t ∷ ps)
stripped (group o body c ∷ []) = body
stripped (group o body c ∷ p ∷ ps) = flatten (group o body c ∷ p ∷ ps)

abbrev pub IsSingle : Bool → Kind → Type 0
IsSingle long begins = ⊥
IsSingle long ends = ⊥
IsSingle long noexpand = ⊥
IsSingle long paragraph = long ≡ true
IsSingle long blank = Unit {0}
IsSingle long plain = Unit {0}

-- the last token of a delimiter
abbrev pub IsLast : Bool → Kind → Type 0
IsLast long begins = Unit {0}
IsLast long k = IsSingle long k

module _ (ne : ℕ) (long : Bool) where
  abbrev pub IsGroup : Token → List Token → Token → Type 0
  IsGroup o body c =
      (kind ne o ≡ begins) × (kind ne c ≡ ends) × Inside ne 0 body × Allowed ne long body

  -- `b` is whether the delimiter ends in a brace: then no groups stand in the argument.
  abbrev pub IsPiece : Bool → Piece → Type 0
  IsPiece b (single t) = IsSingle long (kind ne t)
  IsPiece b (group o body c) = (b ≡ false) × IsGroup o body c

  abbrev pub ArePieces : Bool → List Piece → Type 0
  ArePieces b [] = Unit {0}
  ArePieces b (p ∷ ps) = IsPiece b p × ArePieces b ps

  pub append-ArePieces :
      (b : Bool) (ps qs : List Piece) → ArePieces b ps → ArePieces b qs → ArePieces b (ps ++ qs)
  append-ArePieces b [] qs h k = k
  append-ArePieces b (p ∷ ps) qs (h, hs) k = (h, append-ArePieces b ps qs hs k)

-- At no single token of the pieces, `a` and what stands before that token included, a delimiter ends.
abbrev pub Before : List Token → List Token → List Piece → Type 0
Before delim a [] = Unit {0}
Before delim a (single t ∷ ps) =
    (ends_with (a ++ t ∷ []) delim ≡ false) × Before delim (a ++ t ∷ []) ps
Before delim a (group o body c ∷ ps) = Before delim (a ++ (o ∷ body ++ c ∷ [])) ps

-- the delimiter without its last token
abbrev pub front_of : Token → List Token → List Token
front_of t [] = []
front_of t (u ∷ us) = t ∷ front_of u us

module _ (ne : ℕ) (long : Bool) where
  abbrev pub IsDelimiter : Token → List Token → Type 0
  IsDelimiter d ds =
      ArePieces ne long false (map single (front_of d ds)) × IsLast long (kind ne (last_of d ds))

  -- An argument up to the delimiter `d ∷ ds`.
  abbrev pub IsDelimited : Token → List Token → List Piece → Type 0
  IsDelimited d ds ps =
      IsDelimiter d ds
      × ArePieces ne long (is_begin_group (kind ne (last_of d ds))) ps
      × Before (d ∷ ds) [] (ps ++ map single (front_of d ds))

pub same_name_refl : (a : List ℕ) → same_name a a ≡ true
same_name_refl [] = refl
same_name_refl (x ∷ xs) = rw (same_name_refl xs) ground arith

pub same_token_refl : (t : Token) → same_token t t ≡ true
unfolding same_token
same_token_refl (control_sequence a) = same_name_refl a
same_token_refl (character c code) = ground arith
same_token_refl (primitive a) = ground arith

same_tokens_refl : (ts : List Token) → same_tokens ts ts ≡ true
unfolding same_tokens
same_tokens_refl [] = refl
same_tokens_refl (t ∷ ts) = rw (same_token_refl t, same_tokens_refl ts) refl

length_append_sub : (a d : List Token) → length (a ++ d) - length d ≡ length a
length_append_sub a d = omega (arith, length-append a d)

pub ends_with-append : (a d : List Token) → ends_with (a ++ d) d ≡ true
unfolding ends_with
ends_with-append a d =
    let long_enough : leb (length d) (length (a ++ d)) ≡ true = ground (arith, length-append a d) in
    rw (long_enough, length_append_sub a d, drop-length-append a d) (same_tokens_refl d)

-- what remains of the text when the delimiter is cut off
pub take-append : (a d : List Token) → take (length (a ++ d) - length d) (a ++ d) ≡ a
take-append a d = rw (length_append_sub a d) (take-length-append a d)

pub without_ends-group :
    (o : Token) (body : List Token) (c : Token) → without_ends (o ∷ body ++ c ∷ []) ≡ body
without_ends-group o body c =
    let l : length (body ++ c ∷ []) - 1 ≡ length body =
      omega (arith, length-append body (c ∷ [])) in
    rw l (take-length-append body (c ∷ []))

pub flatten-append : (ps qs : List Piece) → flatten (ps ++ qs) ≡ flatten ps ++ flatten qs
flatten-append [] qs = refl
flatten-append (p ∷ ps) qs =
    rw (flatten-append ps qs) (sym (append_assoc (piece_text p) (flatten ps) (flatten qs)))

pub flatten-singles : (ts : List Token) → flatten (map single ts) ≡ ts
flatten-singles [] = refl
flatten-singles (t ∷ ts) = ap (λ us. t ∷ us) (flatten-singles ts)

pub front_of-last_of : (d : Token) (ds : List Token) → front_of d ds ++ last_of d ds ∷ [] ≡ d ∷ ds
unfolding last_of
front_of-last_of d [] = refl
front_of-last_of d (u ∷ us) = ap (λ ts. d ∷ ts) (front_of-last_of u us)
