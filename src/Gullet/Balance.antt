-- ===== src/Gullet/Balance.antt =====
-- Balanced text, and `read_until_endgroup` on it.
use rus_te_x.Prelude.{
  ℕ, zero, suc, ◌<◌, Bool, true, false, List, [], ◌∷◌, ◌++◌, ◌≡◌, refl, arith, length, append_assoc,
  append-nil, ap,
}
use rus_te_x.Tex.Tokens.{Token}
use rus_te_x.Gullet.Result.{TeXError, Result, ok, ◌>>=◌, ok-injective, >>=-ok}
use rus_te_x.Gullet.Source.{Mouth, need_iterate-Waits}
use rus_te_x.Gullet.Groups.{
  Kind, begins, ends, blank, noexpand, paragraph, plain, kind, until_at, until_loop,
  read_until_endgroup,
}
use rus_te_x.Gullet.Arguments.{collected, collect, group_into}

-- what a token of the kind does to the number of open groups
abbrev pub InsideAt : Kind → ℕ → (ℕ → Type 0) → Type 0
InsideAt begins n P = P (suc n)
InsideAt ends zero P = ⊥
InsideAt ends (suc n) P = P n
InsideAt noexpand n P = ⊥
InsideAt k n P = P n

-- The text closes `n` groups that are open before it and opens none that it does not close, and it
-- holds no \noexpand.
abbrev pub Inside : ℕ → ℕ → List Token → Type 0
Inside ne n [] = n ≡ 0
Inside ne n (t ∷ ts) = InsideAt (kind ne t) n (λ m. Inside ne m ts)

-- A macro that is not \long takes no \par.
abbrev pub forbidden : Bool → Kind → Bool
forbidden false paragraph = true
forbidden long k = false

abbrev pub Allowed : ℕ → Bool → List Token → Type 0
Allowed ne long [] = Unit {0}
Allowed ne long (t ∷ ts) = (forbidden long (kind ne t) ≡ false) × Allowed ne long ts

-- the function over all tokens of a text
unfoldable pub folded : {A : Type 0} → (Token → A → Result A) → List Token → A → Result A
folded cont [] a = ok a
folded cont (t ∷ ts) a = do a' ← cont t a; folded cont ts a'

pub folded-append :
    {A : Type 0} (cont : Token → A → Result A) (xs ys : List Token) (a b : A)
    → folded cont xs a ≡ ok b
    → folded cont (xs ++ ys) a ≡ folded cont ys b
unfolding folded
folded-append cont [] ys a b h = ap (λ c. folded cont ys c) (ok-injective h)
folded-append cont (x ∷ xs) ys a b h =
    let (c, f, e) = >>=-ok (cont x a) (folded cont xs) h in rw e (folded-append cont xs ys c b f)

module _ (ne : ℕ) (M : Mouth) {A : Type 0} (cont : Token → A → Result A) where
  until_at-InsideAt :
      (rec : ℕ → A → M.State → Result (Token × A × M.State)) (k : Kind) (n : ℕ) (P : ℕ → Type 0)
      (t : Token) (a b : A) (s : M.State)
      → InsideAt k n P
      → cont t a ≡ ok b
      → (m : ℕ) × P m × (until_at ne M cont rec k n t a s ≡ rec m b s)
  unfolding until_at
  until_at-InsideAt rec begins n P t a b s i e = (suc n, i, rw e refl)
  until_at-InsideAt rec ends zero P t a b s i e = elim i [ ]
  until_at-InsideAt rec ends (suc n) P t a b s i e = (n, i, rw e refl)
  until_at-InsideAt rec blank n P t a b s i e = (n, i, rw e refl)
  until_at-InsideAt rec noexpand n P t a b s i e = elim i [ ]
  until_at-InsideAt rec paragraph n P t a b s i e = (n, i, rw e refl)
  until_at-InsideAt rec plain n P t a b s i e = (n, i, rw e refl)

  pub until_loop-Inside :
      (ts : List Token) (n fuel : ℕ) (a b : A) (r : Token) (rest : List Token) (s : M.State)
      → Inside ne n ts
      → folded cont ts a ≡ ok b
      → kind ne r ≡ ends
      → M.Waits s (ts ++ r ∷ rest)
      → length ts < fuel
      → (s' : M.State) × (until_loop ne M cont fuel n a s ≡ ok (r, b, s')) × M.Waits s' rest
  unfolding until_loop until_at folded
  until_loop-Inside [] n zero a b r rest s i f k w h = absurd (omega arith)
  until_loop-Inside [] n (suc fuel) a b r rest s i f k w h =
      let (s', e, w') = need_iterate-Waits M TeXError.file_ended_while_scanning_use_of s r rest w in
      (s', rw (e, k, i) (ap (λ x. ok (r, x, s')) (ok-injective f)), w')
  until_loop-Inside (t ∷ ts) n zero a b r rest s i f k w h = absurd (omega arith)
  until_loop-Inside (t ∷ ts) n (suc fuel) a b r rest s i f k w h =
      let (s', e, w') =
        need_iterate-Waits M TeXError.file_ended_while_scanning_use_of s t (ts ++ r ∷ rest) w in
      let (a', f', c) = >>=-ok (cont t a) (folded cont ts) f in
      let (m, i', u) =
        until_at-InsideAt (until_loop ne M cont fuel) (kind ne t) n (λ m. Inside ne m ts) t a a' s'
          i c in
      let (s'', l, w'') = until_loop-Inside ts m fuel a' b r rest s' i' f' k w' (omega arith) in
      (s'', rw (e, u) l, w'')

module _ (ne : ℕ) (M : Mouth) (long : Bool) where
  pub collected-Allowed :
      (long : Bool) (k : Kind) (t : Token) (a : List Token)
      → forbidden long k ≡ false
      → collected long k t a ≡ ok (a ++ t ∷ [])
  unfolding collected
  collected-Allowed false paragraph t a h = cc
  collected-Allowed false begins t a h = refl
  collected-Allowed false ends t a h = refl
  collected-Allowed false blank t a h = refl
  collected-Allowed false noexpand t a h = refl
  collected-Allowed false plain t a h = refl
  collected-Allowed true k t a h = refl

  folded-collect-Allowed :
      (ts a : List Token) → Allowed ne long ts → folded (collect ne M long) ts a ≡ ok (a ++ ts)
  unfolding folded collect
  folded-collect-Allowed [] a h = rw (append-nil a) refl
  folded-collect-Allowed (t ∷ ts) a (h, hs) =
      rw
        (
          collected-Allowed long (kind ne t) t a h,
          folded-collect-Allowed ts (a ++ t ∷ []) hs,
          append_assoc a (t ∷ []) ts,
        )
        refl

  pub group_into-Inside :
      (ts : List Token) (fuel : ℕ) (a : List Token) (r : Token) (rest : List Token) (s : M.State)
      → Inside ne 0 ts
      → Allowed ne long ts
      → kind ne r ≡ ends
      → M.Waits s (ts ++ r ∷ rest)
      → length ts < fuel
      → (s' : M.State) × (group_into ne M long fuel a s ≡ ok (r, a ++ ts, s')) × M.Waits s' rest
  unfolding group_into read_until_endgroup
  group_into-Inside ts fuel a r rest s i p k w h =
      until_loop-Inside ne M (collect ne M long) ts 0 fuel a (a ++ ts) r rest s i
        (folded-collect-Allowed ts a p) k w h
