-- ===== src/Mint/Chains.antt =====
-- Laws of the actions: what a chain that returned has done, and what an action leaves alone.
use nutshell.Base.{◌≡◌, refl, ap, ◌∙◌, sym, subst, ◌⊎◌, inl, inr, List, [], ◌∷◌, arith}
use nutshell.Core.Errors.{Error}
use nutshell.Core.Result.{Result, ok, err}
use nutshell.Mint.State.{
  Db, Mint, Action, continue, ◌>>=◌, ◌>>◌, check, lift, for_each, settle, transaction,
}

pub err-ne-ok : {A : Type 0} (e : Error) (a : A) → err e ≡ ok a → ⊥
err-ne-ok e a h = cc

continue-returns :
    {A B : Type 0} (f : A → Action B) (r : Result A) (s : Mint) {b : B} {t : Mint}
    → continue f r s ≡ (ok b, t)
    → (a : A) × (u : Mint) × (◌≡◌ {A = Result A × Mint} (r, s) (ok a, u)) × (f a u ≡ (ok b, t))
continue-returns f (ok a) s h = (a, s, refl, h)
continue-returns f (err e) s h = absurd (err-ne-ok e _ (ap (λ p. p.0) h))

-- A chain that returned had every step return.
pub >>=-returns :
    {A B : Type 0} (m : Action A) (f : A → Action B) (s : Mint) {b : B} {t : Mint}
    → (m >>= f) s ≡ (ok b, t)
    → (a : A) × (u : Mint) × (m s ≡ (ok a, u)) × (f a u ≡ (ok b, t))
>>=-returns m f s h = continue-returns f (m s).0 (m s).1 h

-- Whether it returns or raises, the action changes the tables alone, and sends no event.
abbrev pub OnlyTables : {A : Type 0} → Action A → Type 0
OnlyTables m = (s : Mint) → (m s).1 ≡ record s { db = (m s).1.db }

continue-OnlyTables :
    {A B : Type 0} (f : A → Action B)
    → ((a : A) → OnlyTables (f a))
    → (r : Result A) (s : Mint) → (continue f r s).1 ≡ record s { db = (continue f r s).1.db }
continue-OnlyTables f h (ok a) s = h a s
continue-OnlyTables f h (err e) s = refl

pub >>=-OnlyTables :
    {A B : Type 0} (m : Action A) (f : A → Action B)
    → OnlyTables m
    → ((a : A) → OnlyTables (f a))
    → OnlyTables (m >>= f)
>>=-OnlyTables m f hm hf s =
    continue-OnlyTables f hf (m s).0 (m s).1
    ∙ ap (λ (x : Mint). record x { db = (continue f (m s).0 (m s).1).1.db }) (hm s)

pub for_each-OnlyTables :
    {A : Type 0} (f : A → Action (Unit {0}))
    → ((a : A) → OnlyTables (f a))
    → (xs : List A) → OnlyTables (for_each f xs)
for_each-OnlyTables f h [] s = refl
for_each-OnlyTables f h (x ∷ xs) s =
    >>=-OnlyTables (f x) (λ _. for_each f xs) (h x) (λ _. for_each-OnlyTables f h xs) s

settle-raises :
    {A : Type 0} (s : Mint) (r : Result A) (u : Mint) (e : Error) (t : Mint)
    → u ≡ record s { db = u.db }
    → ◌≡◌ {A = Result A × Mint} (r, settle s.db r u) (err e, t)
    → t ≡ s
settle-raises s (ok a) u e t same h = cc (ap (λ p. p.0) h)
settle-raises s (err _) u e t same h = ground (arith, ap (λ p. p.1) h)

-- A transaction that raises leaves everything as it was.
pub transaction-raises :
    {A : Type 0} (m : Action A)
    → OnlyTables m
    → (s : Mint) (e : Error) (t : Mint) → transaction m s ≡ (err e, t)
    → t ≡ s
unfolding transaction
transaction-raises m h s e t eq = settle-raises s (m s).0 (m s).1 e t (h s) eq

settle-returns :
    {A : Type 0} (s : Mint) (r : Result A) (u : Mint) (a : A) (t : Mint)
    → ◌≡◌ {A = Result A × Mint} (r, settle s.db r u) (ok a, t)
    → ◌≡◌ {A = Result A × Mint} (r, u) (ok a, t)
settle-returns s (ok _) u a t h = h
settle-returns s (err e) u a t h = absurd (err-ne-ok e a (ap (λ p. p.0) h))

-- A transaction that returns keeps all that its body did.
pub transaction-returns :
    {A : Type 0} (m : Action A) (s : Mint) (a : A) (t : Mint)
    → transaction m s ≡ (ok a, t)
    → m s ≡ (ok a, t)
unfolding transaction
transaction-returns m s a t eq = settle-returns s (m s).0 (m s).1 a t eq

-- Checks and pure steps at the head of a chain leave the state alone.
pub check-returns :
    {B : Type 0} (f : Db → Result (Unit {0})) (k : Action B) (s : Mint) {b : B} {t : Mint}
    → (check f >> k) s ≡ (ok b, t)
    → (f s.db ≡ ok tt) × (k s ≡ (ok b, t))
check-returns f k s {b} {t} h =
    let (_, u, first, rest) = continue-returns (λ _. k) (f s.db) s h in
    (ap (λ p. p.0) first, subst (λ (x : Mint). k x ≡ (ok b, t)) (sym (ap (λ p. p.1) first)) rest)

pub lift-returns :
    {A B : Type 0} (r : Result A) (k : A → Action B) (s : Mint) {b : B} {t : Mint}
    → (lift r >>= k) s ≡ (ok b, t)
    → (a : A) × (r ≡ ok a) × (k a s ≡ (ok b, t))
lift-returns (ok a) k s h = (a, refl, h)
lift-returns (err e) k s h = absurd (err-ne-ok e _ (ap (λ p. p.0) h))

continue-raises :
    {A B : Type 0} (f : A → Action B) (r : Result A) (s : Mint) {e : Error} {t : Mint}
    → continue f r s ≡ (err e, t)
    → ((r ≡ err e) × (s ≡ t)) ⊎ ((a : A) × (r ≡ ok a) × (f a s ≡ (err e, t)))
continue-raises f (ok a) s h = inr (a, refl, h)
continue-raises f (err d) s h = inl (cc (ap (λ p. p.0) h), ap (λ p. p.1) h)

-- A chain that raised did so in its first part or in the rest.
pub >>=-raises :
    {A B : Type 0} (m : Action A) (f : A → Action B) (s : Mint) {e : Error} {t : Mint}
    → (m >>= f) s ≡ (err e, t)
    → (m s ≡ (err e, t)) ⊎ ((a : A) × (u : Mint) × (m s ≡ (ok a, u)) × (f a u ≡ (err e, t)))
>>=-raises m f s h = elim (continue-raises f (m s).0 (m s).1 h) [
  | inl (first, same) ↦ inl (λ i. (first i, same i))
  | inr (a, first, rest) ↦ inr (a, (m s).1, (λ i. (first i, (m s).1)), rest)
]

-- A transaction whose body returns is its body.
pub transaction-ok :
    {A : Type 0} (m : Action A) (s : Mint) (a : A) (t : Mint)
    → m s ≡ (ok a, t)
    → transaction m s ≡ (ok a, t)
unfolding transaction
transaction-ok m s a t e = rw e

-- The rest of a chain, from what its first part returned.
pub >>=-ok :
    {A B : Type 0} (m : Action A) (f : A → Action B) (s : Mint) (a : A) (u : Mint)
    → m s ≡ (ok a, u)
    → (m >>= f) s ≡ f a u
>>=-ok m f s a u e = ap (λ r. continue f r.0 r.1) e

pub >>=-err :
    {A B : Type 0} (m : Action A) (f : A → Action B) (s : Mint) (e : Error) (u : Mint)
    → m s ≡ (err e, u)
    → (m >>= f) s ≡ (err e, u)
>>=-err m f s e u h = ap (λ r. continue f r.0 r.1) h
