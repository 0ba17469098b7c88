-- ===== src/Mint/History/Grows.antt =====
-- What no request undoes, spent proofs and issued quotes, as a law of actions, whether they return or
-- raise, that chains, loops and transactions keep.
use nutshell.Base.{
  Option, some, map, find, ◌⊎◌, inl, inr, ◌==◌, ◌&&◌, ap, sym, ◌∙◌, Bool-cases, Bool, true, false,
  List, [], ◌∷◌, ◌≡◌, subst, String, contains, Distinct, arith, if◌then◌else◌,
}
use nutshell.Core.Result.{Result, ok, err}
use nutshell.Mint.State.{
  Db, Event, Mint, ProofRow, Action, check, submit, pure, gets, lift, for_each, transaction,
  finally_do, settle, continue, raise, ◌>>=◌, ◌>>◌,
}
use nutshell.Mint.Crud.{Ys}
use nutshell.Mint.Write.MintQuotes.{is_issued, is_open-found, is_issued-updated}
use nutshell.Core.Quotes.{MintQuote, MintQuoteState, mint_state_eq}
use nutshell.Core.Errors.{value_error}
use nutshell.Mint.Quotes.{get_mint_quote, updated_mint_row, clause}
use nutshell.Mint.Ledger.Minting.{caught, except_do}

-- One table is reached from another by pushing rows whose Y was not there.
pub data Grows (base : List ProofRow) : List ProofRow → Type 0 where
  unchanged : Grows base base
  spend :
      {rows : List ProofRow} (r : ProofRow)
      → Grows base rows
      → contains r.proof.Y (Ys rows) ≡ false
      → Grows base (r ∷ rows)

pub Grows-trans : {xs ys zs : List ProofRow} → Grows xs ys → Grows ys zs → Grows xs zs
Grows-trans g unchanged = g
Grows-trans g (spend r h fresh) = spend r (Grows-trans g h) fresh

pub Grows-Distinct : {xs ys : List ProofRow} → Grows xs ys → Distinct (Ys xs) → Distinct (Ys ys)
Grows-Distinct unchanged d = d
Grows-Distinct (spend r g fresh) d = (fresh, Grows-Distinct g d)

pub Grows-contains :
    {xs ys : List ProofRow} (y : String)
    → Grows xs ys
    → contains y (Ys xs) ≡ true
    → contains y (Ys ys) ≡ true
Grows-contains y unchanged h = h
Grows-contains y (spend r g fresh) h = ground (arith, Grows-contains y g h)

-- From one database to a later one the spent proofs have only grown, and an issued quote has stayed so.
pub record Keeps (before after : Db) : Type 0 where
  pub spent : Grows before.proofs_used after.proofs_used
  pub issued :
      (id : String) → is_issued id before.mint_quotes ≡ true → is_issued id after.mint_quotes ≡ true

pub Keeps-refl : (d : Db) → Keeps d d
Keeps-refl d = record { spent = unchanged; issued = λ id h. h }

pub Keeps-trans : {c d e : Db} → Keeps c d → Keeps d e → Keeps c e
Keeps-trans g h = record {
  spent = Grows-trans g.spent h.spent;
  issued = λ id z. h.issued id (g.issued id z);
}

-- However the action ends, it has kept both.
pub record OnlyGrows {A : Type 0} (m : Action A) : Type 0 where
  pub grows : (s : Mint) → Keeps s.db (m s).1.db

-- An action that leaves both tables as they are.
pub untouched :
    {A : Type 0} {m : Action A}
    → ((s : Mint)
        → (s.db.proofs_used ≡ (m s).1.db.proofs_used) × (s.db.mint_quotes ≡ (m s).1.db.mint_quotes))
    → OnlyGrows m
untouched h = record {
  grows = λ s. record {
    spent = subst (Grows s.db.proofs_used) (h s).0 unchanged;
    issued = λ id z. subst (λ rows. is_issued id rows ≡ true) (h s).1 z;
  };
}

continue-Keeps :
    {A B : Type 0} (f : A → Action B)
    → ((a : A) → OnlyGrows (f a))
    → (r : Result A) (s : Mint) → Keeps s.db (continue f r s).1.db
continue-Keeps f h (ok a) s = (h a).grows s
continue-Keeps f h (err e) s = Keeps-refl s.db

pub >>=-OnlyGrows :
    {A B : Type 0} {m : Action A} {f : A → Action B}
    → OnlyGrows m
    → ((a : A) → OnlyGrows (f a))
    → OnlyGrows (m >>= f)
>>=-OnlyGrows {m = m} {f = f} hm hf = record {
  grows = λ s. Keeps-trans (hm.grows s) (continue-Keeps f hf (m s).0 (m s).1);
}

pub lift-OnlyGrows : {A : Type 0} {r : Result A} → OnlyGrows (lift r)
lift-OnlyGrows = record { grows = λ s. Keeps-refl s.db }

-- A chain that begins with a step that only computes.
pub lift_then-OnlyGrows :
    {A B : Type 0} (r : Result A) {f : A → Action B}
    → ((a : A) → OnlyGrows (f a))
    → OnlyGrows (lift r >>= f)
lift_then-OnlyGrows (ok a) h = h a
lift_then-OnlyGrows (err e) h = record { grows = λ s. Keeps-refl s.db }

pub check-OnlyGrows : (f : Db → Result (Unit {0})) → OnlyGrows (check f)
check-OnlyGrows f = record { grows = λ s. Keeps-refl s.db }

pub submit-OnlyGrows : {e : Event} → OnlyGrows (submit e)
submit-OnlyGrows = record { grows = λ s. Keeps-refl s.db }

pub announced-OnlyGrows : {A : Type 0} (e : Event) (a : A) → OnlyGrows (submit e >> pure a)
announced-OnlyGrows e a = record { grows = λ s. Keeps-refl s.db }

pub gets-OnlyGrows : {A : Type 0} (f : Db → A) → OnlyGrows (gets f)
gets-OnlyGrows f = record { grows = λ s. Keeps-refl s.db }

pub for_each-OnlyGrows :
    {A : Type 0} (f : A → Action (Unit {0}))
    → ((a : A) → OnlyGrows (f a))
    → (xs : List A) → OnlyGrows (for_each f xs)
for_each-OnlyGrows f h [] = record { grows = λ s. Keeps-refl s.db }
for_each-OnlyGrows f h (x ∷ xs) = >>=-OnlyGrows (h x) (λ _. for_each-OnlyGrows f h xs)

settle-Keeps :
    {A : Type 0} (s u : Mint) (r : Result A) → Keeps s.db u.db → Keeps s.db (settle s.db r u).db
settle-Keeps s u (ok a) h = h
settle-Keeps s u (err e) h = Keeps-refl s.db

pub transaction-OnlyGrows : {A : Type 0} {m : Action A} → OnlyGrows m → OnlyGrows (transaction m)
unfolding transaction
transaction-OnlyGrows {m = m} h = record { grows = λ s. settle-Keeps s (m s).1 (m s).0 (h.grows s) }

pub finally_do-OnlyGrows :
    {A : Type 0} {m : Action A} {last : Action (Unit {0})}
    → OnlyGrows m
    → OnlyGrows last
    → OnlyGrows (finally_do m last)
finally_do-OnlyGrows {m = m} h hl = record {
  grows = λ s. Keeps-trans (h.grows s) (hl.grows (m s).1);
}

caught-Keeps :
    {A : Type 0} (handler : Action (Unit {0}))
    → OnlyGrows handler
    → (r : Result A) (t : Mint) → Keeps t.db (caught handler r t).1.db
caught-Keeps handler h (ok a) t = Keeps-refl t.db
caught-Keeps {A} handler h (err e) t =
    (>>=-OnlyGrows {B = A} {f = λ _. raise e} h
        (λ _. record { grows = λ s. Keeps-refl s.db })).grows
      t

pub except_do-OnlyGrows :
    {A : Type 0} {m : Action A} {handler : Action (Unit {0})}
    → OnlyGrows m
    → OnlyGrows handler
    → OnlyGrows (except_do m handler)
except_do-OnlyGrows {m = m} {handler = handler} h hh = record {
  grows = λ s. Keeps-trans (h.grows s) (caught-Keeps handler hh (m s).0 (m s).1);
}

pub if-OnlyGrows :
    {A : Type 0} (b : Bool) {m n : Action A}
    → OnlyGrows m
    → OnlyGrows n
    → OnlyGrows (if b then m else n)
if-OnlyGrows true hm hn = hm
if-OnlyGrows false hm hn = hn

-- An action on a mint quote that was found: it writes the row of that quote, and only when it is not issued.
pub record IsGuarded {A : Type 0} (found : Option MintQuote) (m : Action A) : Type 0 where
  pub spent : (s : Mint) → s.db.proofs_used ≡ (m s).1.db.proofs_used
  pub written :
      (s : Mint)
      → (s.db.mint_quotes ≡ (m s).1.db.mint_quotes)
        ⊎ ((q r : MintQuote) × (found ≡ some q)
            × (mint_state_eq q.state MintQuoteState.issued ≡ false)
            × (r.quote ≡ q.quote)
            × (map (updated_mint_row r) s.db.mint_quotes ≡ (m s).1.db.mint_quotes))

guarded-Keeps :
    {A : Type 0} (p : MintQuote → Bool) (f : Option MintQuote → Action A) (s : Mint)
    → IsGuarded (find p s.db.mint_quotes) (f (find p s.db.mint_quotes))
    → Keeps s.db (f (find p s.db.mint_quotes) s).1.db
guarded-Keeps p f s h = record {
  spent = subst (Grows s.db.proofs_used) (h.spent s) unchanged;
  issued = λ id z. elim (h.written s) [
    | inl same ↦ subst (λ rows. is_issued id rows ≡ true) same z
    | inr (q, r, found, open_, same, written) ↦
        let other = is_open-found id p s.db.mint_quotes q (ground (arith, z)) found open_ in
        subst (λ rows. is_issued id rows ≡ true) written
          (is_issued-updated id r s.db.mint_quotes (ap (λ k. k == id) same ∙ other) z)
  ];
}

where_mint_quote : String → String → String → MintQuote → Bool
where_mint_quote id checking_id request q =
    clause id q.quote && clause checking_id q.checking_id && clause request q.request

get_mint_quote-cases :
    (id c r : String) (s : Mint)
    → (get_mint_quote id c r s ≡ (err value_error, s))
      ⊎ (get_mint_quote id c r s ≡ (ok (find (where_mint_quote id c r) s.db.mint_quotes), s))
unfolding get_mint_quote where_mint_quote
get_mint_quote-cases id c r s = elim (Bool-cases (id == "" && c == "" && r == "")) [
  | inl none_given ↦ inl (ground (arith, none_given))
  | inr given ↦ inr (ground (arith, given))
]

-- A mint quote is looked up and acted on.
pub found-OnlyGrows :
    {A : Type 0} (id c r : String) (f : Option MintQuote → Action A)
    → ((found : Option MintQuote) → IsGuarded found (f found))
    → OnlyGrows (get_mint_quote id c r >>= f)
found-OnlyGrows {A} id c r f h = record {
  grows = λ s. elim (get_mint_quote-cases id c r s) [
    | inl raised ↦
        subst (λ (x : Result (Option MintQuote) × Mint). Keeps s.db (continue f x.0 x.1).1.db)
          (sym raised) (Keeps-refl s.db)
    | inr read ↦
        subst (λ (x : Result (Option MintQuote) × Mint). Keeps s.db (continue f x.0 x.1).1.db)
          (sym read)
          (guarded-Keeps (where_mint_quote id c r) f s
            (h (find (where_mint_quote id c r) s.db.mint_quotes)))
  ];
}
