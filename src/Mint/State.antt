-- ===== src/Mint/State.antt =====
-- What the mint keeps: its database tables, the events that it has sent to its subscribers, and the
-- flag `disable_melt` of the class `Ledger`. A call is an action on that state which returns or raises.
use nutshell.Base.{ℕ, ℤ, String, Bool, Option, List, [], ◌∷◌, ◌≡◌, if◌then◌else◌, eqb_ℤ}
use nutshell.Core.Errors.{Error, key_error}
use nutshell.Core.Result.{Result, ok, err, Dict}
use nutshell.Core.Currency.{CurrencyUnit}
use nutshell.Core.Proofs.{Proof, ProofSpentState}
use nutshell.Core.Quotes.{MintQuote, MeltQuote}

-- A row of `proofs_used` or `proofs_pending`.
pub record ProofRow : Type 0 where
  pub proof : Proof
  pub melt_quote : Option String

-- A row of `promises`; it is a blinded message until `c_` is set, and a signature after that.
pub record Promise : Type 0 where
  pub id : String
  pub amount : ℤ
  pub b_ : String
  pub c_ : Option String
  pub dleq : String × String
  pub mint_quote : Option String
  pub melt_quote : Option String

-- The tables, newest row first. The columns `balance` and `fees_paid` of the table `keysets` are
-- functions of the keyset's id; its other columns change only in a rotation, on which see Mint/Keysets.
pub record Db : Type 0 where
  pub proofs_used : List ProofRow
  pub proofs_pending : List ProofRow
  pub promises : List Promise
  pub mint_quotes : List MintQuote
  pub melt_quotes : List MeltQuote
  pub balance : String → ℤ
  pub fees_paid : String → ℤ

-- `ProofState`
pub record ProofState : Type 0 where
  pub Y : String
  pub state : ProofSpentState
  pub witness : Option String

pub data Event : Type 0 where
  proof_event : ProofState → Event
  mint_quote_event : MintQuote → Event
  melt_quote_event : MeltQuote → Event

pub record Mint : Type 0 where
  pub db : Db
  pub events : List Event
  pub disable_melt : Bool

-- A keyset as the mint holds it in memory, with the private key of each amount.
pub record MintKeyset : Type 0 where
  pub id : String
  pub unit : CurrencyUnit
  pub active : Bool
  pub input_fee_ppk : ℕ
  pub private_keys : List (ℤ × String)

-- `keyset.private_keys[amount]`
abbrev pub private_key : ℤ → List (ℤ × String) → Result String
private_key a [] = err key_error
private_key a ((b, key) ∷ keys) = if eqb_ℤ b a then ok key else private_key a keys

-- `self.keysets`
abbrev pub Keysets : Type 0
Keysets = Dict MintKeyset

-- `init_keysets` files every keyset under its own id.
abbrev pub IsKeyed : Keysets → Type 0
IsKeyed [] = Unit
IsKeyed ((k, m) ∷ ks) = (m.id ≡ k) × IsKeyed ks

abbrev pub Action : Type 0 → Type 0
Action A = Mint → Result A × Mint

module _ {A : Type 0} where
  abbrev pub lift : Result A → Action A
  lift r s = (r, s)

  abbrev pub pure : A → Action A
  pure a s = (ok a, s)

  abbrev pub raise : Error → Action A
  raise e s = (err e, s)

  abbrev pub gets : (Db → A) → Action A
  gets f s = (ok (f s.db), s)

-- What a step hands on: an exception skips the rest.
abbrev pub continue : {A B : Type 0} → (A → Action B) → Result A → Mint → Result B × Mint
continue f (ok a) s = f a s
continue f (err e) s = raise e s

infixl 5 ◌>>=◌ ◌>>◌
abbrev pub ◌>>=◌ : {A B : Type 0} → Action A → (A → Action B) → Action B
◌>>=◌ m f s = let (r, s') = m s in continue f r s'

abbrev pub ◌>>◌ : {B : Type 0} → Action (Unit {0}) → Action B → Action B
m >> k = m >>= λ _. k

abbrev pub modify : (Db → Db) → Action (Unit {0})
modify f s = (ok tt, record s { db = f s.db })

-- A check that reads the tables.
abbrev pub check : (Db → Result (Unit {0})) → Action (Unit {0})
check f s = (f s.db, s)

-- `self.events.submit(event)`
abbrev pub submit : Event → Action (Unit {0})
submit e s = (ok tt, record s { events = e ∷ s.events })

abbrev pub for_each {ℓ} : {A : Type ℓ} → (A → Action (Unit {0})) → List A → Action (Unit {0})
for_each f [] = pure tt
for_each f (x ∷ xs) = f x >> for_each f xs

-- The state after `async with self.db.get_connection()`: an exception rolls the tables back, but
-- not the events that were sent.
abbrev pub settle : {A : Type 0} → Db → Result A → Mint → Mint
settle before (ok a) s = s
settle before (err e) s = record s { db = before }

unfoldable pub transaction : {A : Type 0} → Action A → Action A
transaction m s = let (r, s') = m s in (r, settle s.db r s')

-- The value of `try: … finally: …`: an exception of the last part wins.
abbrev pub outcome : {A : Type 0} → Result A → Result (Unit {0}) → Result A
outcome r (ok _) = r
outcome r (err e) = err e

-- `try: m finally: last`
abbrev pub finally_do : {A : Type 0} → Action A → Action (Unit {0}) → Action A
finally_do m last s = let (r, s') = m s in let (r', s'') = last s' in (outcome r r', s'')
