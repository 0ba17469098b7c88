-- ===== src/Mint/Ledger/Issued.antt =====
-- What the parts of `mint` have done when they return: the signatures issued on the locked quote, and
-- the quote marked as issued.
use nutshell.Base.{
  ◌+ℤ◌, String, true, false, Option, none, some, List, map, ◌==◌, ◌≡◌, ap, sym, ◌∙◌, arith, inl,
  inr, eq_refl, Option-cases, eqb_ℤ, eqb_ℤ→eq,
}
use nutshell.Core.Currency.{CurrencyUnit, unit_name}
use nutshell.Core.Errors.{transaction_error, quote_signature_invalid}
use nutshell.Core.Proofs.{BlindedMessage, BlindedSignature, sum_outputs, outputs_in}
use nutshell.Core.Quotes.{MintQuote, MintQuoteState, set_mint_state}
use nutshell.Core.Result.{Result, ok, err, require, raise_if, require-eq-ok, raise_if-eq-ok}
use nutshell.Mint.State.{Db, Mint, IsKeyed, Action, transaction, ◌>>=◌, raise, pure}
use nutshell.Mint.Chains.{>>=-returns, lift-returns, transaction-returns, err-ne-ok}
use nutshell.Mint.Quotes.{get_mint_quote, update_mint_quote, updated_mint_row}
use nutshell.Mint.Verification.{Env}
use nutshell.Mint.Verification.Quotes.{Backends, verify_mint_quote_witness, is_expired}
use nutshell.Mint.Write.Quotes.{unset_mint_quote_pending, unlock_mint_quote}
use nutshell.Mint.Write.MintQuotes.{
  is_issued, is_issued-issued, has_row-row_of, row_of, row_of-updated, row_of-quote,
  after_get_mint_quote,
}
use nutshell.Mint.Ledger.Promise.{Computed, signature_of, compute_promises}
use nutshell.Mint.Ledger.Issue.{
  store_blinded_messages, store_blinded_messages_in, sign_blinded_messages, sign_all, bound,
}
use nutshell.Mint.Ledger.Loops.{store_loop-returns, sign_all-returns}
use nutshell.Mint.Ledger.SwapBody.{computed_in-outputs_in}
use nutshell.Mint.Ledger.Minting.{caught, mint_body, release}

-- The exception that a handler sees is raised again.
pub caught-returns :
    {A : Type 0} (handler : Action (Unit {0})) (r : Result A) (t u : Mint) (a : A)
    → caught handler r t ≡ (ok a, u)
    → ◌≡◌ {A = Result A × Mint} (r, t) (ok a, u)
caught-returns handler (ok b) t u a e = e
caught-returns handler (err d) t u a e =
    let (_, v, _, raised) = >>=-returns handler (λ _. raise d) t e in
    absurd (err-ne-ok d a (ap (λ p. p.0) raised))

pub ok-inj : {A : Type 0} {x y : A} → ok x ≡ ok y → x ≡ y
ok-inj h = cc

-- The row of an issued quote.
pub record IsIssued (id : String) (before after : Mint) : Type 0 where
  pub row : MintQuote
  pub stored : row_of id after.db.mint_quotes ≡ some row
  pub issued : row.state ≡ MintQuoteState.issued
  pub closed : is_issued id after.db.mint_quotes ≡ true
  pub others : after.db ≡ record before.db { mint_quotes = after.db.mint_quotes }

unlock-IsIssued :
    (id : String) (s t : Mint) (q : MintQuote)
    → unlock_mint_quote MintQuoteState.issued (row_of id s.db.mint_quotes) s ≡ (ok q, t)
    → IsIssued id s t
unfolding unlock_mint_quote set_mint_state update_mint_quote
unlock-IsIssued id s t q e = elim (Option-cases (row_of id s.db.mint_quotes)) [
  | inl missing ↦ absurd (ground arith)
  | inr (r, found) ↦
      let now : (q ≡ record r { state = MintQuoteState.issued })
          × (t ≡ record s {
            db = record s.db { mint_quotes = map (updated_mint_row q) s.db.mint_quotes };
          }) =
        ground arith in
      let (returned, others) = now in
      record {
        row = q;
        stored = ground (
          arith,
          row_of-updated id q s.db.mint_quotes,
          row_of-quote id s.db.mint_quotes r,
          eq_refl id,
        );
        issued = ground arith;
        closed =
            ap (λ (x : Mint). is_issued id x.db.mint_quotes) others
            ∙ is_issued-issued id q s.db.mint_quotes
                (ground (arith, row_of-quote id s.db.mint_quotes r)) (ground arith)
                (has_row-row_of id s.db.mint_quotes r found);
        others = ground arith;
      }
]

pub release-IsIssued :
    (id : String) (s t : Mint)
    → (id == "") ≡ false
    → release id MintQuoteState.issued s ≡ (ok tt, t)
    → IsIssued id s t
unfolding unset_mint_quote_pending
release-IsIssued id s t named e =
    let (q, u, e₁, e₂) =
      >>=-returns (unset_mint_quote_pending id MintQuoteState.issued) (λ _. pure tt) s e in
    let (q', v, e₃, e₄) =
      >>=-returns
        (transaction (get_mint_quote id "" "" >>= unlock_mint_quote MintQuoteState.issued)) _ s
        e₁ in
    let issued = unlock-IsIssued id s v q' (
      after_get_mint_quote id (unlock_mint_quote MintQuoteState.issued) s named (
        transaction-returns (get_mint_quote id "" "" >>= unlock_mint_quote MintQuoteState.issued) s
          q' v e₃)) in
    let same : v.db ≡ t.db = ap (λ r. r.1.db) e₄ ∙ ap (λ r. r.1.db) e₂ in
    record {
      row = issued.row;
      stored = ap (λ (d : Db). row_of id d.mint_quotes) (sym same) ∙ issued.stored;
      issued = issued.issued;
      closed = ap (λ (d : Db). is_issued id d.mint_quotes) (sym same) ∙ issued.closed;
      others = ground (arith, same, issued.others);
    }

module _ (env : Env) (keyed : IsKeyed env.keysets) where
  pub sign_blinded_messages-returns :
      (os : List BlindedMessage) (s t : Mint) (sigs : List BlindedSignature)
      → sign_blinded_messages env os s ≡ (ok sigs, t)
      → (cs : List Computed) × (compute_promises env os ≡ ok cs)
        × (sigs ≡ map signature_of cs)
        × ((k : String) → t.db.balance k ≡ s.db.balance k +ℤ outputs_in k os)
        × (t ≡ record s { db = record s.db { promises = t.db.promises; balance = t.db.balance } })
  unfolding sign_blinded_messages
  sign_blinded_messages-returns os s t sigs e =
      let (cs, computed, e₁) = lift-returns (compute_promises env os) _ s e in
      let (_, _, e₂) = lift-returns (bound os) _ s e₁ in
      let (made, balances, same) =
        sign_all-returns env keyed cs s t sigs
          (transaction-returns (sign_all env cs) s sigs t e₂) in
      (
        cs,
        computed,
        made,
        λ k.
            balances k
            ∙ ap (λ n. s.db.balance k +ℤ n) (computed_in-outputs_in env k os cs computed),
        same,
      )

module _ (env : Env) (keyed : IsKeyed env.keysets) (backends : Backends) where
  -- What was issued on a quote.
  pub record IsSignedFor (quote : MintQuote) (unit : CurrencyUnit) (os : List BlindedMessage)
      (signature : Option String) (sigs : List BlindedSignature) (before after : Db) : Type 0 where
    pub amount : quote.amount ≡ sum_outputs os
    pub same_unit : (quote.unit == unit_name unit) ≡ true
    pub not_expired : is_expired quote.expiry env.script.now ≡ false
    pub witness : verify_mint_quote_witness env backends quote os signature ≡ ok true
    pub signed :
        (cs : List Computed) × (compute_promises env os ≡ ok cs) × (sigs ≡ map signature_of cs)
    pub balances : (k : String) → after.balance k ≡ before.balance k +ℤ outputs_in k os
    pub others : after ≡ record before { promises = after.promises; balance = after.balance }

  pub mint_body-IsSignedFor :
      (id : String) (unit : CurrencyUnit) (quote : MintQuote) (os : List BlindedMessage)
      (signature : Option String) (s t : Mint) (sigs : List BlindedSignature)
      → mint_body env backends id unit quote os signature s ≡ (ok sigs, t)
      → IsSignedFor quote unit os signature sigs s.db t.db
  unfolding mint_body store_blinded_messages
  mint_body-IsSignedFor id unit quote os signature s t sigs e =
      let (_, units, e₁) =
        lift-returns
          (require (quote.unit == unit_name unit)
            (transaction_error "quote unit does not match output unit"))
          _ s e in
      let (_, amounts, e₂) =
        lift-returns
          (require (eqb_ℤ quote.amount (sum_outputs os))
            (transaction_error "amount to mint does not match quote amount"))
          _ s e₁ in
      let (_, fresh, e₃) =
        lift-returns
          (raise_if (is_expired quote.expiry env.script.now) (transaction_error "quote expired")) _
          s e₂ in
      let (good, checked, e₄) =
        lift-returns (verify_mint_quote_witness env backends quote os signature) _ s e₃ in
      let (_, passed, e₅) = lift-returns (require good quote_signature_invalid) _ s e₄ in
      let (_, u, e₆, e₇) =
        >>=-returns (transaction (store_blinded_messages_in env os none (some id) none)) _ s e₅ in
      let stored =
        store_loop-returns env keyed os none (some id) none s u
          (transaction-returns (store_blinded_messages_in env os none (some id) none) s tt u e₆) in
      let (cs, computed, made, balances, same) =
        sign_blinded_messages-returns env keyed os u t sigs e₇ in
      let before : u.db.balance ≡ s.db.balance = ap (λ (x : Mint). x.db.balance) stored in
      record {
        amount = eqb_ℤ→eq quote.amount (sum_outputs os) (require-eq-ok _ _ amounts);
        same_unit = require-eq-ok _ _ units;
        not_expired = raise_if-eq-ok _ _ fresh;
        witness = checked ∙ ap ok (require-eq-ok _ _ passed);
        signed = (cs, computed, made);
        balances = λ k. balances k ∙ ap (λ f. f k +ℤ outputs_in k os) before;
        others = ground (arith, stored, same);
      }
