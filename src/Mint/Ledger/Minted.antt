-- ===== src/Mint/Ledger/Minted.antt =====
-- `mint` of cashu/mint/ledger.py: what a call that returned has done to the quote, the balances and
-- the tables.
use nutshell.Base.{
  true, ◌+ℤ◌, String, false, Option, some, List, ◌==◌, ◌≡◌, ap, sym, ◌∙◌, subst, arith,
}
use nutshell.Core.Currency.{CurrencyUnit}
use nutshell.Core.Errors.{transaction_error, quote_already_issued, quote_not_paid}
use nutshell.Core.Proofs.{BlindedMessage, BlindedSignature, outputs_in}
use nutshell.Core.Quotes.{MintQuote, MintQuoteState, mint_state_eq}
use nutshell.Core.Result.{ok, require, raise_if}
use nutshell.Mint.State.{Db, Mint, IsKeyed, pure}
use nutshell.Mint.Chains.{>>=-returns, check-returns, lift-returns}
use nutshell.Mint.Verification.{Env, verify_outputs}
use nutshell.Mint.Verification.Quotes.{Backends}
use nutshell.Mint.Write.Quotes.{set_mint_quote_pending}
use nutshell.Mint.Write.MintQuotes.{row_of, is_issued, set_mint_quote_pending-IsLocked}
use nutshell.Mint.Ledger.Issued.{
  ok-inj, caught-returns, release-IsIssued, IsSignedFor, mint_body-IsSignedFor,
}
use nutshell.Mint.Ledger.Minting.{
  except_do, mint_body, mint_locked, mint_refreshed, mint, refresh_mint_quote, release, output_unit,
}

module _ (env : Env) (keyed : IsKeyed env.keysets) (backends : Backends) where
  -- What a call of `mint` that returned has done, from the state with the refreshed quote on.
  pub record IsMinted (id : String) (os : List BlindedMessage) (signature : Option String)
      (sigs : List BlindedSignature) (quote : MintQuote) (before after : Mint) : Type 0 where
    pub paid : quote.state ≡ MintQuoteState.paid
    pub unit : CurrencyUnit
    pub outputs_unit : output_unit env backends os ≡ ok unit
    pub row : MintQuote
    pub stored : row_of id after.db.mint_quotes ≡ some row
    pub issued : row.state ≡ MintQuoteState.issued
    -- every row with the id is
    pub closed : is_issued id after.db.mint_quotes ≡ true
    -- the tables apart from the quotes
    pub signed_for :
        IsSignedFor env keyed backends quote unit os signature sigs before.db
          (record after.db { mint_quotes = before.db.mint_quotes })

  IsSignedFor-around :
      (quote : MintQuote) (unit : CurrencyUnit) (os : List BlindedMessage)
      (signature : Option String) (sigs : List BlindedSignature) (u v w t : Db)
      → v ≡ record u { mint_quotes = v.mint_quotes }
      → t ≡ record w { mint_quotes = t.mint_quotes }
      → IsSignedFor env keyed backends quote unit os signature sigs v w
      → IsSignedFor env keyed backends quote unit os signature sigs u
          (record t { mint_quotes = u.mint_quotes })
  IsSignedFor-around quote unit os signature sigs u v w t locked issued done = record {
    amount = done.amount;
    same_unit = done.same_unit;
    not_expired = done.not_expired;
    witness = done.witness;
    signed = done.signed;
    balances = λ k.
        ap (λ (d : Db). d.balance k) issued
        ∙ done.balances k
        ∙ ap (λ (d : Db). d.balance k +ℤ outputs_in k os) locked;
    others = ground (arith, locked, issued, done.others);
  }

  mint_refreshed-IsMinted :
      (id : String) (unit : CurrencyUnit) (quote : MintQuote) (os : List BlindedMessage)
      (signature : Option String) (s t : Mint) (sigs : List BlindedSignature)
      → (id == "") ≡ false
      → output_unit env backends os ≡ ok unit
      → mint_refreshed env backends os id signature unit quote s ≡ (ok sigs, t)
      → IsMinted id os signature sigs quote s t
  unfolding mint_refreshed mint_locked
  mint_refreshed-IsMinted id unit quote os signature s t sigs named unit_ok e =
      let (_, _, e₁) =
        lift-returns
          (raise_if (mint_state_eq quote.state MintQuoteState.pending)
            (transaction_error "Mint quote already pending."))
          _ s e in
      let (_, _, e₂) =
        lift-returns
          (raise_if (mint_state_eq quote.state MintQuoteState.issued) quote_already_issued) _ s
          e₁ in
      let (_, paid, e₃) =
        lift-returns (require (mint_state_eq quote.state MintQuoteState.paid) quote_not_paid) _ s
          e₂ in
      let (q, u, e₄, e₅) = >>=-returns (set_mint_quote_pending id) _ s e₃ in
      let body = mint_body env backends id unit quote os signature in
      let (sigs', v, e₆, e₇) = >>=-returns (except_do body (release id quote.state)) _ u e₅ in
      let (_, w, e₈, e₉) = >>=-returns (release id MintQuoteState.issued) (λ _. pure sigs') v e₇ in
      let locked = set_mint_quote_pending-IsLocked id s u q named e₄ in
      let ran = caught-returns (release id quote.state) (body u).0 (body u).1 v sigs' e₆ in
      let done =
        mint_body-IsSignedFor env keyed backends id unit quote os signature u v sigs' ran in
      let issued = release-IsIssued id v w named e₈ in
      let last : w ≡ t = ap (λ r. r.1) e₉ in
      let same : sigs' ≡ sigs = ok-inj (ap (λ r. r.0) e₉) in
      let whole =
        IsSignedFor-around quote unit os signature sigs' s.db u.db v.db w.db
          (ground (arith, locked.others)) issued.others done in
      record {
        paid = ground arith;
        unit = unit;
        outputs_unit = unit_ok;
        row = issued.row;
        stored = ap (λ (x : Mint). row_of id x.db.mint_quotes) (sym last) ∙ issued.stored;
        issued = issued.issued;
        closed = ap (λ (x : Mint). is_issued id x.db.mint_quotes) (sym last) ∙ issued.closed;
        signed_for =
            subst
              (λ (x : Mint).
                IsSignedFor env keyed backends quote unit os signature sigs s.db
                  (record x.db { mint_quotes = s.db.mint_quotes }))
              last
              (subst
                (λ b.
                  IsSignedFor env keyed backends quote unit os signature b s.db
                    (record w.db { mint_quotes = s.db.mint_quotes }))
                same whole);
      }

  -- When a call of `mint` on a quote with an id that is not empty returns, the outputs were valid
  -- and the quote, as `get_mint_quote` gives it, was paid; the outputs add up to the quote's amount
  -- in its unit, the quote is not expired and its witness is valid; the signatures are those
  -- computed for the outputs, every keyset's balance has grown by its outputs, the quote's row is
  -- issued, and apart from quotes and promises no table has changed since the quote was refreshed.
  -- (Every keyset is filed under its own id.)
  pub mint-IsMinted :
      (id : String) (os : List BlindedMessage) (signature : Option String) (s t : Mint)
      (sigs : List BlindedSignature)
      → (id == "") ≡ false
      → mint env backends os id signature s ≡ (ok sigs, t)
      → (quote : MintQuote) × (u : Mint) × (verify_outputs env os false s.db ≡ ok tt)
        × (refresh_mint_quote env backends id s ≡ (ok quote, u))
        × IsMinted id os signature sigs quote u t
  unfolding mint
  mint-IsMinted id os signature s t sigs named e =
      let (valid, e₁) = check-returns (verify_outputs env os false) _ s e in
      let (unit, unit_ok, e₂) = lift-returns (output_unit env backends os) _ s e₁ in
      let (quote, u, e₃, e₄) = >>=-returns (refresh_mint_quote env backends id) _ s e₂ in
      (
        quote,
        u,
        valid,
        e₃,
        mint_refreshed-IsMinted id unit quote os signature u t sigs named unit_ok e₄,
      )
