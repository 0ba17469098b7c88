-- ===== src/Mint/Melt/Finish.antt =====
-- What follows a payment: the fields of the paid quote, the change, and the release of the proofs when
-- it failed.
use nutshell.Base.{ℤ, ◌/◌, String, true, Option, none, some, List, [], ◌∷◌, ◌==◌, if◌then◌else◌}
use nutshell.Core.Currency.{CurrencyUnit, Amount, Rounding, to}
use nutshell.Core.Proofs.{Proof, BlindedMessage, BlindedSignature}
use nutshell.Core.Quotes.{MeltQuote, MeltQuoteState, set_melt_state}
use nutshell.Core.Result.{Result, ok, item}
use nutshell.Mint.State.{melt_quote_event, Action, lift, pure, submit, ◌>>=◌, ◌>>◌}
use nutshell.Mint.Quotes.{update_melt_quote}
use nutshell.Mint.Verification.{Env}
use nutshell.Mint.Write.{unset_proofs_pending}
use nutshell.Mint.Ledger.Issue.{invalidate_proofs}
use nutshell.Mint.Ledger.Change.{generate_change_promises}

-- `if fee: quote.fee_paid = fee.to(unit).amount`
abbrev pub fee_of_payment : MeltQuote → Option Amount → CurrencyUnit → Rounding → Result ℤ
fee_of_payment quote none unit round = ok quote.fee_paid
fee_of_payment quote (some fee) unit round =
    nutshell.Core.Result.◌>>=◌ (to fee unit round) (λ a. ok a.amount)

-- `if preimage: quote.payment_preimage = preimage`
abbrev pub preimage_or : Option String → Option String → Option String
preimage_or none old = old
preimage_or (some p) old = if p == "" then old else some p

module _ (env : Env) where
  open env use {keysets, script}

  -- The quote of a payment that the backend settled.
  unfoldable pub set_paid :
      MeltQuote → Option Amount → Option String → CurrencyUnit → Rounding → Action MeltQuote
  set_paid quote fee preimage unit round = do
    paid ← lift (set_melt_state quote MeltQuoteState.paid)
    fee_paid ← lift (fee_of_payment paid fee unit round)
    pure (record paid {
      fee_paid = fee_paid;
      payment_preimage = preimage_or preimage paid.payment_preimage;
      paid_time = some (script.now / 1000000);
    })

  -- The change for blank outputs, if there are any; the keyset of the first is looked up.
  unfoldable pub change_for : ℤ → MeltQuote → List BlindedMessage → Action (List BlindedSignature)
  change_for provided quote [] = pure []
  change_for provided quote (o ∷ outputs) = do
    _ ← lift (item o.id keysets)
    generate_change_promises env provided quote.fee_paid (some (o ∷ outputs)) (some quote.quote)

  -- The end of `melt`: spend the proofs, take them off the pending table, and give change.
  unfoldable pub finish : List Proof → ℤ → List BlindedMessage → MeltQuote → Action MeltQuote
  finish proofs provided outputs quote = do
    invalidate_proofs env proofs (some quote.quote)
    unset_proofs_pending keysets proofs true
    return_promises ← change_for provided quote outputs
    let done : MeltQuote = record quote { change = return_promises }
    update_melt_quote done
    submit (melt_quote_event done)
    pure done
