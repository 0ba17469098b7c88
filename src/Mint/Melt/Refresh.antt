-- ===== src/Mint/Melt/Refresh.antt =====
-- `get_melt_quote` of cashu/mint/ledger.py, and the routine that asks it for every pending quote.
use nutshell.Base.{
  pos, ◌-ℤ◌, String, Bool, true, false, ◌&&◌, not, Option, none, some, List, [], ◌∷◌, is_some,
  contains, select, if◌then◌else◌,
}
use nutshell.Core.Currency.{CurrencyUnit, Rounding}
use nutshell.Core.Errors.{exception}
use nutshell.Core.Proofs.{Proof, BlindedMessage, sum_proofs}
use nutshell.Core.Quotes.{MeltQuote, MeltQuoteState, melt_state_eq, set_melt_state}
use nutshell.Core.Result.{or_raise}
use nutshell.Mint.State.{
  Db, ProofRow, melt_quote_event, Action, lift, pure, gets, submit, transaction, for_each, ◌>>=◌,
  ◌>>◌,
}
use nutshell.Mint.Crud.{
  delete_blinded_messages_melt_id, get_pending_proofs_for_quote, get_blinded_messages_melt_id,
}
use nutshell.Mint.Lightning.{PaymentResult, PaymentStatus, Payments}
use nutshell.Mint.Quotes.{get_mint_quote, get_melt_quote, update_melt_quote}
use nutshell.Mint.Verification.{Env, get_fees_for_proofs}
use nutshell.Mint.Verification.Quotes.{Backends, verify_and_get_unit_method}
use nutshell.Mint.Write.{unset_proofs_pending, unset_proofs_pending_in}
use nutshell.Mint.Ledger.Issue.{invalidate_proofs_in}
use nutshell.Mint.Melt.Finish.{set_paid, change_for}

module _ (env : Env) where
  open env use {keysets}

  -- The proofs that wait for the quote are spent and taken off the pending table in one transaction.
  unfoldable pub spend_pending : List Proof → String → Action (Unit {0})
  spend_pending proofs quote_id = transaction (do
    invalidate_proofs_in env proofs (some quote_id)
    unset_proofs_pending_in keysets proofs true)

  -- The change of a quote whose blank outputs were stored; without outputs the quote keeps what it has.
  unfoldable pub give_change : List Proof → List BlindedMessage → MeltQuote → Action MeltQuote
  give_change proofs [] quote = pure quote
  give_change proofs (o ∷ outputs) quote = do
    input_fees ← lift (get_fees_for_proofs env proofs)
    return_promises ←
        change_for env (sum_proofs proofs -ℤ quote.amount -ℤ pos input_fees) quote (o ∷ outputs)
    pure (record quote { change = return_promises })

  unfoldable pub commit : MeltQuote → PaymentStatus → CurrencyUnit → Action MeltQuote
  commit quote status unit = do
    paid ← set_paid env quote status.fee status.preimage unit Rounding.no_rounding
    pending_proofs ← gets (get_pending_proofs_for_quote quote.quote)
    spend_pending pending_proofs quote.quote
    melt_outputs ← gets (get_blinded_messages_melt_id quote.quote)
    done ← give_change pending_proofs melt_outputs paid
    update_melt_quote done
    submit (melt_quote_event done)
    pure done

  unfoldable pub roll_back : MeltQuote → Action MeltQuote
  roll_back quote = do
    unpaid ← lift (set_melt_state quote MeltQuoteState.unpaid)
    update_melt_quote unpaid
    submit (melt_quote_event unpaid)
    pending_proofs ← gets (get_pending_proofs_for_quote quote.quote)
    unset_proofs_pending keysets pending_proofs true
    delete_blinded_messages_melt_id quote.quote
    pure unpaid

  -- What the answer of the backend leads to.
  unfoldable pub by_status : Bool → MeltQuote → CurrencyUnit → PaymentStatus → Action MeltQuote
  by_status rollback_unknown quote unit status = elim status.result [
    | PaymentResult.settled ↦ commit quote status unit
    | PaymentResult.failed ↦ roll_back quote
    | PaymentResult.pending ↦ pure quote
    | PaymentResult.unknown ↦ if rollback_unknown then roll_back quote else pure quote
  ]

  module _ (backends : Backends) (payments : Payments) where
    abbrev pub when_waiting : Bool → Bool → MeltQuote → CurrencyUnit → Action MeltQuote
    when_waiting false rollback_unknown quote unit = pure quote
    when_waiting true rollback_unknown quote unit =
        lift (or_raise (payments.status_before quote.checking_id) (exception "backend"))
        >>= by_status rollback_unknown quote unit

    unfoldable pub check_melt_quote : Bool → Option MeltQuote → Action MeltQuote
    check_melt_quote rollback_unknown found = do
      quote ← lift (or_raise found (exception "quote not found"))
      (unit, _) ← lift (verify_and_get_unit_method env backends quote.unit quote.method)
      is_internal ← get_mint_quote "" "" quote.request
      when_waiting (melt_state_eq quote.state MeltQuoteState.pending && not (is_some is_internal))
          rollback_unknown quote unit

    -- `Ledger.get_melt_quote`
    unfoldable pub refresh_melt_quote : String → Bool → Action MeltQuote
    refresh_melt_quote quote_id rollback_unknown =
        get_melt_quote quote_id "" "" >>= check_melt_quote rollback_unknown

    -- The SELECT of the quotes that have pending proofs.
    abbrev melt_ids : List ProofRow → List String
    melt_ids [] = []
    melt_ids (r ∷ rows) = elim r.melt_quote [ none ↦ melt_ids rows | some id ↦ id ∷ melt_ids rows ]

    unfoldable pub get_all_melt_quotes_from_pending_proofs : Db → List MeltQuote
    get_all_melt_quotes_from_pending_proofs db =
        select (λ q. contains q.quote (melt_ids db.proofs_pending)) db.melt_quotes

    unfoldable pub check_pending_proofs_and_melt_quotes : Action (Unit {0})
    check_pending_proofs_and_melt_quotes = do
      quotes ← gets get_all_melt_quotes_from_pending_proofs
      for_each (λ (q : MeltQuote). refresh_melt_quote q.quote false >>= λ _. pure tt) quotes
