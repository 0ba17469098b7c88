-- ===== src/Mint/Melt/Pay.antt =====
-- The payment of `melt` of cashu/mint/ledger.py, and `melt` itself.
use nutshell.Base.{ℤ, String, true, Option, none, some, List, [], ◌∷◌, ◌==◌, if◌then◌else◌}
use nutshell.Core.Currency.{CurrencyUnit, Rounding, thousandfold}
use nutshell.Core.Errors.{lightning_payment_failed}
use nutshell.Core.Proofs.{Proof, BlindedMessage}
use nutshell.Core.Quotes.{MeltQuote, MeltQuoteState, melt_state_eq}
use nutshell.Mint.State.{Action, pure, raise, ◌>>=◌, ◌>>◌}
use nutshell.Mint.Crud.{delete_blinded_messages_melt_id}
use nutshell.Mint.Lightning.{PaymentResult, PaymentResponse, PaymentStatus, Payments, is_failure}
use nutshell.Mint.Quotes.{update_melt_quote}
use nutshell.Mint.Verification.{Env}
use nutshell.Mint.Verification.Quotes.{Backends}
use nutshell.Mint.Write.{verify_spent_proofs_and_set_pending, unset_proofs_pending}
use nutshell.Mint.Write.Quotes.{set_melt_quote_pending, unset_melt_quote_pending}
use nutshell.Mint.Ledger.Issue.{store_blinded_messages}
use nutshell.Mint.Ledger.Settling.{melt_mint_settle_internally}
use nutshell.Mint.Melt.Finish.{set_paid, finish}
use nutshell.Mint.Melt.Checks.{Checked, melt_checks}

-- `self.disable_melt = True`
abbrev pub disable : Action (Unit {0})
disable s = (nutshell.Core.Result.ok tt, record s { disable_melt = true })

-- An exception of `pay_invoice` counts as an unknown result.
abbrev pub answer_or_unknown : Option PaymentResponse → PaymentResponse
answer_or_unknown none = record {
  result = PaymentResult.unknown;
  checking_id = none;
  fee = none;
  preimage = none;
}
answer_or_unknown (some payment) = payment

-- `payment.checking_id or melt_quote.checking_id`
abbrev pub checking_id_or : Option String → String → String
checking_id_or none old = old
checking_id_or (some id) old = if id == "" then old else id

-- The backend may give the payment another checking id, which is stored.
abbrev pub renamed : MeltQuote → String → Action MeltQuote
renamed quote id =
    if id == quote.checking_id
    then pure quote
    else (update_melt_quote (record quote { checking_id = id })
        >> pure (record quote { checking_id = id }))

module _ (env : Env) (payments : Payments) (proofs : List Proof) where
  open env use {keysets}

  -- Both the payment and the check of its status failed: everything is released.
  unfoldable pub release_failed : MeltQuote → Action MeltQuote
  release_failed quote = do
    unset_proofs_pending keysets proofs true
    unset_melt_quote_pending quote MeltQuoteState.unpaid >>= λ _.
        delete_blinded_messages_melt_id quote.quote >> raise lightning_payment_failed

  -- A payment that did not settle is asked for again.
  abbrev pub by_second_answer : MeltQuote → Option PaymentStatus → Action MeltQuote
  by_second_answer quote none = disable >> pure quote
  by_second_answer quote (some status) =
      if is_failure status.result then release_failed quote else (disable >> pure quote)

  module _ (unit : CurrencyUnit) (provided : ℤ) (outputs : List BlindedMessage) where
    unfoldable pub by_result : MeltQuote → PaymentResponse → Action MeltQuote
    by_result quote payment = elim payment.result [
      | PaymentResult.settled ↦
          set_paid env quote payment.fee payment.preimage unit Rounding.up
          >>= finish env proofs provided outputs
      | PaymentResult.failed ↦
          by_second_answer quote
            (payments.status_after (checking_id_or payment.checking_id quote.checking_id))
      | PaymentResult.unknown ↦
          by_second_answer quote
            (payments.status_after (checking_id_or payment.checking_id quote.checking_id))
      | PaymentResult.pending ↦ pure quote
    ]

    unfoldable pub pay : MeltQuote → Action MeltQuote
    pay quote = do
      let payment = answer_or_unknown (payments.pay_invoice quote (thousandfold quote.fee_reserve))
      now ← renamed quote (checking_id_or payment.checking_id quote.checking_id)
      by_result now payment

    -- A quote that was settled internally is finished, and any other is paid.
    abbrev pub finish_or_pay : MeltQuote → Action MeltQuote
    finish_or_pay quote =
        if melt_state_eq quote.state MeltQuoteState.paid
        then finish env proofs provided outputs quote
        else pay quote

-- `if outputs:` store them for the quote.
unfoldable pub store_blank_outputs : Env → List BlindedMessage → String → Action (Unit {0})
store_blank_outputs env [] quote_id = pure tt
store_blank_outputs env (o ∷ outputs) quote_id =
    store_blinded_messages env (o ∷ outputs) none none (some quote_id)

module _ (env : Env) (backends : Backends) (payments : Payments) where
  -- From the locks on.
  unfoldable pub melt_checked : List Proof → List BlindedMessage → Checked → Action MeltQuote
  melt_checked proofs outputs checked = do
    verify_spent_proofs_and_set_pending env.keysets proofs (some checked.quote.quote)
    locked ← set_melt_quote_pending checked.quote
    store_blank_outputs env outputs locked.quote
    settled ← melt_mint_settle_internally env backends locked
    finish_or_pay env payments proofs checked.unit checked.provided outputs settled

  unfoldable pub melt : List Proof → String → List BlindedMessage → Action MeltQuote
  melt proofs quote_id outputs =
      melt_checks env backends payments proofs quote_id outputs >>= melt_checked proofs outputs
