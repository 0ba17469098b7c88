-- ===== src/Mint/Melt/Checks.antt =====
-- The checks of `melt` of cashu/mint/ledger.py, before anything is written.
use Prim.Native.String.{◌++◌ as ◌+++◌}
use nutshell.Base.{
  ℤ, pos, ◌+ℤ◌, ◌-ℤ◌, String, true, false, ◌&&◌, none, List, [], ◌∷◌, ◌++◌, map, ◌==◌, ltb_ℤ,
}
use nutshell.Core.Currency.{CurrencyUnit, unit_name}
use nutshell.Core.Errors.{not_allowed, transaction_error}
use nutshell.Core.Proofs.{Proof, BlindedMessage, sum_proofs}
use nutshell.Core.Quotes.{MeltQuote, MeltQuoteState, melt_state_eq}
use nutshell.Core.Result.{Result, ok, require, raise_if}
use nutshell.Mint.State.{Action, lift, pure, check, ◌>>=◌, ◌>>◌}
use nutshell.Mint.Conditions.{join}
use nutshell.Mint.Conditions.SigAll.{verify_sigall_spending_conditions}
use nutshell.Mint.Lightning.{Payments}
use nutshell.Mint.Verification.{
  Env, unit_of, verify_outputs, get_fees_for_proofs, verify_inputs_and_outputs,
}
use nutshell.Mint.Verification.Quotes.{Backends, verify_and_get_unit_method}
use nutshell.Mint.Melt.Refresh.{refresh_melt_quote}

-- The text that a SIG_ALL lock signs: all secrets, all outputs, and the quote.
abbrev pub melt_message : List Proof → List BlindedMessage → String → String
melt_message proofs outputs quote =
    ◌+++◌
      (join (map (λ (p : Proof). p.secret) proofs ++ map (λ (o : BlindedMessage). o.B_) outputs))
      quote

-- What the checks hand on: the quote, its unit, and what is provided above the amount and the fees.
pub record Checked : Type 0 where
  pub quote : MeltQuote
  pub unit : CurrencyUnit
  pub provided : ℤ

module _ (env : Env) (backends : Backends) (payments : Payments) where
  open env use {settings, script}

  unfoldable pub check_enabled : Action (Unit {0})
  check_enabled s = (
    raise_if (s.disable_melt && settings.mint_disable_melt_on_error)
        (not_allowed "Melt is disabled. Please contact the operator."),
    s,
  )

  -- Blank outputs, if there are any, must be in the unit of the quote.
  unfoldable pub check_blank_outputs : List BlindedMessage → MeltQuote → Action (Unit {0})
  check_blank_outputs [] quote = pure tt
  check_blank_outputs (o ∷ outputs) quote = do
    check (verify_outputs env (o ∷ outputs) true)
    outputs_unit ← lift (unit_of env o.id)
    lift (
        require (quote.unit == unit_name outputs_unit)
          (transaction_error "output unit does not match quote unit"))

  -- The value of the SIG_ALL check is not used; only its exceptions count.
  unfoldable pub check_sigall : List Proof → List BlindedMessage → String → Result (Unit {0})
  check_sigall proofs outputs quote =
      nutshell.Core.Result.◌>>=◌
        (verify_sigall_spending_conditions script proofs outputs
          (melt_message proofs outputs quote))
        (λ _. ok tt)

  -- The inputs pay for the amount, the fee reserve and the fees.
  unfoldable pub check_provided : List Proof → MeltQuote → Action ℤ
  check_provided proofs quote = do
    input_fees ← lift (get_fees_for_proofs env proofs)
    let total_provided = sum_proofs proofs
    let provided = total_provided -ℤ quote.amount -ℤ pos input_fees
    lift (
        raise_if (ltb_ℤ total_provided (quote.amount +ℤ quote.fee_reserve +ℤ pos input_fees))
          (transaction_error "not enough inputs provided for melt."))
    lift (
        raise_if (ltb_ℤ provided quote.fee_reserve)
          (transaction_error "not enough fee reserve provided for melt."))
    pure provided

  -- The checks of a quote that is refreshed.
  unfoldable pub check_quote :
      List Proof → String → List BlindedMessage → MeltQuote → Action Checked
  check_quote proofs quote_id outputs quote = do
    lift (
        require (melt_state_eq quote.state MeltQuoteState.unpaid)
          (transaction_error "melt quote is not unpaid"))
    (unit, _) ← lift (verify_and_get_unit_method env backends quote.unit quote.method)
    check_blank_outputs outputs quote
    lift (check_sigall proofs outputs quote_id)
    provided ← check_provided proofs quote
    check (verify_inputs_and_outputs env proofs none)
    pure (record { quote = quote; unit = unit; provided = provided })

  unfoldable pub melt_checks : List Proof → String → List BlindedMessage → Action Checked
  melt_checks proofs quote_id outputs = do
    check_enabled
    quote ← refresh_melt_quote env backends payments quote_id false
    check_quote proofs quote_id outputs quote
