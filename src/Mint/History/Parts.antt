-- ===== src/Mint/History/Parts.antt =====
-- Swaps, the locks on quotes, and minting, under the law of Mint/History/Grows.
use nutshell.Base.{
  inl, inr, refl, map, ◌≡◌, ◌/◌, Bool-cases, String, Bool, true, false, Option, none, some, List,
  arith, ◌==◌, eqb_ℤ,
}
use nutshell.Core.Errors.{
  transaction_error, exception, cashu_error, quote_already_issued, quote_not_paid,
  quote_signature_invalid,
}
use nutshell.Core.Currency.{CurrencyUnit, unit_name}
use nutshell.Core.Proofs.{Proof, BlindedMessage, sum_outputs}
use nutshell.Core.Quotes.{
  MintQuote, MeltQuote, MintQuoteState, MeltQuoteState, mint_state_eq, set_mint_state,
}
use nutshell.Core.Result.{require, raise_if, or_raise}
use nutshell.Mint.State.{Mint, Action, MintKeyset, mint_quote_event, melt_quote_event}
use nutshell.Mint.Quotes.{updated_mint_row, get_melt_quote, update_mint_quote, update_melt_quote}
use nutshell.Mint.Verification.{Env, verify_inputs_and_outputs, verify_outputs}
use nutshell.Mint.Verification.Quotes.{
  Backends, is_expired, verify_and_get_unit_method, verify_mint_quote_witness,
}
use nutshell.Mint.Write.Quotes.{
  lock_mint_quote, set_mint_quote_pending, unlock_mint_quote, unset_mint_quote_pending,
  set_melt_quote_body, set_melt_quote_pending, unset_melt_quote_body, unset_melt_quote_pending,
}
use nutshell.Mint.Ledger.{swap_body, swap}
use nutshell.Mint.Ledger.Minting.{
  release, mark_paid, when_settled, check_invoice, when_unpaid, check_mint_quote,
  refresh_mint_quote, mint_body, output_unit, mint_locked, mint_refreshed, mint,
}
use nutshell.Mint.History.Grows.{
  OnlyGrows, IsGuarded, found-OnlyGrows, untouched, lift-OnlyGrows, lift_then-OnlyGrows,
  check-OnlyGrows, announced-OnlyGrows, >>=-OnlyGrows, transaction-OnlyGrows, finally_do-OnlyGrows,
  except_do-OnlyGrows,
}
use nutshell.Mint.History.Writes.{
  get_mint_quote-OnlyGrows, verify_spent_proofs_and_set_pending-OnlyGrows,
  unset_proofs_pending-OnlyGrows, invalidate_proofs_in-OnlyGrows,
  store_blinded_messages_in-OnlyGrows, store_blinded_messages-OnlyGrows,
  sign_blinded_messages_in-OnlyGrows, sign_blinded_messages-OnlyGrows,
}

-- When a row is written only if a test holds, which it does for no issued quote.
guarded :
    {A : Type 0} {m : Action A} (found : Option MintQuote) (q r : MintQuote) (b : Bool)
    → found ≡ some q
    → (b ≡ true → mint_state_eq q.state MintQuoteState.issued ≡ false)
    → r.quote ≡ q.quote
    → ((s : Mint) → s.db.proofs_used ≡ (m s).1.db.proofs_used)
    → ((s : Mint) → b ≡ false → s.db.mint_quotes ≡ (m s).1.db.mint_quotes)
    → ((s : Mint) → b ≡ true → map (updated_mint_row r) s.db.mint_quotes ≡ (m s).1.db.mint_quotes)
    → IsGuarded found m
guarded found q r b is_found open_ same spent kept written = record {
  spent = spent;
  written = λ s. elim (Bool-cases b) [
    | inl holds ↦ inr (q, r, is_found, open_ holds, same, written s holds)
    | inr fails ↦ inl (kept s fails)
  ];
}

lock_mint_quote-IsGuarded : (found : Option MintQuote) → IsGuarded found (lock_mint_quote found)
unfolding lock_mint_quote update_mint_quote set_mint_state
lock_mint_quote-IsGuarded none = record { spent = λ s. refl; written = λ s. inl refl }
lock_mint_quote-IsGuarded (some q) =
    guarded (some q) q (record q { state = MintQuoteState.pending })
      (mint_state_eq q.state MintQuoteState.paid) refl (λ h. ground arith) refl (λ s. ground arith)
      (λ s h. ground arith) (λ s h. ground arith)

set_mint_quote_pending-OnlyGrows : (id : String) → OnlyGrows (set_mint_quote_pending id)
unfolding set_mint_quote_pending
set_mint_quote_pending-OnlyGrows id =
    transaction-OnlyGrows (found-OnlyGrows id "" "" lock_mint_quote lock_mint_quote-IsGuarded)

-- Does the guard on the state of a quote let the assignment through?
abbrev unlocks : MintQuoteState → MintQuoteState → Bool
unlocks MintQuoteState.pending MintQuoteState.paid = true
unlocks MintQuoteState.pending MintQuoteState.issued = true
unlocks _ _ = false

unlock_mint_quote-IsGuarded :
    (state : MintQuoteState) (found : Option MintQuote)
    → IsGuarded found (unlock_mint_quote state found)
unfolding unlock_mint_quote update_mint_quote set_mint_state
unlock_mint_quote-IsGuarded state none = record { spent = λ s. refl; written = λ s. inl refl }
unlock_mint_quote-IsGuarded state (some q) =
    guarded (some q) q (record q { state = state }) (unlocks q.state state) refl (λ h. ground arith)
      refl (λ s. ground arith) (λ s h. ground arith) (λ s h. ground arith)

unset_mint_quote_pending-OnlyGrows :
    (id : String) (state : MintQuoteState) → OnlyGrows (unset_mint_quote_pending id state)
unfolding unset_mint_quote_pending
unset_mint_quote_pending-OnlyGrows id state =
    >>=-OnlyGrows
      (transaction-OnlyGrows
        (found-OnlyGrows id "" "" (unlock_mint_quote state) (unlock_mint_quote-IsGuarded state)))
      (λ q. announced-OnlyGrows (mint_quote_event q) q)

release-OnlyGrows : (id : String) (state : MintQuoteState) → OnlyGrows (release id state)
release-OnlyGrows id state =
    >>=-OnlyGrows (unset_mint_quote_pending-OnlyGrows id state) (λ _. lift-OnlyGrows)

set_melt_quote_body-OnlyGrows : (q : MeltQuote) → OnlyGrows (set_melt_quote_body q)
unfolding set_melt_quote_body update_melt_quote
set_melt_quote_body-OnlyGrows q = untouched (λ s. (ground arith, ground arith))

pub set_melt_quote_pending-OnlyGrows : (q : MeltQuote) → OnlyGrows (set_melt_quote_pending q)
unfolding set_melt_quote_pending
set_melt_quote_pending-OnlyGrows q =
    lift_then-OnlyGrows
      (raise_if (q.checking_id == "") (transaction_error "Melt quote doesn't have checking ID."))
      (λ _.
        >>=-OnlyGrows (transaction-OnlyGrows (set_melt_quote_body-OnlyGrows q))
          (λ q'. announced-OnlyGrows (melt_quote_event q') q'))

unset_melt_quote_body-OnlyGrows :
    (q : MeltQuote) (state : MeltQuoteState) → OnlyGrows (unset_melt_quote_body q state)
unfolding unset_melt_quote_body update_melt_quote get_melt_quote
unset_melt_quote_body-OnlyGrows q state = untouched (λ s. (ground arith, ground arith))

pub unset_melt_quote_pending-OnlyGrows :
    (q : MeltQuote) (state : MeltQuoteState) → OnlyGrows (unset_melt_quote_pending q state)
unfolding unset_melt_quote_pending
unset_melt_quote_pending-OnlyGrows q state =
    >>=-OnlyGrows (transaction-OnlyGrows (unset_melt_quote_body-OnlyGrows q state))
      (λ q'. announced-OnlyGrows (melt_quote_event q') q')

module _ (env : Env) where
  pub swap-OnlyGrows :
      (ps : List Proof) (os : List BlindedMessage) (keyset : Option MintKeyset)
      → OnlyGrows (swap env ps os keyset)
  unfolding swap swap_body
  swap-OnlyGrows ps os keyset =
      >>=-OnlyGrows (check-OnlyGrows (verify_inputs_and_outputs env ps (some os))) (λ _.
        >>=-OnlyGrows (verify_spent_proofs_and_set_pending-OnlyGrows env.keysets ps none) (λ _.
          finally_do-OnlyGrows
            (transaction-OnlyGrows (
              >>=-OnlyGrows (store_blinded_messages_in-OnlyGrows env os keyset none none) (λ _.
                >>=-OnlyGrows (invalidate_proofs_in-OnlyGrows env ps none)
                  (λ _. sign_blinded_messages_in-OnlyGrows env os))))
            (unset_proofs_pending-OnlyGrows env.keysets ps true)))

module _ (env : Env) (backends : Backends) where
  mark_paid-IsGuarded : (found : Option MintQuote) → IsGuarded found (mark_paid env backends found)
  unfolding mark_paid update_mint_quote set_mint_state
  mark_paid-IsGuarded none = record { spent = λ s. refl; written = λ s. inl refl }
  mark_paid-IsGuarded (some q) =
      guarded (some q) q
        (record q { state = MintQuoteState.paid; paid_time = some (env.script.now / 1000000) })
        (mint_state_eq q.state MintQuoteState.unpaid) refl (λ h. ground arith) refl
        (λ s. ground arith) (λ s h. ground arith) (λ s h. ground arith)

  check_invoice-OnlyGrows :
      (id : String) (q : MintQuote) → OnlyGrows (check_invoice env backends id q)
  unfolding check_invoice
  check_invoice-OnlyGrows id q =
      lift_then-OnlyGrows (raise_if (q.checking_id == "") (cashu_error "quote has no checking id"))
        (λ _.
          lift_then-OnlyGrows (or_raise (backends.settled q.checking_id) (exception "backend"))
            asked)
    where
      asked : (settled : Bool) → OnlyGrows (when_settled env backends id q settled)
      asked false = lift-OnlyGrows
      asked true =
          transaction-OnlyGrows
            (found-OnlyGrows id "" "" (mark_paid env backends) mark_paid-IsGuarded)

  when_unpaid-OnlyGrows :
      (id : String) (q : MintQuote) (unpaid : Bool)
      → OnlyGrows (when_unpaid env backends id q unpaid)
  when_unpaid-OnlyGrows id q false = lift-OnlyGrows
  when_unpaid-OnlyGrows id q true = check_invoice-OnlyGrows id q

  pub refresh_mint_quote-OnlyGrows : (id : String) → OnlyGrows (refresh_mint_quote env backends id)
  unfolding refresh_mint_quote check_mint_quote
  refresh_mint_quote-OnlyGrows id = >>=-OnlyGrows (get_mint_quote-OnlyGrows id "" "") (λ found.
      lift_then-OnlyGrows (or_raise found (exception "quote not found")) (λ q.
        lift_then-OnlyGrows (verify_and_get_unit_method env backends q.unit q.method)
          (λ _. when_unpaid-OnlyGrows id q (mint_state_eq q.state MintQuoteState.unpaid))))

  mint_body-OnlyGrows :
      (id : String) (unit : CurrencyUnit) (q : MintQuote) (os : List BlindedMessage)
      (signature : Option String)
      → OnlyGrows (mint_body env backends id unit q os signature)
  unfolding mint_body
  mint_body-OnlyGrows id unit q os signature =
      lift_then-OnlyGrows
        (require (q.unit == unit_name unit)
          (transaction_error "quote unit does not match output unit"))
        (λ _.
          lift_then-OnlyGrows
            (require (eqb_ℤ q.amount (sum_outputs os))
              (transaction_error "amount to mint does not match quote amount"))
            (λ _.
              lift_then-OnlyGrows
                (raise_if (is_expired q.expiry env.script.now) (transaction_error "quote expired"))
                (λ _.
                  lift_then-OnlyGrows (verify_mint_quote_witness env backends q os signature)
                    (λ signed. lift_then-OnlyGrows (require signed quote_signature_invalid) (λ _.
                      >>=-OnlyGrows (store_blinded_messages-OnlyGrows env os none (some id) none)
                        (λ _. sign_blinded_messages-OnlyGrows env os))))))

  mint_refreshed-OnlyGrows :
      (os : List BlindedMessage) (id : String) (signature : Option String) (unit : CurrencyUnit)
      (q : MintQuote)
      → OnlyGrows (mint_refreshed env backends os id signature unit q)
  unfolding mint_refreshed mint_locked
  mint_refreshed-OnlyGrows os id signature unit q =
      lift_then-OnlyGrows
        (raise_if (mint_state_eq q.state MintQuoteState.pending)
          (transaction_error "Mint quote already pending."))
        (λ _.
          lift_then-OnlyGrows
            (raise_if (mint_state_eq q.state MintQuoteState.issued) quote_already_issued)
            (λ _.
              lift_then-OnlyGrows
                (require (mint_state_eq q.state MintQuoteState.paid) quote_not_paid)
                (λ _. >>=-OnlyGrows (set_mint_quote_pending-OnlyGrows id) (λ _.
                  >>=-OnlyGrows
                    (except_do-OnlyGrows (mint_body-OnlyGrows id unit q os signature)
                      (release-OnlyGrows id q.state))
                    (λ _.
                      >>=-OnlyGrows (release-OnlyGrows id MintQuoteState.issued)
                        (λ _. lift-OnlyGrows))))))

  pub mint-OnlyGrows :
      (os : List BlindedMessage) (id : String) (signature : Option String)
      → OnlyGrows (mint env backends os id signature)
  unfolding mint
  mint-OnlyGrows os id signature =
      >>=-OnlyGrows (check-OnlyGrows (verify_outputs env os false)) (λ _.
        lift_then-OnlyGrows (output_unit env backends os) (λ unit.
          >>=-OnlyGrows (refresh_mint_quote-OnlyGrows id)
            (λ q. mint_refreshed-OnlyGrows os id signature unit q)))
