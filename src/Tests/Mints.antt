-- ===== src/Tests/Mints.antt =====
-- Minting, settling and change of the small mint.
use nutshell.Base.{
  Option, arith, pos, true, false, none, some, List, [], ◌∷◌, ◌≡◌, refl, ◌+ℤ◌, ◌-ℤ◌,
}
use nutshell.Core.Proofs.{BlindedMessage, BlindedSignature}
use nutshell.Core.Quotes.{MintQuote, set_mint_state}
use nutshell.Core.Result.{ok}
use nutshell.Mint.State.{Mint, transaction}
use nutshell.Mint.Verification.{
  verify_outputs, verify_amount, verify_no_duplicate_outputs,
  check_outputs_pending_or_issued_before,
}
use nutshell.Mint.Verification.Quotes.{
  Backends, verify_and_get_unit_method, verify_mint_quote_witness,
}
use nutshell.Mint.Crud.{
  get_outputs, store_blinded_message, update_blinded_message_signature, bump_keyset_balance,
}
use nutshell.Mint.Quotes.{get_mint_quote, update_mint_quote}
use nutshell.Mint.Write.Quotes.{
  set_mint_quote_pending, lock_mint_quote, unset_mint_quote_pending, unlock_mint_quote,
}
use nutshell.Mint.Ledger.Promise.{compute_promises, compute_promise}
use nutshell.Mint.Ledger.Issue.{
  store_blinded_messages, store_blinded_messages_in, store_step, sign_blinded_messages, sign_all,
  sign_step,
}
use nutshell.Mint.Ledger.Minting.{
  mint, mint_refreshed, mint_locked, mint_body, refresh_mint_quote, check_mint_quote, check_invoice,
  mark_paid,
}
use nutshell.Mint.Ledger.Minted.{IsMinted, mint-IsMinted}
use nutshell.Mint.Ledger.Creating.{mint_quote as mint_quote_of}
use nutshell.Mint.Verification.{Env}
use nutshell.Mint.Melt.Refresh.{refresh_melt_quote}
use nutshell.Mint.History.Steps.{Step, Run, mint_issues_once}
use nutshell.Tests.Creations.{settings, invoices, backends as quoting, minted as minted_request}
use nutshell.Tests.Histories.{payments}
use nutshell.Tests.World.{env, output, start}
use nutshell.Base.{pos_part, ◌≤ℤ◌, ◌⊎◌, length}
use Prim.Native.Nat.{◌≤◌}
use nutshell.Core.Quotes.{MintQuoteState, MeltQuote, MeltQuoteState, set_melt_state, set_mint_state}
use nutshell.Core.Split.{amount_split, split_loop, bit_length}
use nutshell.Mint.Crud.{delete_blinded_messages_melt_id}
use nutshell.Mint.Quotes.{update_melt_quote}
use nutshell.Mint.Write.MintQuotes.{row_of}
use nutshell.Mint.Ledger.Change.{generate_change_promises, sign_change}
use nutshell.Mint.Ledger.ChangeSum.{
  sum_signatures, generate_change_promises_le_overpaid, generate_change_promises_returns_all,
}
use nutshell.Mint.Ledger.Settling.{
  melt_mint_settle_internally, settle_found, check_settlement, settle_both, settled_melt, IsSettled,
  IsExternal, melt_mint_settle_internally-returns,
}
use nutshell.Mint.Ledger.Refreshed.{IsMarked, refresh_mint_quote-returns}
use nutshell.Tests.World.{melt_quote, mint_quote}

abbrev backends : Backends
backends = record {
  supports = λ m u. true;
  settled = λ c. some true;
  amount_msat = λ r. some (some (pos 4000));
  verify_x_only = λ p m s. some false;
}

abbrev outputs : List BlindedMessage
outputs = output 2 "b" ∷ output 2 "c" ∷ []

abbrev signatures : List BlindedSignature
signatures =
    record { id = "k"; amount = pos 2; C_ = "twob"; dleq = ("e", "s") }
    ∷ record { id = "k"; amount = pos 2; C_ = "twoc"; dleq = ("e", "s") }
    ∷ []

abbrev minted : Mint
minted = (mint env backends outputs "q" none start).1

mint_runs : mint env backends outputs "q" none start ≡ (ok signatures, minted)
unfolding mint mint_refreshed mint_locked mint_body refresh_mint_quote check_mint_quote
    check_invoice mark_paid verify_outputs verify_amount verify_no_duplicate_outputs
    check_outputs_pending_or_issued_before verify_and_get_unit_method verify_mint_quote_witness
    get_outputs store_blinded_message update_blinded_message_signature bump_keyset_balance
    get_mint_quote update_mint_quote set_mint_quote_pending lock_mint_quote unset_mint_quote_pending
    unlock_mint_quote compute_promises compute_promise store_blinded_messages
    store_blinded_messages_in store_step sign_blinded_messages sign_all sign_step set_mint_state
    transaction ◌+ℤ◌ ◌-ℤ◌
mint_runs = refl

mint-IsMinted_example :
    (quote : MintQuote) × (u : Mint) × (verify_outputs env outputs false start.db ≡ ok tt)
    × (refresh_mint_quote env backends "q" start ≡ (ok quote, u))
    × IsMinted env (refl, tt) backends "q" outputs none signatures quote u minted
mint-IsMinted_example =
    mint-IsMinted env (refl, tt) backends "q" outputs none start minted signatures refl mint_runs

-- After the minting a mint quote and a melt quote are asked for, with a later clock.
abbrev later_env : Env
later_env = record env { script = record env.script { now = 2000000 } }

abbrev asked : Mint
asked = (mint_quote_of later_env settings quoting invoices (minted_request (pos 4)) minted).1

abbrev asked_again : Mint
asked_again = (refresh_melt_quote later_env backends payments "m" false asked).1

run : Run minted asked_again
run =
    Run.next
      (Run.next (Run.here minted)
        (Step.mint_quoted later_env settings quoting invoices (minted_request (pos 4)) minted))
      (Step.melt_quote_read later_env backends payments "m" false asked)

mint_issues_once_example :
    ¬ mint later_env backends (output 4 "d" ∷ []) "q" none asked_again ≡ (ok [], start)
mint_issues_once_example =
    mint_issues_once env later_env (refl, tt) backends backends "q" outputs (output 4 "d" ∷ []) none
      none start minted asked_again start signatures [] refl mint_runs run

-- The same mint with its quote unpaid.
abbrev unpaid : Mint
unpaid = record start {
  db = record start.db { mint_quotes = mint_quote MintQuoteState.unpaid ∷ [] };
}

abbrev marked_quote : MintQuote
marked_quote = record (mint_quote MintQuoteState.paid) { paid_time = some 1 }

abbrev refreshed : Mint
refreshed = (refresh_mint_quote env backends "q" unpaid).1

refresh_runs : refresh_mint_quote env backends "q" unpaid ≡ (ok marked_quote, refreshed)
unfolding refresh_mint_quote check_mint_quote check_invoice mark_paid verify_and_get_unit_method
    get_mint_quote update_mint_quote set_mint_state transaction
refresh_runs = refl

refresh_mint_quote-returns_example :
    (row : MintQuote) × (row_of "q" unpaid.db.mint_quotes ≡ some row)
    × (((marked_quote ≡ row) × (refreshed ≡ unpaid))
        ⊎ ((backends.settled row.checking_id ≡ some true)
            × IsMarked env backends "q" row marked_quote unpaid refreshed))
refresh_mint_quote-returns_example =
    refresh_mint_quote-returns env backends "q" marked_quote unpaid refreshed refl refresh_runs

abbrev pending_melt : MeltQuote
pending_melt = melt_quote MeltQuoteState.pending

abbrev settled : Mint
settled = (melt_mint_settle_internally env backends pending_melt unpaid).1

settle_runs :
    melt_mint_settle_internally env backends pending_melt unpaid
    ≡ (ok (settled_melt env backends pending_melt), settled)
unfolding melt_mint_settle_internally settle_found check_settlement settle_both get_mint_quote
    update_mint_quote update_melt_quote set_mint_state set_melt_state transaction
settle_runs = refl

melt_mint_settle_internally-returns_example :
    (found : Option MintQuote) × (get_mint_quote "" "" "ln" unpaid ≡ (ok found, unpaid))
    × ((IsExternal env backends pending_melt found
          × (settled_melt env backends pending_melt ≡ pending_melt)
          × (settled ≡ unpaid))
        ⊎ ((q : MintQuote) × (found ≡ some q)
            × (settled_melt env backends pending_melt ≡ settled_melt env backends pending_melt)
            × IsSettled env backends pending_melt q unpaid settled))
melt_mint_settle_internally-returns_example =
    melt_mint_settle_internally-returns env backends pending_melt unpaid settled
      (settled_melt env backends pending_melt) settle_runs

-- Five were provided for fees and two were paid; three blank outputs are more than enough.
abbrev blanks : List BlindedMessage
blanks = output 1 "b" ∷ output 1 "c" ∷ output 1 "d" ∷ []

-- The blank outputs are stored when the melt begins.
abbrev stored : Mint
stored = (store_blinded_messages env blanks none none (some "m") start).1

abbrev changed : Mint
changed = (generate_change_promises env (pos 5) (pos 2) (some blanks) (some "m") stored).1

abbrev change : List BlindedSignature
change =
    record { id = "k"; amount = pos 2; C_ = "twob"; dleq = ("e", "s") }
    ∷ record { id = "k"; amount = pos 1; C_ = "onec"; dleq = ("e", "s") }
    ∷ []

change_runs :
    generate_change_promises env (pos 5) (pos 2) (some blanks) (some "m") stored
    ≡ (ok change, changed)
unfolding generate_change_promises sign_change amount_split split_loop bit_length
    verify_no_duplicate_outputs sign_blinded_messages compute_promises compute_promise
    store_blinded_messages store_blinded_messages_in store_step store_blinded_message sign_all
    sign_step update_blinded_message_signature bump_keyset_balance delete_blinded_messages_melt_id
    transaction ◌+ℤ◌ ◌-ℤ◌
change_runs = refl

generate_change_promises_le_overpaid_example :
    sum_signatures change ≤ℤ pos (pos_part (pos 5 -ℤ pos 2))
generate_change_promises_le_overpaid_example =
    generate_change_promises_le_overpaid env (refl, tt) (pos 5) (pos 2) blanks (some "m") stored
      changed change change_runs

two_pieces : length (amount_split (pos 5 -ℤ pos 2)) ≤ length blanks
unfolding amount_split split_loop bit_length ◌-ℤ◌
two_pieces = omega arith

generate_change_promises_returns_all_example :
    sum_signatures change ≡ pos (pos_part (pos 5 -ℤ pos 2))
generate_change_promises_returns_all_example =
    generate_change_promises_returns_all env (refl, tt) (pos 5) (pos 2) blanks (some "m") stored
      changed change two_pieces change_runs
