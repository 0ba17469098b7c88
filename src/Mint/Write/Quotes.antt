-- ===== src/Mint/Write/Quotes.antt =====
-- The methods of `DbWriteHelper` that move quotes between their states (cashu/mint/db/write.py).
use nutshell.Base.{String, Bool, Option, ◌||◌, ◌==◌, is_empty, any_of}
use nutshell.Core.Errors.{transaction_error}
use nutshell.Core.Quotes.{
  MintQuote, MeltQuote, MintQuoteState, MeltQuoteState, mint_state_eq, melt_state_eq,
  set_mint_state, set_melt_state,
}
use nutshell.Core.Result.{require, raise_if, or_raise}
use nutshell.Mint.State.{
  Db, mint_quote_event, melt_quote_event, Action, lift, pure, gets, submit, transaction, ◌>>=◌,
  ◌>>◌,
}
use nutshell.Mint.Quotes.{
  get_mint_quote, update_mint_quote, get_melt_quote, update_melt_quote, store_melt_quote,
  get_melt_quotes_by_checking_id,
}

-- What is done with the row that was found.
unfoldable pub lock_mint_quote : Option MintQuote → Action MintQuote
lock_mint_quote found = do
  quote ← lift (or_raise found (transaction_error "Mint quote not found."))
  lift (
      raise_if (mint_state_eq quote.state MintQuoteState.pending)
        (transaction_error "Mint quote already pending."))
  lift (
      require (mint_state_eq quote.state MintQuoteState.paid)
        (transaction_error "Mint quote is not paid yet."))
  quote' ← lift (set_mint_state quote MintQuoteState.pending)
  update_mint_quote quote'
  pure quote'

unfoldable pub set_mint_quote_pending : String → Action MintQuote
set_mint_quote_pending quote_id = transaction (get_mint_quote quote_id "" "" >>= lock_mint_quote)

unfoldable pub unlock_mint_quote : MintQuoteState → Option MintQuote → Action MintQuote
unlock_mint_quote state found = do
  quote ← lift (or_raise found (transaction_error "Mint quote not found."))
  lift (
      require (mint_state_eq quote.state MintQuoteState.pending)
        (transaction_error "Mint quote not pending."))
  quote' ← lift (set_mint_state quote state)
  update_mint_quote quote'
  pure quote'

unfoldable pub unset_mint_quote_pending : String → MintQuoteState → Action MintQuote
unset_mint_quote_pending quote_id state = do
  quote ← transaction (get_mint_quote quote_id "" "" >>= unlock_mint_quote state)
  submit (mint_quote_event quote)
  pure quote

abbrev pub pending_or_paid : MeltQuote → Bool
pending_or_paid q =
    melt_state_eq q.state MeltQuoteState.pending || melt_state_eq q.state MeltQuoteState.paid

-- Is a melt quote with this checking id pending or paid?
abbrev pub is_taken : String → Db → Bool
is_taken checking_id db = any_of pending_or_paid (get_melt_quotes_by_checking_id checking_id db)

-- What stands under the lock; `quote.model_copy()` is the value itself.
unfoldable pub set_melt_quote_body : MeltQuote → Action MeltQuote
set_melt_quote_body quote = do
  quotes_db ← gets (get_melt_quotes_by_checking_id quote.checking_id)
  lift (raise_if (is_empty quotes_db) (transaction_error "Melt quote not found."))
  lift (
      raise_if (any_of pending_or_paid quotes_db)
        (transaction_error "Melt quote already paid or pending."))
  quote' ← lift (set_melt_state quote MeltQuoteState.pending)
  update_melt_quote quote'
  pure quote'

unfoldable pub set_melt_quote_pending : MeltQuote → Action MeltQuote
set_melt_quote_pending quote = do
  lift (
      raise_if (quote.checking_id == "") (transaction_error "Melt quote doesn't have checking ID."))
  quote' ← transaction (set_melt_quote_body quote)
  submit (melt_quote_event quote')
  pure quote'

unfoldable pub unset_melt_quote_body : MeltQuote → MeltQuoteState → Action MeltQuote
unset_melt_quote_body quote state = do
  found ← get_melt_quote quote.quote "" ""
  quote_db ← lift (or_raise found (transaction_error "Melt quote not found."))
  lift (
      require (melt_state_eq quote_db.state MeltQuoteState.pending)
        (transaction_error "Melt quote not pending."))
  quote' ← lift (set_melt_state quote state)
  update_melt_quote quote'
  pure quote'

unfoldable pub unset_melt_quote_pending : MeltQuote → MeltQuoteState → Action MeltQuote
unfolding unset_melt_quote_body
unset_melt_quote_pending quote state = do
  quote' ← transaction (unset_melt_quote_body quote state)
  submit (melt_quote_event quote')
  pure quote'

unfoldable pub update_mint_quote_state : String → MintQuoteState → Action (Unit {0})
update_mint_quote_state quote_id state = transaction (do
  found ← get_mint_quote quote_id "" ""
  quote ← lift (or_raise found (transaction_error "Mint quote not found."))
  quote' ← lift (set_mint_state quote state)
  update_mint_quote quote')

unfoldable pub update_melt_quote_state : String → MeltQuoteState → Action (Unit {0})
update_melt_quote_state quote_id state = transaction (do
  found ← get_melt_quote quote_id "" ""
  quote ← lift (or_raise found (transaction_error "Melt quote not found."))
  quote' ← lift (set_melt_state quote state)
  update_melt_quote quote')

-- `_store_melt_quote`
unfoldable pub store_new_melt_quote : MeltQuote → Action (Unit {0})
store_new_melt_quote quote = transaction (do
  quotes_db ← gets (get_melt_quotes_by_checking_id quote.checking_id)
  lift (
      raise_if (any_of pending_or_paid quotes_db)
        (transaction_error "Melt quote already paid or pending."))
  store_melt_quote quote)
