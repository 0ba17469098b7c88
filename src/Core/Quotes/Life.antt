-- ===== src/Core/Quotes/Life.antt =====
-- The life of a mint quote: the states that assignments to `state` can lead it through.
use nutshell.Base.{◌≡◌, subst, arith}
use nutshell.Core.Quotes.{MintQuote, MintQuoteState, set_mint_state}
use nutshell.Core.Result.{ok}

-- Any number of assignments that the guards let through.
pub data Life : MintQuote → MintQuote → Type 0 where
  same : (q : MintQuote) → Life q q
  assign :
      (q r t : MintQuote) (value : MintQuoteState)
      → set_mint_state q value ≡ ok r
      → Life r t
      → Life q t

assign-unpaid :
    (q r : MintQuote) (value : MintQuoteState)
    → q.state ≡ MintQuoteState.unpaid
    → set_mint_state q value ≡ ok r
    → r ≡ record q { state = MintQuoteState.paid }
unfolding set_mint_state
assign-unpaid q r value h e = ground arith

-- An unpaid mint quote that ends up issued has been paid first: its life goes on from the same quote
-- with the state paid.
pub unpaid_becomes_paid :
    (q t : MintQuote)
    → Life q t
    → q.state ≡ MintQuoteState.unpaid
    → t.state ≡ MintQuoteState.issued
    → Life (record q { state = MintQuoteState.paid }) t
unpaid_becomes_paid q t (same _) h issued = absurd (ground arith)
unpaid_becomes_paid q t (assign _ r _ value e rest) h issued =
    subst (λ x. Life x t) (assign-unpaid q r value h e) rest
