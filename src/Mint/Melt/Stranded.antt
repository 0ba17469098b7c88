-- ===== src/Mint/Melt/Stranded.antt =====
-- A melt whose quote cannot be locked (cashu/mint/ledger.py, 934-939): nothing takes back the lock on the
-- proofs that was taken before it.
use nutshell.Base.{true, false, some, List, ◌==◌, ◌≡◌, ◌∙◌, arith}
use nutshell.Core.Errors.{transaction_error}
use nutshell.Core.Proofs.{Proof, BlindedMessage}
use nutshell.Core.Result.{ok, err}
use nutshell.Mint.State.{Mint, IsKeyed}
use nutshell.Mint.Chains.{>>=-ok, >>=-err}
use nutshell.Mint.Lightning.{Payments}
use nutshell.Mint.Verification.{Env}
use nutshell.Mint.Verification.Quotes.{Backends}
use nutshell.Mint.Write.{verify_spent_proofs_and_set_pending}
use nutshell.Mint.Write.Pending.{IsPending, verify_spent_proofs_and_set_pending-returns}
use nutshell.Mint.Write.Quotes.{is_taken, set_melt_quote_pending}
use nutshell.Mint.Quotes.{get_melt_quotes_by_checking_id}
use nutshell.Mint.Write.MeltQuotes.{taken-refused}
use nutshell.Mint.Melt.Checks.{Checked}
use nutshell.Mint.Melt.Pay.{melt_checked}

-- When the proofs of a checked melt can be set pending, and a quote with the same checking id (which may be
-- another quote for the same invoice) is pending or paid, the rest of the melt raises "Melt quote already
-- paid or pending." and leaves the proofs in the pending table with their amounts off the balances. (The
-- checking id is not empty; every keyset is filed under its own id.)
pub melt_checked-IsPending :
    (env : Env) (backends : Backends) (payments : Payments) (ps : List Proof)
    (os : List BlindedMessage) (c : Checked) (s u : Mint)
    → IsKeyed env.keysets
    → (c.quote.checking_id == "") ≡ false
    → is_taken c.quote.checking_id s.db ≡ true
    → verify_spent_proofs_and_set_pending env.keysets ps (some c.quote.quote) s ≡ (ok tt, u)
    → (melt_checked env backends payments ps os c s
        ≡ (err (transaction_error "Melt quote already paid or pending."), u))
      × IsPending ps (some c.quote.quote) s.db u.db
unfolding melt_checked get_melt_quotes_by_checking_id
melt_checked-IsPending env backends payments ps os c s u keyed named taken e =
    let (_, set) =
      verify_spent_proofs_and_set_pending-returns env.keysets ps (some c.quote.quote) s u keyed e in
    let (refused, _) = taken-refused c.quote u named (ground (arith, set.others, taken)) in
    (
      >>=-ok (verify_spent_proofs_and_set_pending env.keysets ps (some c.quote.quote)) _ s tt u e
          ∙ >>=-err (set_melt_quote_pending c.quote) _ u
              (transaction_error "Melt quote already paid or pending.") u refused,
      set,
    )
