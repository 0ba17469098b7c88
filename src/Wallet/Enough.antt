-- ===== src/Wallet/Enough.antt =====
-- Without fees, `coinselect` of cashu/wallet/transactions.py selects enough.
use nutshell.Base.{ℤ, ◌≤ℤ◌, List}
use nutshell.Core.Currency.{thousandfold}
use nutshell.Core.Proofs.{Proof, sum_proofs}
use nutshell.Core.Result.{Result}
use nutshell.Wallet.State.{Wallet}

-- The selection is worth the amount.
abbrev pub Covers : ℤ → List Proof → Type 0
Covers amount ps = amount ≤ℤ thousandfold (sum_proofs ps)
