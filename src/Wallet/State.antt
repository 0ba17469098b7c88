-- ===== src/Wallet/State.antt =====
-- What `WalletTransactions` of cashu/wallet/transactions.py reads: the keysets of the wallet, the active
-- one, and the proofs with their `reserved` flag; and the fees of proofs.
use nutshell.Base.{ℕ, ◌+◌, ◌*◌, ◌/◌, ℤ, String, Bool, List, [], ◌∷◌, length}
use nutshell.Core.Errors.{exception}
use nutshell.Core.Proofs.{Proof}
use nutshell.Core.Result.{Result, ok, or_raise, get, Dict, ◌>>=◌}

-- `public_keys` with its keys alone: the amounts that the keyset signs.
pub record WalletKeyset : Type 0 where
  pub id : String
  pub amounts : List ℤ
  pub input_fee_ppk : ℕ

pub record Wallet : Type 0 where
  pub keysets : Dict WalletKeyset
  pub keyset_id : String
  pub proofs : List (Proof × Bool)
  pub wallet_target_amount_count : ℕ

-- `max((… + 999) // 1000, 0)`
abbrev pub rounded_up : ℕ → ℕ
rounded_up ppk = (ppk + 999) / 1000

unfoldable pub get_fees_for_keyset : List ℤ → WalletKeyset → ℕ
get_fees_for_keyset amounts keyset = rounded_up (length amounts * keyset.input_fee_ppk)

module _ (w : Wallet) where
  unfoldable pub get_fees_for_proofs_ppk : List Proof → Result ℕ
  get_fees_for_proofs_ppk [] = ok 0
  get_fees_for_proofs_ppk (p ∷ ps) = do
    keyset ← or_raise (get p.id w.keysets) (exception "no keyset with ID")
    rest ← get_fees_for_proofs_ppk ps
    ok (keyset.input_fee_ppk + rest)

  unfoldable pub get_fees_for_proofs : List Proof → Result ℕ
  get_fees_for_proofs ps = get_fees_for_proofs_ppk ps >>= λ ppk. ok (rounded_up ppk)
