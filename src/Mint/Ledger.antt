-- ===== src/Mint/Ledger.antt =====
-- `Ledger` of cashu/mint/ledger.py: swaps.
pub mod Promise
pub mod Issue
pub mod Loops
pub mod SwapBody
pub mod Swap
pub mod Change
pub mod ChangeSum
pub mod Settling
pub mod QuoteChecks
pub mod Creating
pub mod Priced
pub mod Quoted
pub mod Minting
pub mod Issued
pub mod Minted
pub mod Refreshed
use nutshell.Base.{Bool, Option, none, some, List}
use nutshell.Core.Proofs.{Proof, BlindedMessage, BlindedSignature}
use nutshell.Core.Result.{Result}
use nutshell.Mint.State.{Mint, MintKeyset, Action, check, transaction, finally_do, ◌>>=◌, ◌>>◌}
use nutshell.Mint.Write.{verify_spent_proofs_and_set_pending, unset_proofs_pending}
use nutshell.Mint.Verification.{Env, verify_inputs_and_outputs}
use Issue.{invalidate_proofs_in, store_blinded_messages_in, sign_blinded_messages_in}

module _ (env : Env) where
  -- The transaction of a swap: store the outputs, spend the inputs, sign.
  unfoldable pub swap_body :
      List Proof → List BlindedMessage → Option MintKeyset → Action (List BlindedSignature)
  swap_body proofs outputs keyset = do
    store_blinded_messages_in env outputs keyset none none
    invalidate_proofs_in env proofs none
    sign_blinded_messages_in env outputs

  unfoldable pub swap :
      List Proof → List BlindedMessage → Option MintKeyset → Action (List BlindedSignature)
  swap proofs outputs keyset = do
    check (verify_inputs_and_outputs env proofs (some outputs))
    verify_spent_proofs_and_set_pending env.keysets proofs none
    finally_do (transaction (swap_body proofs outputs keyset))
        (unset_proofs_pending env.keysets proofs Bool.true)
