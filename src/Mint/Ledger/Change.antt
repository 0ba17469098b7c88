-- ===== src/Mint/Ledger/Change.antt =====
-- `_generate_change_promises` of cashu/mint/ledger.py: signatures on blank outputs for a fee that was
-- overpaid.
use nutshell.Base.{
  ℕ, ℤ, pos, ◌-ℤ◌, String, Option, none, some, List, [], ◌∷◌, ◌==◌, leb, ltb_ℤ, if◌then◌else◌,
}
use nutshell.Core.Errors.{transaction_error}
use nutshell.Core.Proofs.{BlindedMessage, BlindedSignature}
use nutshell.Core.Result.{require}
use nutshell.Core.Split.{amount_split}
use nutshell.Mint.State.{Action, lift, pure, ◌>>=◌, ◌>>◌}
use nutshell.Mint.Crud.{delete_blinded_messages_melt_id}
use nutshell.Mint.Verification.{Env, verify_no_duplicate_outputs}
use nutshell.Mint.Ledger.Issue.{sign_blinded_messages}

-- `sorted(amounts, reverse=True)`
abbrev pub insert_descending : ℕ → List ℕ → List ℕ
insert_descending n [] = n ∷ []
insert_descending n (m ∷ ms) = if leb m n then n ∷ m ∷ ms else m ∷ insert_descending n ms

abbrev pub sort_descending : List ℕ → List ℕ
sort_descending [] = []
sort_descending (n ∷ ns) = insert_descending n (sort_descending ns)

-- The largest amounts on the first outputs, and no output without an amount.
abbrev pub imprint : List ℕ → List BlindedMessage → List BlindedMessage
imprint [] outputs = []
imprint (n ∷ ns) [] = []
imprint (n ∷ ns) (o ∷ outputs) = record o { amount = pos n } ∷ imprint ns outputs

abbrev pub change_outputs : ℤ → List BlindedMessage → List BlindedMessage
change_outputs overpaid outputs = imprint (sort_descending (amount_split overpaid)) outputs

-- `if melt_id:` delete what is left unsigned.
abbrev pub delete_rest : Option String → Action (Unit {0})
delete_rest none = pure tt
delete_rest (some id) = if id == "" then pure tt else delete_blinded_messages_melt_id id

module _ (env : Env) where
  unfoldable pub sign_change :
      ℤ → List BlindedMessage → Option String → Action (List BlindedSignature)
  sign_change overpaid outputs melt_id = do
    lift (
        require (verify_no_duplicate_outputs env (change_outputs overpaid outputs))
          (transaction_error "duplicate promises."))
    return_promises ← sign_blinded_messages env (change_outputs overpaid outputs)
    delete_rest melt_id
    pure return_promises

  unfoldable pub generate_change_promises :
      ℤ → ℤ → Option (List BlindedMessage) → Option String → Action (List BlindedSignature)
  generate_change_promises fee_provided fee_paid none melt_id = pure []
  generate_change_promises fee_provided fee_paid (some outputs) melt_id =
      if ltb_ℤ (pos 0) (fee_provided -ℤ fee_paid)
      then sign_change (fee_provided -ℤ fee_paid) outputs melt_id
      else pure []
