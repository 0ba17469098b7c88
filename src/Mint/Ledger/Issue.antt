-- ===== src/Mint/Ledger/Issue.antt =====
-- Storing and signing blinded messages, and spending proofs: the writes of cashu/mint/ledger.py that
-- run on the connection of a caller or on one of their own.
use nutshell.Base.{
  ℕ, pos, String, Option, none, some, List, [], ◌∷◌, ◌++◌, ◌==◌, ltb, if◌then◌else◌, is_some,
}
use nutshell.Core.Errors.{transaction_error, exception}
use nutshell.Core.Proofs.{Proof, BlindedMessage, BlindedSignature, ProofSpentState}
use nutshell.Core.Result.{Result, ok, err, require, get, item}
use nutshell.Mint.State.{
  MintKeyset, proof_event, Action, lift, pure, submit, for_each, transaction, ◌>>=◌, ◌>>◌,
}
use nutshell.Mint.Crud.{
  store_blinded_message, update_blinded_message_signature, invalidate_proof, bump_keyset_balance,
  bump_keyset_fees_paid,
}
use nutshell.Mint.Write.{negate}
use nutshell.Mint.Ledger.Promise.{Computed, signature_of, compute_promises}
use nutshell.Mint.Verification.{Env, get_fees_for_proofs}

-- `p.witness or None`
abbrev witness_or_none : Option String → Option String
witness_or_none none = none
witness_or_none (some w) = if w == "" then none else some w

-- `setdefault(p.id, []).append(p)`, on a dict in the order of insertion.
abbrev pub append_to : Proof → List (String × List Proof) → List (String × List Proof)
append_to p [] = (p.id, p ∷ []) ∷ []
append_to p ((k, ps) ∷ groups) =
    if k == p.id then (k, ps ++ p ∷ []) ∷ groups else (k, ps) ∷ append_to p groups

abbrev pub group_from : List (String × List Proof) → List Proof → List (String × List Proof)
group_from groups [] = groups
group_from groups (p ∷ ps) = group_from (append_to p groups) ps

-- `keyset or …`
abbrev pub keyset_or : Option MintKeyset → Result MintKeyset → Result MintKeyset
keyset_or none r = r
keyset_or (some m) r = ok m

-- With no outputs the name `keyset` is unbound.
abbrev pub bound : List BlindedMessage → Result (Unit {0})
bound [] = err (exception "UnboundLocalError")
bound (o ∷ outputs) = ok tt

module _ (env : Env) where
  open env use {keysets}

  unfoldable pub invalidate_step : Option String → Proof → Action (Unit {0})
  invalidate_step quote_id p = do
    invalidate_proof p quote_id
    keyset ← lift (item p.id keysets)
    bump_keyset_balance keyset (negate p.amount)
    submit (
        proof_event
          (record { Y = p.Y; state = ProofSpentState.spent; witness = witness_or_none p.witness }))

  abbrev charge : String → ℕ → Action (Unit {0})
  charge id fees =
      if ltb 0 fees
      then (lift (item id keysets) >>= λ keyset. bump_keyset_fees_paid keyset (pos fees))
      else pure tt

  unfoldable pub fees_step : String × List Proof → Action (Unit {0})
  fees_step (id, group) = lift (get_fees_for_proofs env group) >>= charge id

  -- `_invalidate_proofs` on the connection of its caller.
  unfoldable pub invalidate_proofs_in : List Proof → Option String → Action (Unit {0})
  invalidate_proofs_in proofs quote_id = do
    for_each (invalidate_step quote_id) proofs
    for_each fees_step (group_from [] proofs)

  unfoldable pub invalidate_proofs : List Proof → Option String → Action (Unit {0})
  invalidate_proofs proofs quote_id = transaction (invalidate_proofs_in proofs quote_id)

  -- One round of `_store_blinded_messages`; the keyset of the first round stays for the others.
  unfoldable pub store_step :
      Option MintKeyset → Option String → Option String → BlindedMessage → Action MintKeyset
  store_step given mint_id melt_id output = do
    keyset ← lift (keyset_or given (item output.id keysets))
    lift (require (is_some (get output.id keysets)) (transaction_error "keyset not found"))
    lift (require (output.id == keyset.id) (transaction_error "keyset id does not match output id"))
    lift (require keyset.active (transaction_error "keyset is not active"))
    store_blinded_message keyset.id output.amount output.B_ mint_id melt_id
    pure keyset

  unfoldable pub store_blinded_messages_in :
      List BlindedMessage → Option MintKeyset → Option String → Option String → Action (Unit {0})
  store_blinded_messages_in [] given mint_id melt_id = pure tt
  store_blinded_messages_in (o ∷ outputs) given mint_id melt_id =
      store_step given mint_id melt_id o >>= λ keyset.
      store_blinded_messages_in outputs (some keyset) mint_id melt_id

  unfoldable pub store_blinded_messages :
      List BlindedMessage → Option MintKeyset → Option String → Option String → Action (Unit {0})
  store_blinded_messages outputs given mint_id melt_id =
      transaction (store_blinded_messages_in outputs given mint_id melt_id)

  unfoldable pub sign_step : Computed → Action BlindedSignature
  sign_step c = do
    update_blinded_message_signature c.amount c.B_ c.C_ c.dleq
    keyset ← lift (item c.keyset_id keysets)
    bump_keyset_balance keyset c.amount
    pure (signature_of c)

  unfoldable pub sign_all : List Computed → Action (List BlindedSignature)
  sign_all [] = pure []
  sign_all (c ∷ cs) =
      sign_step c >>= λ signature. sign_all cs >>= λ signatures. pure (signature ∷ signatures)

  unfoldable pub sign_blinded_messages_in : List BlindedMessage → Action (List BlindedSignature)
  sign_blinded_messages_in outputs = do
    computed ← lift (compute_promises env outputs)
    lift (bound outputs)
    sign_all computed

  unfoldable pub sign_blinded_messages : List BlindedMessage → Action (List BlindedSignature)
  sign_blinded_messages outputs = do
    computed ← lift (compute_promises env outputs)
    lift (bound outputs)
    transaction (sign_all computed)
