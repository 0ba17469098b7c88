-- ===== src/Mint/History/Writes.antt =====
-- The writes of cashu/mint/db/write.py and of cashu/mint/ledger.py that requests share, under the
-- law of Mint/History/Grows.
use nutshell.Base.{
  is_some, ◌==◌, ℤ, pos, ltb, arith, Bool, true, false, Option, some, List, [], ◌∷◌, String, refl,
  inl, inr, contains, Bool-cases,
}
use nutshell.Core.Errors.{transaction_error}
use nutshell.Core.Result.{item, get, require}
use nutshell.Core.Proofs.{Proof, BlindedMessage}
use nutshell.Core.Quotes.{MeltQuote}
use nutshell.Mint.State.{Event, MintKeyset, Keysets, submit, lift, for_each, ◌>>=◌}
use nutshell.Mint.Crud.{
  Ys, invalidate_proof, set_proof_pending, unset_proof_pending, bump_keyset_balance,
  bump_keyset_fees_paid, store_blinded_message, update_blinded_message_signature,
  delete_blinded_messages_melt_id,
}
use nutshell.Mint.Quotes.{update_melt_quote, get_mint_quote, get_melt_quote}
use nutshell.Mint.Write.{
  negate, validate_proofs_pending, set_pending_step, set_pending_body,
  verify_spent_proofs_and_set_pending, unset_pending_step, unset_proofs_pending,
  unset_proofs_pending_in, announce_unspent,
}
use nutshell.Mint.Verification.{Env, get_fees_for_proofs}
use nutshell.Mint.Read.{verify_proofs_spendable}
use nutshell.Mint.Ledger.Issue.{
  invalidate_step, fees_step, group_from, invalidate_proofs_in, invalidate_proofs, store_step,
  store_blinded_messages_in, store_blinded_messages, sign_step, bound, keyset_or, sign_all,
  sign_blinded_messages_in, sign_blinded_messages,
}
use nutshell.Mint.Ledger.Promise.{Computed, compute_promises}
use nutshell.Mint.History.Grows.{
  Grows, Keeps-refl, OnlyGrows, untouched, lift_then-OnlyGrows, check-OnlyGrows, submit-OnlyGrows,
  lift-OnlyGrows, >>=-OnlyGrows, for_each-OnlyGrows, transaction-OnlyGrows, if-OnlyGrows,
}

invalidate_proof-OnlyGrows : (p : Proof) (q : Option String) → OnlyGrows (invalidate_proof p q)
unfolding invalidate_proof
invalidate_proof-OnlyGrows p q = record {
  grows = λ s. elim (Bool-cases (contains p.Y (Ys s.db.proofs_used))) [
    | inl there ↦ rw there (Keeps-refl s.db)
    | inr fresh ↦
        rw fresh (record { spent = Grows.spend _ Grows.unchanged fresh; issued = λ id h. h })
  ];
}

set_proof_pending-OnlyGrows : (p : Proof) (q : Option String) → OnlyGrows (set_proof_pending p q)
unfolding set_proof_pending
set_proof_pending-OnlyGrows p q = untouched (λ s. (ground arith, ground arith))

store_blinded_message-OnlyGrows :
    (id : String) (amount : ℤ) (b_ : String) (mint_id melt_id : Option String)
    → OnlyGrows (store_blinded_message id amount b_ mint_id melt_id)
unfolding store_blinded_message
store_blinded_message-OnlyGrows id amount b_ mint_id melt_id =
    untouched (λ s. (ground arith, ground arith))

update_blinded_message_signature-OnlyGrows :
    (amount : ℤ) (b_ c_ : String) (dleq : String × String)
    → OnlyGrows (update_blinded_message_signature amount b_ c_ dleq)
unfolding update_blinded_message_signature
update_blinded_message_signature-OnlyGrows amount b_ c_ dleq =
    untouched (λ s. (ground arith, ground arith))

-- Actions that leave the table of spent proofs as it is.
bump_keyset_balance-OnlyGrows : (m : MintKeyset) (a : ℤ) → OnlyGrows (bump_keyset_balance m a)
unfolding bump_keyset_balance
bump_keyset_balance-OnlyGrows m a = untouched (λ s. (refl, refl))

bump_keyset_fees_paid-OnlyGrows : (m : MintKeyset) (a : ℤ) → OnlyGrows (bump_keyset_fees_paid m a)
unfolding bump_keyset_fees_paid
bump_keyset_fees_paid-OnlyGrows m a = untouched (λ s. (refl, refl))

unset_proof_pending-OnlyGrows : (p : Proof) → OnlyGrows (unset_proof_pending p)
unfolding unset_proof_pending
unset_proof_pending-OnlyGrows p = untouched (λ s. (refl, refl))

pub delete_outputs-OnlyGrows : (id : String) → OnlyGrows (delete_blinded_messages_melt_id id)
unfolding delete_blinded_messages_melt_id
delete_outputs-OnlyGrows id = untouched (λ s. (refl, refl))

pub update_melt_quote-OnlyGrows : (q : MeltQuote) → OnlyGrows (update_melt_quote q)
unfolding update_melt_quote
update_melt_quote-OnlyGrows q = untouched (λ s. (refl, refl))

pub get_mint_quote-OnlyGrows : (id c r : String) → OnlyGrows (get_mint_quote id c r)
unfolding get_mint_quote
get_mint_quote-OnlyGrows id c r = untouched (λ s. (ground arith, ground arith))

pub get_melt_quote-OnlyGrows : (id c r : String) → OnlyGrows (get_melt_quote id c r)
unfolding get_melt_quote
get_melt_quote-OnlyGrows id c r = untouched (λ s. (ground arith, ground arith))

-- Sending events.
pub events-OnlyGrows :
    (f : Proof → Event) (ps : List Proof) → OnlyGrows (for_each (λ p. submit (f p)) ps)
events-OnlyGrows f ps = for_each-OnlyGrows (λ p. submit (f p)) (λ p. submit-OnlyGrows) ps

module _ (ks : Keysets) where
  -- The last two statements of the loops over proofs.
  bump_one-OnlyGrows :
      (id : String) (a : ℤ)
      → OnlyGrows (lift (item id ks) >>= λ keyset. bump_keyset_balance keyset a)
  bump_one-OnlyGrows id a =
      lift_then-OnlyGrows (item id ks) (λ m. bump_keyset_balance-OnlyGrows m a)

  set_pending_step-OnlyGrows : (q : Option String) (p : Proof) → OnlyGrows (set_pending_step ks q p)
  unfolding set_pending_step
  set_pending_step-OnlyGrows q p =
      >>=-OnlyGrows (set_proof_pending-OnlyGrows p q)
        (λ _. bump_one-OnlyGrows p.id (negate p.amount))

  set_pending_body-OnlyGrows :
      (ps : List Proof) (q : Option String) → OnlyGrows (set_pending_body ks ps q)
  unfolding set_pending_body
  set_pending_body-OnlyGrows ps q =
      >>=-OnlyGrows (check-OnlyGrows (verify_proofs_spendable ps)) (λ _.
        >>=-OnlyGrows (check-OnlyGrows (validate_proofs_pending ps))
          (λ _. for_each-OnlyGrows (set_pending_step ks q) (set_pending_step-OnlyGrows q) ps))

  pub verify_spent_proofs_and_set_pending-OnlyGrows :
      (ps : List Proof) (q : Option String)
      → OnlyGrows (verify_spent_proofs_and_set_pending ks ps q)
  unfolding verify_spent_proofs_and_set_pending
  verify_spent_proofs_and_set_pending-OnlyGrows ps q =
      >>=-OnlyGrows (transaction-OnlyGrows (set_pending_body-OnlyGrows ps q))
        (λ _. events-OnlyGrows _ ps)

  unset_pending_step-OnlyGrows : (p : Proof) → OnlyGrows (unset_pending_step ks p)
  unfolding unset_pending_step
  unset_pending_step-OnlyGrows p =
      >>=-OnlyGrows (unset_proof_pending-OnlyGrows p) (λ _. bump_one-OnlyGrows p.id p.amount)

  announce_unspent-OnlyGrows :
      (spent : Bool) (ps : List Proof) → OnlyGrows (announce_unspent spent ps)
  announce_unspent-OnlyGrows true ps = lift-OnlyGrows
  announce_unspent-OnlyGrows false ps = events-OnlyGrows _ ps

  pub unset_proofs_pending_in-OnlyGrows :
      (ps : List Proof) (spent : Bool) → OnlyGrows (unset_proofs_pending_in ks ps spent)
  unfolding unset_proofs_pending_in
  unset_proofs_pending_in-OnlyGrows ps spent =
      >>=-OnlyGrows (for_each-OnlyGrows (unset_pending_step ks) unset_pending_step-OnlyGrows ps)
        (λ _. announce_unspent-OnlyGrows spent ps)

  pub unset_proofs_pending-OnlyGrows :
      (ps : List Proof) (spent : Bool) → OnlyGrows (unset_proofs_pending ks ps spent)
  unfolding unset_proofs_pending
  unset_proofs_pending-OnlyGrows ps spent =
      >>=-OnlyGrows
        (transaction-OnlyGrows
          (for_each-OnlyGrows (unset_pending_step ks) unset_pending_step-OnlyGrows ps))
        (λ _. announce_unspent-OnlyGrows spent ps)

module _ (env : Env) where
  invalidate_step-OnlyGrows : (q : Option String) (p : Proof) → OnlyGrows (invalidate_step env q p)
  unfolding invalidate_step
  invalidate_step-OnlyGrows q p = >>=-OnlyGrows (invalidate_proof-OnlyGrows p q) (λ _.
      >>=-OnlyGrows lift-OnlyGrows (λ m.
        >>=-OnlyGrows (bump_keyset_balance-OnlyGrows m (negate p.amount)) (λ _. submit-OnlyGrows)))

  fees_step-OnlyGrows : (g : String × List Proof) → OnlyGrows (fees_step env g)
  unfolding fees_step
  fees_step-OnlyGrows (id, group) = lift_then-OnlyGrows (get_fees_for_proofs env group) (λ fees.
      if-OnlyGrows (ltb 0 fees)
        (>>=-OnlyGrows lift-OnlyGrows (λ m. bump_keyset_fees_paid-OnlyGrows m (pos fees)))
        lift-OnlyGrows)

  pub invalidate_proofs_in-OnlyGrows :
      (ps : List Proof) (q : Option String) → OnlyGrows (invalidate_proofs_in env ps q)
  unfolding invalidate_proofs_in
  invalidate_proofs_in-OnlyGrows ps q =
      >>=-OnlyGrows (for_each-OnlyGrows (invalidate_step env q) (invalidate_step-OnlyGrows q) ps)
        (λ _. for_each-OnlyGrows (fees_step env) fees_step-OnlyGrows (group_from [] ps))

  pub invalidate_proofs-OnlyGrows :
      (ps : List Proof) (q : Option String) → OnlyGrows (invalidate_proofs env ps q)
  unfolding invalidate_proofs
  invalidate_proofs-OnlyGrows ps q = transaction-OnlyGrows (invalidate_proofs_in-OnlyGrows ps q)

  store_step-OnlyGrows :
      (given : Option MintKeyset) (mint_id melt_id : Option String) (o : BlindedMessage)
      → OnlyGrows (store_step env given mint_id melt_id o)
  unfolding store_step
  store_step-OnlyGrows given mint_id melt_id o =
      lift_then-OnlyGrows (keyset_or given (item o.id env.keysets)) (λ m.
        lift_then-OnlyGrows
          (require (is_some (get o.id env.keysets)) (transaction_error "keyset not found"))
          (λ _.
            lift_then-OnlyGrows
              (require (o.id == m.id) (transaction_error "keyset id does not match output id"))
              (λ _.
                lift_then-OnlyGrows (require m.active (transaction_error "keyset is not active"))
                  (λ _.
                    >>=-OnlyGrows
                      (store_blinded_message-OnlyGrows m.id o.amount o.B_ mint_id melt_id)
                      (λ _. lift-OnlyGrows)))))

  pub store_blinded_messages_in-OnlyGrows :
      (os : List BlindedMessage) (given : Option MintKeyset) (mint_id melt_id : Option String)
      → OnlyGrows (store_blinded_messages_in env os given mint_id melt_id)
  unfolding store_blinded_messages_in
  store_blinded_messages_in-OnlyGrows [] given mint_id melt_id = lift-OnlyGrows
  store_blinded_messages_in-OnlyGrows (o ∷ os) given mint_id melt_id =
      >>=-OnlyGrows (store_step-OnlyGrows given mint_id melt_id o)
        (λ m. store_blinded_messages_in-OnlyGrows os (some m) mint_id melt_id)

  pub store_blinded_messages-OnlyGrows :
      (os : List BlindedMessage) (given : Option MintKeyset) (mint_id melt_id : Option String)
      → OnlyGrows (store_blinded_messages env os given mint_id melt_id)
  unfolding store_blinded_messages
  store_blinded_messages-OnlyGrows os given mint_id melt_id =
      transaction-OnlyGrows (store_blinded_messages_in-OnlyGrows os given mint_id melt_id)

  sign_step-OnlyGrows : (c : Computed) → OnlyGrows (sign_step env c)
  unfolding sign_step
  sign_step-OnlyGrows c =
      >>=-OnlyGrows (update_blinded_message_signature-OnlyGrows c.amount c.B_ c.C_ c.dleq) (λ _.
        >>=-OnlyGrows lift-OnlyGrows
          (λ m. >>=-OnlyGrows (bump_keyset_balance-OnlyGrows m c.amount) (λ _. lift-OnlyGrows)))

  sign_all-OnlyGrows : (cs : List Computed) → OnlyGrows (sign_all env cs)
  unfolding sign_all
  sign_all-OnlyGrows [] = lift-OnlyGrows
  sign_all-OnlyGrows (c ∷ cs) =
      >>=-OnlyGrows (sign_step-OnlyGrows c)
        (λ _. >>=-OnlyGrows (sign_all-OnlyGrows cs) (λ _. lift-OnlyGrows))

  pub sign_blinded_messages_in-OnlyGrows :
      (os : List BlindedMessage) → OnlyGrows (sign_blinded_messages_in env os)
  unfolding sign_blinded_messages_in
  sign_blinded_messages_in-OnlyGrows os =
      lift_then-OnlyGrows (compute_promises env os)
        (λ cs. lift_then-OnlyGrows (bound os) (λ _. sign_all-OnlyGrows cs))

  pub sign_blinded_messages-OnlyGrows :
      (os : List BlindedMessage) → OnlyGrows (sign_blinded_messages env os)
  unfolding sign_blinded_messages
  sign_blinded_messages-OnlyGrows os =
      lift_then-OnlyGrows (compute_promises env os)
        (λ cs. lift_then-OnlyGrows (bound os) (λ _. transaction-OnlyGrows (sign_all-OnlyGrows cs)))
