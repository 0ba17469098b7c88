-- ===== src/Mint/Ledger/Loops.antt =====
-- What the loops of the ledger that spend proofs, charge fees, store outputs and sign them have done
-- when they return.
use nutshell.Base.{
  ℤ, pos, ◌+ℤ◌, ◌-ℤ◌, String, false, Option, some, List, [], ◌∷◌, map, ◌==◌, if◌then◌else◌, ◌≡◌, ap,
  arith, int_laws, contains, inl, inr, Option-cases, Distinct,
}
use nutshell.Core.Proofs.{Proof, BlindedMessage, BlindedSignature, amount_in, sum_by}
use nutshell.Core.Result.{ok, get, Result-cases}
use nutshell.Mint.State.{Mint, MintKeyset, IsKeyed, for_each}
use nutshell.Mint.Chains.{>>=-returns}
use nutshell.Mint.Crud.{
  Ys, invalidate_proof, bump_keyset_balance, bump_keyset_fees_paid, bump, store_blinded_message,
  update_blinded_message_signature, signed_row,
}
use nutshell.Mint.Write.{negate}
use nutshell.Mint.Write.Loops.{push_rows, get-id}
use nutshell.Mint.Ledger.Promise.{Computed, signature_of}
use nutshell.Mint.Ledger.Issue.{
  invalidate_step, fees_step, store_step, store_blinded_messages_in, sign_step, sign_all,
}
use nutshell.Mint.Verification.{Env, get_fees_for_proofs}

abbrev pub computed_in : String → List Computed → ℤ
computed_in k = sum_by (λ c. if c.keyset_id == k then c.amount else pos 0)

module _ (env : Env) (keyed : IsKeyed env.keysets) where
  invalidate_step-returns :
      (q : Option String) (p : Proof) (s t : Mint)
      → invalidate_step env q p s ≡ (ok tt, t)
      → (m : MintKeyset) × (get p.id env.keysets ≡ some m)
        × (contains p.Y (Ys s.db.proofs_used) ≡ false)
        × (t ≡ record s {
          db = record s.db {
            proofs_used = record { proof = p; melt_quote = q } ∷ s.db.proofs_used;
            balance = bump m.id (negate p.amount) s.db.balance;
          };
          events = t.events;
        })
  unfolding invalidate_step invalidate_proof bump_keyset_balance
  invalidate_step-returns q p s t e = elim (Option-cases (get p.id env.keysets)) [
    | inl missing ↦ absurd (ground arith)
    | inr (m, found) ↦ (m, found, ground arith, ground arith)
  ]

  -- The proofs now stand in the table of spent proofs, which still holds every Y once.
  pub invalidate_loop-returns :
      (q : Option String) (ps : List Proof) (s t : Mint)
      → for_each (invalidate_step env q) ps s ≡ (ok tt, t)
      → (t.db.proofs_used ≡ push_rows q ps s.db.proofs_used)
        × ((k : String) → t.db.balance k ≡ s.db.balance k -ℤ amount_in k ps)
        × (t ≡ record s {
          db = record s.db { proofs_used = t.db.proofs_used; balance = t.db.balance };
          events = t.events;
        })
        × (Distinct (Ys s.db.proofs_used) → Distinct (Ys t.db.proofs_used))
  invalidate_loop-returns q [] s t e = (
    ground arith,
    λ k. grind (int_laws, ap (λ (x : Mint). x.db.balance k) (ap (λ r. r.1) e)),
    ground arith,
    λ d. ground arith,
  )
  invalidate_loop-returns q (p ∷ ps) s t e =
      let (_, u, first, rest) =
        >>=-returns (invalidate_step env q p) (λ _. for_each (invalidate_step env q) ps) s e in
      let (m, found, fresh, now) = invalidate_step-returns q p s u first in
      let (rows, balances, same, distinct) = invalidate_loop-returns q ps u t rest in
      let filed : m.id ≡ p.id = get-id p.id env.keysets m keyed found in
      (
        ground (arith, now, rows),
        λ k. grind (int_laws, ap (λ (x : Mint). x.db.balance k) now, balances k, filed),
        ground (arith, now, same),
        λ d. distinct (ground (arith, now)),
      )

  fees_step-returns :
      (g : String × List Proof) (s t : Mint)
      → fees_step env g s ≡ (ok tt, t)
      → t ≡ record s { db = record s.db { fees_paid = t.db.fees_paid } }
  unfolding fees_step bump_keyset_fees_paid
  fees_step-returns (id, group) s t e = elim (Result-cases (get_fees_for_proofs env group)) [
    | inl (d, failed) ↦ absurd (ground arith)
    | inr (fees, found) ↦ elim (Option-cases (get id env.keysets)) [
      | inl missing ↦ ground arith
      | inr (m, there) ↦ ground arith
    ]
  ]

  pub fees_loop-returns :
      (gs : List (String × List Proof)) (s t : Mint)
      → for_each (fees_step env) gs s ≡ (ok tt, t)
      → t ≡ record s { db = record s.db { fees_paid = t.db.fees_paid } }
  fees_loop-returns [] s t e = ground arith
  fees_loop-returns (g ∷ gs) s t e =
      let (_, u, first, rest) =
        >>=-returns (fees_step env g) (λ _. for_each (fees_step env) gs) s e in
      ground (arith, fees_step-returns g s u first, fees_loop-returns gs u t rest)

  store_step-returns :
      (given : Option MintKeyset) (mq lq : Option String) (o : BlindedMessage) (s t : Mint)
      (m : MintKeyset)
      → store_step env given mq lq o s ≡ (ok m, t)
      → t ≡ record s { db = record s.db { promises = t.db.promises } }
  unfolding store_step store_blinded_message
  store_step-returns given mq lq o s t m e = ground arith

  pub store_loop-returns :
      (os : List BlindedMessage) (given : Option MintKeyset) (mq lq : Option String) (s t : Mint)
      → store_blinded_messages_in env os given mq lq s ≡ (ok tt, t)
      → t ≡ record s { db = record s.db { promises = t.db.promises } }
  unfolding store_blinded_messages_in
  store_loop-returns [] given mq lq s t e = ground arith
  store_loop-returns (o ∷ os) given mq lq s t e =
      let (m, u, first, rest) = >>=-returns (store_step env given mq lq o) _ s e in
      ground (
        arith,
        store_step-returns given mq lq o s u m first,
        store_loop-returns os (some m) mq lq u t rest,
      )

  sign_step-returns :
      (c : Computed) (s t : Mint) (b : BlindedSignature)
      → sign_step env c s ≡ (ok b, t)
      → (m : MintKeyset) × (get c.keyset_id env.keysets ≡ some m)
        × (b ≡ signature_of c)
        × (t ≡ record s {
          db = record s.db {
            promises = map (signed_row c.amount c.B_ c.C_ c.dleq) s.db.promises;
            balance = bump m.id c.amount s.db.balance;
          };
        })
  unfolding sign_step update_blinded_message_signature bump_keyset_balance
  sign_step-returns c s t b e = elim (Option-cases (get c.keyset_id env.keysets)) [
    | inl missing ↦ absurd (ground arith)
    | inr (m, found) ↦ (m, found, ground arith, ground arith)
  ]

  pub sign_all-returns :
      (cs : List Computed) (s t : Mint) (bs : List BlindedSignature)
      → sign_all env cs s ≡ (ok bs, t)
      → (bs ≡ map signature_of cs)
        × ((k : String) → t.db.balance k ≡ s.db.balance k +ℤ computed_in k cs)
        × (t ≡ record s { db = record s.db { promises = t.db.promises; balance = t.db.balance } })
  unfolding sign_all
  sign_all-returns [] s t bs e = (
    ground arith,
    λ k. grind (int_laws, ap (λ (x : Mint). x.db.balance k) (ap (λ r. r.1) e)),
    ground arith,
  )
  sign_all-returns (c ∷ cs) s t bs e =
      let (b, u, first, rest) = >>=-returns (sign_step env c) _ s e in
      let (bs', v, second, last) = >>=-returns (sign_all env cs) _ u rest in
      let (m, found, made, now) = sign_step-returns c s u b first in
      let (all_made, balances, same) = sign_all-returns cs u v bs' second in
      let filed : m.id ≡ c.keyset_id = get-id c.keyset_id env.keysets m keyed found in
      (
        ground (arith, made, all_made),
        λ k. grind (
          int_laws,
          ap (λ (x : Mint). x.db.balance k) now,
          balances k,
          filed,
          ap (λ (x : Mint). x.db.balance k) (ap (λ r. r.1) last),
        ),
        ground (arith, now, same),
      )
