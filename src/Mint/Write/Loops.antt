-- ===== src/Mint/Write/Loops.antt =====
-- What the two loops of `DbWriteHelper` over the proofs have done when they return.
use nutshell.Base.{
  ◌+ℤ◌, ◌-ℤ◌, String, true, false, Option, some, List, [], ◌∷◌, ◌≡◌, refl, ap, arith, int_laws,
  contains, inl, inr, Option-cases, is_some, eq_iff,
}
use nutshell.Core.Proofs.{Proof, amount_in}
use nutshell.Core.Result.{ok, get}
use nutshell.Mint.State.{Mint, ProofRow, MintKeyset, Keysets, IsKeyed, for_each}
use nutshell.Mint.Chains.{>>=-returns, OnlyTables, for_each-OnlyTables}
use nutshell.Mint.Crud.{
  Ys, set_proof_pending, unset_proof_pending, without_secret, bump_keyset_balance, bump,
}
use nutshell.Mint.Write.{negate, set_pending_step, unset_pending_step}

-- A keyset is filed under its own id.
pub get-id :
    (k : String) (ks : Keysets) (m : MintKeyset) → IsKeyed ks → get k ks ≡ some m → m.id ≡ k
get-id k [] m keyed e = cc
get-id k ((j, n) ∷ ks) m keyed e = ground (arith, eq_iff j k, get-id k ks m)

set_pending_step-returns :
    (ks : Keysets) (q : Option String) (p : Proof) (s : Mint) {t : Mint}
    → set_pending_step ks q p s ≡ (ok tt, t)
    → (m : MintKeyset) × (get p.id ks ≡ some m)
      × (contains p.Y (Ys s.db.proofs_pending) ≡ false)
      × (t ≡ record s {
        db = record s.db {
          proofs_pending = record { proof = p; melt_quote = q } ∷ s.db.proofs_pending;
          balance = bump m.id (negate p.amount) s.db.balance;
        };
      })
unfolding set_pending_step set_proof_pending bump_keyset_balance
set_pending_step-returns ks q p s {t} e = elim (Option-cases (get p.id ks)) [
  | inl missing ↦ absurd (ground arith)
  | inr (m, found) ↦ (m, found, ground arith, ground arith)
]

-- The rows of the proofs, in front of those that are there.
abbrev pub push_rows : Option String → List Proof → List ProofRow → List ProofRow
push_rows q [] rows = rows
push_rows q (p ∷ ps) rows = push_rows q ps (record { proof = p; melt_quote = q } ∷ rows)

abbrev pub drop_secrets : List Proof → List ProofRow → List ProofRow
drop_secrets [] rows = rows
drop_secrets (p ∷ ps) rows = drop_secrets ps (without_secret p.secret rows)

pub set_pending_loop-returns :
    (ks : Keysets) (q : Option String) (ps : List Proof) (s t : Mint)
    → IsKeyed ks
    → for_each (set_pending_step ks q) ps s ≡ (ok tt, t)
    → (t.db.proofs_pending ≡ push_rows q ps s.db.proofs_pending)
      × ((k : String) → t.db.balance k ≡ s.db.balance k -ℤ amount_in k ps)
      × (t ≡ record s {
        db = record s.db { proofs_pending = t.db.proofs_pending; balance = t.db.balance };
      })
set_pending_loop-returns ks q [] s t keyed e = (
  ground arith,
  λ k. grind (int_laws, ap (λ (x : Mint). x.db.balance k) (ap (λ r. r.1) e)),
  ground arith,
)
set_pending_loop-returns ks q (p ∷ ps) s t keyed e =
    let (_, u, first, rest) =
      >>=-returns (set_pending_step ks q p) (λ _. for_each (set_pending_step ks q) ps) s e in
    let (m, found, _, now) = set_pending_step-returns ks q p s first in
    let (rows, balances, same) = set_pending_loop-returns ks q ps u t keyed rest in
    let filed : m.id ≡ p.id = get-id p.id ks m keyed found in
    (
      ground (arith, now, rows),
      λ k. grind (int_laws, ap (λ (x : Mint). x.db.balance k) now, balances k, filed),
      ground (arith, now, same),
    )

unset_pending_step-returns :
    (ks : Keysets) (p : Proof) (s : Mint) {t : Mint}
    → unset_pending_step ks p s ≡ (ok tt, t)
    → (m : MintKeyset) × (get p.id ks ≡ some m)
      × (t ≡ record s {
        db = record s.db {
          proofs_pending = without_secret p.secret s.db.proofs_pending;
          balance = bump m.id p.amount s.db.balance;
        };
      })
unfolding unset_pending_step unset_proof_pending bump_keyset_balance
unset_pending_step-returns ks p s {t} e = elim (Option-cases (get p.id ks)) [
  | inl missing ↦ absurd (ground arith)
  | inr (m, found) ↦ (m, found, ground arith)
]

pub unset_pending_loop-returns :
    (ks : Keysets) (ps : List Proof) (s t : Mint)
    → IsKeyed ks
    → for_each (unset_pending_step ks) ps s ≡ (ok tt, t)
    → (t.db.proofs_pending ≡ drop_secrets ps s.db.proofs_pending)
      × ((k : String) → t.db.balance k ≡ s.db.balance k +ℤ amount_in k ps)
      × (t ≡ record s {
        db = record s.db { proofs_pending = t.db.proofs_pending; balance = t.db.balance };
      })
unset_pending_loop-returns ks [] s t keyed e = (
  ground arith,
  λ k. grind (int_laws, ap (λ (x : Mint). x.db.balance k) (ap (λ r. r.1) e)),
  ground arith,
)
unset_pending_loop-returns ks (p ∷ ps) s t keyed e =
    let (_, u, first, rest) =
      >>=-returns (unset_pending_step ks p) (λ _. for_each (unset_pending_step ks) ps) s e in
    let (m, found, now) = unset_pending_step-returns ks p s first in
    let (rows, balances, same) = unset_pending_loop-returns ks ps u t keyed rest in
    let filed : m.id ≡ p.id = get-id p.id ks m keyed found in
    (
      ground (arith, now, rows),
      λ k. grind (int_laws, ap (λ (x : Mint). x.db.balance k) now, balances k, filed),
      ground (arith, now, same),
    )

-- Every proof belongs to a keyset of the mint.
abbrev pub Known : Keysets → List Proof → Type 0
Known ks [] = Unit
Known ks (p ∷ ps) = (is_some (get p.id ks) ≡ true) × Known ks ps

-- With known keysets the loop that takes proofs off the pending table cannot raise.
pub unset_pending_loop-ok :
    (ks : Keysets) (ps : List Proof) (s : Mint)
    → Known ks ps
    → (t : Mint) × (for_each (unset_pending_step ks) ps s ≡ (ok tt, t))
unfolding unset_pending_step unset_proof_pending bump_keyset_balance
unset_pending_loop-ok ks [] s known = (s, refl)
unset_pending_loop-ok ks (p ∷ ps) s known = elim (Option-cases (get p.id ks)) [
  | inl missing ↦ absurd (ground arith)
  | inr (m, found) ↦
      let u : Mint = record s {
        db = record s.db {
          proofs_pending = without_secret p.secret s.db.proofs_pending;
          balance = bump m.id p.amount s.db.balance;
        };
      } in
      let (t, done) = unset_pending_loop-ok ks ps u known.1 in (t, rw found done)
]

pub set_pending_loop-Known :
    (ks : Keysets) (q : Option String) (ps : List Proof) (s t : Mint)
    → for_each (set_pending_step ks q) ps s ≡ (ok tt, t)
    → Known ks ps
set_pending_loop-Known ks q [] s t e = tt
set_pending_loop-Known ks q (p ∷ ps) s t e =
    let (_, u, first, rest) =
      >>=-returns (set_pending_step ks q p) (λ _. for_each (set_pending_step ks q) ps) s e in
    let (m, found, _, _) = set_pending_step-returns ks q p s first in
    (ground arith, set_pending_loop-Known ks q ps u t rest)

set_pending_step-OnlyTables :
    (ks : Keysets) (q : Option String) (p : Proof) → OnlyTables (set_pending_step ks q p)
unfolding set_pending_step set_proof_pending bump_keyset_balance
set_pending_step-OnlyTables ks q p s = elim (Option-cases (get p.id ks)) [
  | inl missing ↦ ground arith
  | inr (m, found) ↦ ground arith
]

pub set_pending_loop-OnlyTables :
    (ks : Keysets) (q : Option String) (ps : List Proof)
    → OnlyTables (for_each (set_pending_step ks q) ps)
set_pending_loop-OnlyTables ks q =
    for_each-OnlyTables (set_pending_step ks q) (set_pending_step-OnlyTables ks q)
