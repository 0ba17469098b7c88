-- ===== src/Mint/Tables.antt =====
-- Laws of the lookups by Y and by secret in the tables of proofs.
use nutshell.Base.{
  String, true, false, Option, List, [], ◌∷◌, map, ◌≡◌, refl, arith, is_empty, contains, select,
  eq_iff, All, Distinct,
}
use nutshell.Core.Proofs.{Proof}
use nutshell.Mint.State.{Db, ProofRow}
use nutshell.Mint.Crud.{Ys, read_proof, get_proofs_used, get_proofs_pending, without_secret}
use nutshell.Mint.Read.{proof_Ys}
use nutshell.Mint.Write.Loops.{push_rows, drop_secrets}

-- None of the texts is in the second list.
abbrev pub Fresh : List String → List String → Type 0
Fresh ys zs = All (λ y. contains y zs ≡ false) ys

Fresh-cons :
    (ys : List String) (z : String) (zs : List String)
    → contains z ys ≡ false
    → Fresh ys zs
    → Fresh ys (z ∷ zs)
Fresh-cons [] z zs e h = tt
Fresh-cons (y ∷ ys) z zs e h = ground (arith, eq_iff y z, eq_iff z y, Fresh-cons ys z zs)

Fresh-nil : (ys : List String) → Fresh ys []
Fresh-nil [] = tt
Fresh-nil (y ∷ ys) = (refl, Fresh-nil ys)

found-Fresh :
    (ys : List String) (rows : List ProofRow)
    → is_empty (map read_proof (select (λ r. contains r.proof.Y ys) rows)) ≡ true
    → Fresh ys (Ys rows)
found-Fresh ys [] e = Fresh-nil ys
found-Fresh ys (r ∷ rows) e = ground (arith, found-Fresh ys rows, Fresh-cons ys r.proof.Y (Ys rows))

-- When a SELECT by Y finds nothing, no Y is in the table.
pub used-Fresh :
    (ys : List String) (db : Db)
    → is_empty (get_proofs_used ys db) ≡ true
    → Fresh ys (Ys db.proofs_used)
unfolding get_proofs_used
used-Fresh ys db e = found-Fresh ys db.proofs_used e

pub pending-Fresh :
    (ys : List String) (db : Db)
    → is_empty (get_proofs_pending ys db) ≡ true
    → Fresh ys (Ys db.proofs_pending)
unfolding get_proofs_pending
pending-Fresh ys db e = found-Fresh ys db.proofs_pending e

-- `hash` is `hash_to_curve`: every proof and every row carries the Y of its secret.
abbrev pub HashedProofs : (String → String) → List Proof → Type 0
HashedProofs hash = All (λ p. p.Y ≡ hash p.secret)

abbrev pub HashedRows : (String → String) → List ProofRow → Type 0
HashedRows hash = All (λ r. r.proof.Y ≡ hash r.proof.secret)

without_secret-Fresh :
    (hash : String → String) (p : Proof) (rows : List ProofRow)
    → HashedRows hash rows
    → p.Y ≡ hash p.secret
    → contains p.Y (Ys rows) ≡ false
    → without_secret p.secret rows ≡ rows
without_secret-Fresh hash p [] hashed e h = refl
without_secret-Fresh hash p (r ∷ rows) hashed e h = ground (
  arith,
  eq_iff r.proof.secret p.secret,
  eq_iff p.Y r.proof.Y,
  without_secret-Fresh hash p rows hashed.1,
)

abbrev pub secrets : List Proof → List String
secrets [] = []
secrets (p ∷ ps) = p.secret ∷ secrets ps

without_secret-push_rows :
    (z : String) (q : Option String) (ps : List Proof) (rows : List ProofRow)
    → contains z (secrets ps) ≡ false
    → without_secret z (push_rows q ps rows) ≡ push_rows q ps (without_secret z rows)
without_secret-push_rows z q [] rows h = refl
without_secret-push_rows z q (p ∷ ps) rows h = ground (
  arith,
  eq_iff z p.secret,
  eq_iff p.secret z,
  without_secret-push_rows z q ps (record { proof = p; melt_quote = q } ∷ rows),
)

-- Taking the proofs off the table again restores it.
pub drop_secrets-push_rows :
    (hash : String → String) (q : Option String) (ps : List Proof) (rows : List ProofRow)
    → HashedRows hash rows
    → HashedProofs hash ps
    → Distinct (secrets ps)
    → Fresh (proof_Ys ps) (Ys rows)
    → drop_secrets ps (push_rows q ps rows) ≡ rows
drop_secrets-push_rows hash q [] rows hr hp d f = refl
drop_secrets-push_rows hash q (p ∷ ps) rows hr hp d f = ground (
  arith,
  eq_iff p.secret p.secret,
  without_secret-push_rows p.secret q ps (record { proof = p; melt_quote = q } ∷ rows),
  without_secret-Fresh hash p rows,
  drop_secrets-push_rows hash q ps rows,
)
