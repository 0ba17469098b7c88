-- ===== src/Mint/Crud.antt =====
-- The statements of cashu/mint/crud.py on the tables. An INSERT that a UNIQUE constraint of
-- cashu/mint/migrations.py forbids raises; the timestamps of the rows are left out.
use nutshell.Base.{
  ℤ, ◌+ℤ◌, String, Bool, true, false, ◌&&◌, not, Option, none, some, List, [], ◌∷◌, map, ◌==◌,
  if◌then◌else◌, any_of, select, find, contains, is_some,
}
use nutshell.Core.Errors.{integrity_error, value_error}
use nutshell.Core.Proofs.{Proof, BlindedMessage, BlindedSignature}
use nutshell.Mint.State.{Db, ProofRow, Promise, MintKeyset, Action, raise, modify}

abbrev insert_unless : Bool → (Db → Db) → Action (Unit {0})
insert_unless true f = raise integrity_error
insert_unless false f = modify f

-- A nullable text column against a text: NULL is equal to nothing.
abbrev pub is_text : String → Option String → Bool
is_text k none = false
is_text k (some t) = t == k

-- ------- proofs

abbrev pub Ys : List ProofRow → List String
Ys [] = []
Ys (r ∷ rs) = r.proof.Y ∷ Ys rs

unfoldable pub invalidate_proof : Proof → Option String → Action (Unit {0})
invalidate_proof proof quote_id s =
    insert_unless (contains proof.Y (Ys s.db.proofs_used))
      (λ db. record db {
        proofs_used = record { proof = proof; melt_quote = quote_id } ∷ db.proofs_used;
      })
      s

unfoldable pub set_proof_pending : Proof → Option String → Action (Unit {0})
set_proof_pending proof quote_id s =
    insert_unless (contains proof.Y (Ys s.db.proofs_pending))
      (λ db. record db {
        proofs_pending = record { proof = proof; melt_quote = quote_id } ∷ db.proofs_pending;
      })
      s

abbrev pub without_secret : String → List ProofRow → List ProofRow
without_secret secret = select (λ r. not (r.proof.secret == secret))

unfoldable pub unset_proof_pending : Proof → Action (Unit {0})
unset_proof_pending proof =
    modify (λ db. record db { proofs_pending = without_secret proof.secret db.proofs_pending })

-- `Proof(**r)`: the column is `c`, which is no field of `Proof`, so that `C` keeps its default. `__init__`
-- computes `Y` from the secret, as it did for the proof whose `Y` the row has.
abbrev pub read_proof : ProofRow → Proof
read_proof r = record r.proof { C = "" }

abbrev row_proofs : List ProofRow → List Proof
row_proofs = map read_proof

abbrev with_Y : List String → List ProofRow → List Proof
with_Y ys rows = row_proofs (select (λ r. contains r.proof.Y ys) rows)

unfoldable pub get_proofs_used : List String → Db → List Proof
get_proofs_used ys db = with_Y ys db.proofs_used

unfoldable pub get_proofs_pending : List String → Db → List Proof
get_proofs_pending ys db = with_Y ys db.proofs_pending

unfoldable pub get_pending_proofs_for_quote : String → Db → List Proof
get_pending_proofs_for_quote quote_id db =
    row_proofs (select (λ r. is_text quote_id r.melt_quote) db.proofs_pending)

-- ------- promises

unfoldable pub store_blinded_message :
    String → ℤ → String → Option String → Option String → Action (Unit {0})
store_blinded_message id amount b_ mint_id melt_id s =
    insert_unless (any_of (λ p. p.b_ == b_) s.db.promises)
      (λ db. record db {
        promises =
            record {
              id = id;
              amount = amount;
              b_ = b_;
              c_ = none;
              dleq = ("", "");
              mint_quote = mint_id;
              melt_quote = melt_id;
            }
            ∷ db.promises;
      })
      s

-- What the UPDATE does to one row.
abbrev pub signed_row : ℤ → String → String → String × String → Promise → Promise
signed_row amount b_ c_ dleq p =
    if p.b_ == b_ then record p { amount = amount; c_ = some c_; dleq = dleq } else p

unfoldable pub update_blinded_message_signature :
    ℤ → String → String → String × String → Action (Unit {0})
update_blinded_message_signature amount b_ c_ dleq s =
    if any_of (λ p. p.b_ == b_) s.db.promises
    then modify (λ db. record db { promises = map (signed_row amount b_ c_ dleq) db.promises }) s
    else raise value_error s

-- `BlindedMessage.from_row` and `BlindedSignature.from_row`
abbrev pub message_of : Promise → BlindedMessage
message_of p = record { id = p.id; amount = p.amount; B_ = p.b_ }

abbrev signature_of : Promise → Option BlindedSignature
signature_of p = elim p.c_ [
  | none ↦ none
  | some c ↦ some (record { id = p.id; amount = p.amount; C_ = c; dleq = p.dleq })
]

abbrev signatures_of : List Promise → List BlindedSignature
signatures_of [] = []
signatures_of (p ∷ ps) = elim (signature_of p) [
  | none ↦ signatures_of ps
  | some b ↦ b ∷ signatures_of ps
]

unfoldable pub get_blind_signature : String → Db → Option BlindedSignature
get_blind_signature b_ db = elim (find (λ p. p.b_ == b_ && is_some p.c_) db.promises) [
  | none ↦ none
  | some p ↦ signature_of p
]

-- The rows that hold one of the texts, as they stand: the caller asks for their `c_` too.
unfoldable pub get_outputs : List String → Db → List Promise
get_outputs b_s db = select (λ p. contains p.b_ b_s) db.promises

unfoldable pub get_blinded_messages_melt_id : String → Db → List BlindedMessage
get_blinded_messages_melt_id melt_id db =
    map message_of (select (λ p. is_text melt_id p.melt_quote && not (is_some p.c_)) db.promises)

unfoldable pub get_blind_signatures_melt_id : String → Db → List BlindedSignature
get_blind_signatures_melt_id melt_id db =
    signatures_of (select (λ p. is_text melt_id p.melt_quote && is_some p.c_) db.promises)

unfoldable pub delete_blinded_messages_melt_id : String → Action (Unit {0})
delete_blinded_messages_melt_id melt_id = modify (λ db. record db {
  promises = select (λ p. not (is_text melt_id p.melt_quote && not (is_some p.c_))) db.promises;
})

-- ------- keysets

abbrev pub bump : String → ℤ → (String → ℤ) → String → ℤ
bump id amount column k = if id == k then column k +ℤ amount else column k

unfoldable pub bump_keyset_balance : MintKeyset → ℤ → Action (Unit {0})
bump_keyset_balance keyset amount =
    modify (λ db. record db { balance = bump keyset.id amount db.balance })

unfoldable pub bump_keyset_fees_paid : MintKeyset → ℤ → Action (Unit {0})
bump_keyset_fees_paid keyset amount =
    modify (λ db. record db { fees_paid = bump keyset.id amount db.fees_paid })
