-- ===== src/Mint/Conditions.antt =====
-- `LedgerSpendingConditions` of cashu/mint/conditions.py and cashu/core/nuts/nut14.py: the P2PK and
-- HTLC locks of a proof, and the signature over all inputs and outputs (SIG_ALL).
pub mod SigAll
pub mod Matching
pub mod Threshold
pub mod SigAllSigned
use Prim.Native.String.{count, ◌++◌ as ◌+++◌}
use nutshell.Base.{
  suc, ℕ, ℤ, pos, negsuc, ◌*◌, String, Bool, true, false, Option, none, some, List, [], ◌∷◌, ◌++◌,
  map, ◌==◌, ◌&&◌, ◌||◌, not, if◌then◌else◌, ltb, leb, ltb_ℤ, is_empty, all_of, any_of, length,
  dedup, ◌=?◌, eqb_ℤ, is_some,
}
use nutshell.Core.Errors.{Error, transaction_error, value_error, assertion_error, exception}
use nutshell.Core.Proofs.{Proof, BlindedMessage}
use nutshell.Core.Result.{Result, ok, err, ◌>>=◌, ◌>>◌, require, raise_if, or_raise}
use nutshell.Core.Secret.{
  Secret, SecretKind, secret_kind, get_tag, get_tag_all, truthy, int_or, secret_eq, locktime,
  n_sigs, n_sigs_refund,
}

-- What the code calls outside the repository, and the clock. `none` is an exception.
pub record Script : Type 0 where
  -- `Secret.deserialize`, by `json.loads`
  pub deserialize : String → Option Secret
  -- `P2PKWitness.from_witness(w).signatures` and `HTLCWitness.from_witness(w).preimage`
  pub p2pk_signatures : String → Option (List String)
  pub htlc_preimage : String → Option (Option String)
  -- `verify_schnorr_signature(message, pubkey, signature)`, from hex texts
  pub verify_schnorr : String → String → String → Option Bool
  -- `sha256(bytes.fromhex(preimage)).digest() == bytes.fromhex(data)`
  pub preimage_matches : String → String → Option Bool
  -- `int(text)` and `text.lower()`
  pub parse_int : String → Option ℤ
  pub lower : String → String
  -- the order in which a set of texts is iterated over
  pub set_order : List String → List String
  -- `time.time()`, in microseconds
  pub now : ℕ

-- `locktime < now`, for a time in seconds against one in microseconds, and `locktime <= now`.
abbrev pub is_before : ℤ → ℕ → Bool
is_before (pos t) now = ltb (t * 1000000) now
is_before (negsuc t) now = true

abbrev pub is_reached : ℤ → ℕ → Bool
is_reached (pos t) now = leb (t * 1000000) now
is_reached (negsuc t) now = true

-- `n <= k` with a Python integer on the left.
abbrev pub at_most : ℤ → ℕ → Bool
at_most n k = not (ltb_ℤ (pos k) n)

abbrev pub join : List String → String
join [] = ""
join (x ∷ xs) = ◌+++◌ x (join xs)

module _ (env : Script) where
  -- `Proof.p2pksigs` and `Proof.htlcpreimage`: a witness that does not parse counts as empty.
  abbrev pub sigs_of : Option (List String) → List String
  sigs_of none = []
  sigs_of (some sigs) = sigs

  abbrev pub preimage_of : Option (Option String) → Option String
  preimage_of none = none
  preimage_of (some p) = p

  abbrev pub given_witness : Option String → Result String
  given_witness none = err assertion_error
  given_witness (some w) = if w == "" then err assertion_error else ok w

  unfoldable pub p2pksigs : Proof → Result (List String)
  p2pksigs proof = given_witness proof.witness >>= λ w. ok (sigs_of (env.p2pk_signatures w))

  unfoldable pub htlcpreimage : Proof → Result (Option String)
  htlcpreimage proof = given_witness proof.witness >>= λ w. ok (preimage_of (env.htlc_preimage w))

  -- One pubkey's inner loop: the first signature that it verifies is taken out of the list.
  unfoldable pub take_valid : String → String → List String → Result (Option (List String))
  take_valid message pubkey [] = ok none
  take_valid message pubkey (s ∷ sigs) =
      or_raise (env.verify_schnorr message pubkey s) value_error >>= λ valid.
      let rest = take_valid message pubkey sigs in
      if valid
      then ok (some sigs)
      else rest >>= λ r. elim r [ none ↦ ok none | some left ↦ ok (some (s ∷ left)) ]

  -- The loops over the pubkeys and the signatures: how many pubkeys have a signature of their own.
  unfoldable pub count_valid : String → List String → List String → Result ℕ
  count_valid message [] sigs = ok 0
  count_valid message (p ∷ pubkeys) sigs = take_valid message p sigs >>= λ taken. elim taken [
    | none ↦ count_valid message pubkeys sigs
    | some left ↦ count_valid message pubkeys left >>= λ n. ok (suc n)
  ]

  -- The end of both checks: are there enough texts, and enough signatures that verify?
  unfoldable pub threshold_met : String → List String → List String → ℤ → Result Bool
  threshold_met message pubkeys signatures n_required = do
    require (at_most n_required (length pubkeys) && at_most n_required (length signatures))
        (transaction_error "not enough pubkeys or signatures present for n_sigs.")
    n ← count_valid message (env.set_order pubkeys) signatures
    require (at_most n_required n) (transaction_error "signature threshold not met.")
    ok true

  abbrev pub is_unique : List String → Bool
  is_unique xs = length (dedup xs) =? length xs

  unfoldable pub verify_p2pk_signatures : String → List String → List String → ℤ → Result Bool
  verify_p2pk_signatures message pubkeys_given signatures_given n_required = do
    let pubkeys = map env.lower pubkeys_given
    let signatures = map env.lower signatures_given
    require (is_unique pubkeys) (transaction_error "pubkeys must be unique.")
    raise_if (is_empty signatures) (transaction_error "no signatures in proof.")
    require (is_unique signatures) (transaction_error "signatures must be unique.")
    let n = int_or (some n_required) (pos 1)
    require (ltb_ℤ (pos 0) n) (transaction_error "n_sigs must be positive.")
    threshold_met message pubkeys signatures n

  -- The `try` around one spending path: `none` is success, an exception is kept.
  abbrev pub attempt : Result Bool → Option Error
  attempt (ok _) = none
  attempt (err e) = some e

  abbrev pub or_reraise : Option Error → Result Bool
  or_reraise none = ok true
  or_reraise (some e) = err e

  -- The main path, which is not tried without pubkeys.
  unfoldable pub main_path : Proof → List String → ℤ → Result Bool
  main_path proof pubkeys n =
      p2pksigs proof >>= λ sigs. verify_p2pk_signatures proof.secret pubkeys sigs n

  abbrev has_passed : Option ℤ → Bool
  has_passed none = false
  has_passed (some t) = not (eqb_ℤ t (pos 0)) && is_before t env.now

  -- What is left when the main path has not returned, with the exception that it raised, if any.
  unfoldable pub refund_path : Proof → Secret → Option Error → Result Bool
  refund_path proof secret raised = do
    t ← locktime env.parse_int secret
    refund_pubkeys ← (if has_passed t then get_tag_all "refund" secret.tags else ok [])
    refund_n ← (if has_passed t then n_sigs_refund env.parse_int secret else ok none)
    elim (has_passed t) [
      | false ↦ or_reraise raised
      | true ↦ elim (is_empty refund_pubkeys) [
        | true ↦ ok true
        | false ↦ or_reraise (
            attempt (
              p2pksigs proof >>= λ sigs.
              verify_p2pk_signatures proof.secret refund_pubkeys sigs (int_or refund_n (pos 1))))
      ]
    ]

  abbrev own_pubkey : SecretKind → Secret → List String
  own_pubkey SecretKind.p2pk secret = secret.data_ ∷ []
  own_pubkey SecretKind.htlc secret = []

  -- A signature flag other than SIG_INPUTS leaves the check to the whole transaction.
  abbrev other_flag : Option String → Bool
  other_flag none = false
  other_flag (some t) = not (t == "") && not (t == "SIG_INPUTS")

  abbrev paths : Proof → Secret → List String → ℤ → Result Bool
  paths proof secret [] n = refund_path proof secret none
  paths proof secret (p ∷ pubkeys) n = elim (attempt (main_path proof (p ∷ pubkeys) n)) [
    | none ↦ ok true
    | some e ↦ refund_path proof secret (some e)
  ]

  unfoldable pub verify_p2pk_sig_inputs : Proof → Secret → Result Bool
  verify_p2pk_sig_inputs proof secret = do
    flag ← get_tag "sigflag" secret.tags
    let rest = do
      kind ← secret_kind secret.kind
      more ← get_tag_all "pubkeys" secret.tags
      n ← n_sigs env.parse_int secret
      paths proof secret (own_pubkey kind secret ++ more) (int_or (some n) (pos 1))
    if other_flag flag then ok true else rest

  abbrev preimage_result : Option Bool → Result Bool
  preimage_result none = err (transaction_error "invalid preimage for HTLC: not a hex string.")
  preimage_result (some false) = err (transaction_error "HTLC preimage does not match.")
  preimage_result (some true) = ok true

  abbrev reached : Option ℤ → Bool
  reached none = false
  reached (some t) = is_reached t env.now

  abbrev hash_lock : Secret → Option String → Option ℤ → Result Bool
  hash_lock secret preimage t =
      if truthy preimage
      then elim preimage [
        | none ↦ ok true
        | some p ↦
            if count p =? 64
            then preimage_result (env.preimage_matches p secret.data_)
            else err (transaction_error "HTLC preimage must be 64 characters hex.")
      ]
      else if reached t
      then ok true
      else err (transaction_error "no HTLC preimage provided")

  -- `verify_htlc_spending_conditions` on a secret that is known to be an HTLC.
  unfoldable pub verify_htlc_spending_conditions : Proof → Secret → Result Bool
  verify_htlc_spending_conditions proof secret = do
    preimage ← htlcpreimage proof
    t ← locktime env.parse_int secret
    hash_lock secret preimage t

  abbrev no_witness : Option String → Result Bool
  no_witness none = ok true
  no_witness (some w) =
      err (transaction_error "witness data not allowed without a spending condition.")

  abbrev by_kind : Proof → Secret → SecretKind → Result Bool
  by_kind proof secret SecretKind.p2pk = verify_p2pk_sig_inputs proof secret
  by_kind proof secret SecretKind.htlc =
      verify_htlc_spending_conditions proof secret >>= λ _. verify_p2pk_sig_inputs proof secret

  unfoldable pub verify_input_spending_conditions : Proof → Result Bool
  verify_input_spending_conditions proof = elim (env.deserialize proof.secret) [
    | none ↦ no_witness proof.witness
    | some secret ↦ secret_kind secret.kind >>= by_kind proof secret
  ]
