-- ===== src/Mint/Conditions/SigAll.antt =====
-- The SIG_ALL part of cashu/mint/conditions.py: one signature over all inputs and outputs.
use nutshell.Base.{
  ℤ, pos, String, Bool, true, false, Option, none, some, List, [], ◌∷◌, ◌++◌, map, ◌==◌, ◌&&◌,
  if◌then◌else◌, is_empty, all_of, any_of, ltb_ℤ,
}
use nutshell.Core.Errors.{transaction_error, value_error}
use nutshell.Core.Proofs.{Proof, BlindedMessage}
use nutshell.Core.Result.{Result, ok, err, ◌>>=◌, ◌>>◌, require, raise_if, or_raise, map_result}
use nutshell.Core.Secret.{
  Secret, SecretKind, secret_kind, get_tag, get_tag_all, int_or, secret_eq, locktime, n_sigs,
  n_sigs_refund,
}
use nutshell.Mint.Conditions.{Script, join, has_passed, is_unique, threshold_met}

-- Is the result the flag SIG_ALL? An exception on the way counts as no.
abbrev pub is_sig_all : Result (Option String) → Bool
is_sig_all (err e) = false
is_sig_all (ok none) = false
is_sig_all (ok (some t)) = t == "SIG_ALL"

abbrev is_lock : Result SecretKind → Bool
is_lock (ok kind) = true
is_lock (err e) = false

-- `P2PKSecret.from_secret` or `HTLCSecret.from_secret` succeeds, and its `sigflag` is SIG_ALL.
abbrev pub requires_sigall : Option Secret → Bool
requires_sigall none = false
requires_sigall (some s) = is_lock (secret_kind s.kind) && is_sig_all (get_tag "sigflag" s.tags)

abbrev pub tagged_sig_all : Option Secret → Bool
tagged_sig_all none = false
tagged_sig_all (some s) = is_sig_all (get_tag "sigflag" s.tags)

module _ (env : Script) where
  abbrev pub secret_of : Proof → Option Secret
  secret_of p = env.deserialize p.secret

  unfoldable pub inputs_require_sigall : List Proof → Bool
  inputs_require_sigall = any_of (λ p. requires_sigall (secret_of p))

  abbrev first_secret : List Secret → Result Secret
  first_secret [] = err (transaction_error "not all secrets are equal.")
  first_secret (s ∷ secrets) =
      if all_of (secret_eq s) secrets
      then ok s
      else err (transaction_error "not all secrets are equal.")

  unfoldable pub verify_all_secrets_equal_and_return : List Proof → Result Secret
  verify_all_secrets_equal_and_return proofs = do
    secrets ← map_result (λ p. or_raise (secret_of p) value_error) proofs
    first_secret secrets

  unfoldable pub check_at_least_one_sig_all : List Proof → Bool
  check_at_least_one_sig_all = any_of (λ p. tagged_sig_all (secret_of p))

  abbrev pub lock_pubkeys : SecretKind → Secret → List String → List String
  lock_pubkeys SecretKind.p2pk s more = s.data_ ∷ more
  lock_pubkeys SecretKind.htlc s more = more

  abbrev pub first_witness : List Proof → Result String
  first_witness [] = err (transaction_error "no witness in proof.")
  first_witness (p ∷ proofs) = elim p.witness [
    | none ↦ err (transaction_error "no witness in proof.")
    | some w ↦ if w == "" then err (transaction_error "no witness in proof.") else ok w
  ]

  -- The check of the signatures on the first proof's witness.
  abbrev pub signed_by : List Proof → String → List String → ℤ → Result Bool
  signed_by proofs message pubkeys_given n = do
    let pubkeys = map env.lower pubkeys_given
    require (is_unique env pubkeys) (transaction_error "pubkeys must be unique.")
    require (ltb_ℤ (pos 0) n) (transaction_error "n_sigs must be positive.")
    w ← first_witness proofs
    given ← or_raise (env.p2pk_signatures w) value_error
    let signatures = map env.lower given
    raise_if (is_empty signatures) (transaction_error "no signatures in proof.")
    require (is_unique env signatures) (transaction_error "signatures must be unique.")
    threshold_met env message pubkeys signatures n

  abbrev pub unless_empty : List Proof → String → List String → ℤ → Result Bool
  unless_empty proofs message [] n = ok true
  unless_empty proofs message (p ∷ pubkeys) n = signed_by proofs message (p ∷ pubkeys) n

  unfoldable pub verify_lock : List Proof → String → Secret → SecretKind → Result Bool
  verify_lock proofs message secret kind = do
    more ← get_tag_all "pubkeys" secret.tags
    n ← n_sigs env.parse_int secret
    t ← locktime env.parse_int secret
    refund ← (if has_passed env t then get_tag_all "refund" secret.tags else ok [])
    refund_n ← (if has_passed env t then n_sigs_refund env.parse_int secret else ok none)
    elim (has_passed env t) [
      | true ↦ unless_empty proofs message refund (int_or refund_n (pos 1))
      | false ↦
          unless_empty proofs message (lock_pubkeys kind secret more) (int_or (some n) (pos 1))
    ]

  abbrev pub message_or : String → List Proof → List BlindedMessage → String
  message_or given proofs outputs =
      if given == ""
      then join (map (λ (p : Proof). p.secret) proofs ++ map (λ (o : BlindedMessage). o.B_) outputs)
      else given

  -- The secrets differ: `return False`. A kind that is no lock raises in `SecretKind(…)`.
  abbrev pub when_equal : List Proof → String → Result Secret → Result Bool
  when_equal proofs message (err e) = ok false
  when_equal proofs message (ok s) =
      secret_kind s.kind >>= λ kind. verify_lock proofs message s kind

  -- The empty text stands for a message that is not given.
  unfoldable pub verify_sigall_spending_conditions :
      List Proof → List BlindedMessage → String → Result Bool
  verify_sigall_spending_conditions proofs outputs message =
      if check_at_least_one_sig_all proofs
      then when_equal proofs (message_or message proofs outputs)
          (verify_all_secrets_equal_and_return proofs)
      else ok true

  unfoldable pub verify_input_output_spending_conditions :
      List Proof → List BlindedMessage → Result Bool
  verify_input_output_spending_conditions proofs outputs =
      if inputs_require_sigall proofs
      then (verify_all_secrets_equal_and_return proofs >>= λ _.
          verify_sigall_spending_conditions proofs outputs "")
      else ok true
