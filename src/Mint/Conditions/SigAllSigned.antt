-- ===== src/Mint/Conditions/SigAllSigned.antt =====
-- What the checks of a transaction with SIG_ALL inputs establish when they return.
use nutshell.Base.{
  ℤ, pos, ◌<ℤ◌, ltb_ℤ, String, Bool, true, false, Option, none, some, List, [], ◌∷◌, ◌++◌, map, ◌≡◌,
  refl, sym, ◌∙◌, ap, arith, any_of, eq_refl, is_empty, if◌then◌else◌,
}
use nutshell.Core.Errors.{transaction_error, value_error}
use nutshell.Core.Proofs.{Proof, BlindedMessage}
use nutshell.Core.Result.{
  ok, require, raise_if, or_raise, >>=-eq-ok, >>-eq-ok, require-eq-ok, or_raise-eq-ok,
}
use nutshell.Core.Secret.{Secret, SecretKind, secret_kind, get_tag_all, n_sigs, locktime, int_or}
use nutshell.Mint.Conditions.{Script, join, has_passed, is_unique}
use nutshell.Mint.Conditions.SigAll.{
  secret_of, requires_sigall, tagged_sig_all, inputs_require_sigall, check_at_least_one_sig_all,
  verify_all_secrets_equal_and_return, first_witness, when_equal, signed_by, verify_lock,
  verify_sigall_spending_conditions, verify_input_output_spending_conditions,
}
use nutshell.Mint.Conditions.Threshold.{
  IsSetOrder, IsSigned, threshold_met-IsSigned, threshold_met-true, is_unique-Distinct,
}

requires_sigall-tagged : (s : Option Secret) → requires_sigall s ≡ true → tagged_sig_all s ≡ true
requires_sigall-tagged none h = cc
requires_sigall-tagged (some s) h = ground arith

any_of_mono :
    (p q : Proof → Bool)
    → ((x : Proof) → p x ≡ true → q x ≡ true)
    → (xs : List Proof) → any_of p xs ≡ true
    → any_of q xs ≡ true
any_of_mono p q h [] e = cc
any_of_mono p q h (x ∷ xs) e = ground (arith, h x, any_of_mono p q h xs)

if-true : {A : Type 0} {c : Bool} → c ≡ true → (x y : A) → (if c then x else y) ≡ x
if-true h x y = rw h refl

ok-inj : {A : Type 0} {x y : A} → ok x ≡ ok y → x ≡ y
ok-inj h = cc

-- What all the outputs and inputs are signed as.
abbrev pub whole : List Proof → List BlindedMessage → String
whole proofs outputs =
    join (map (λ (p : Proof). p.secret) proofs ++ map (λ (o : BlindedMessage). o.B_) outputs)

module _ (env : Script) where
  inputs_require_sigall-tagged :
      (ps : List Proof)
      → inputs_require_sigall env ps ≡ true
      → check_at_least_one_sig_all env ps ≡ true
  unfolding inputs_require_sigall check_at_least_one_sig_all
  inputs_require_sigall-tagged ps h =
      any_of_mono _ _ (λ p. requires_sigall-tagged (secret_of env p)) ps h

  -- With a SIG_ALL input, a check that returns went through the lock of the one secret that all
  -- inputs share, on the text of all inputs and outputs.
  pub verify_input_output-lock :
      (ps : List Proof) (os : List BlindedMessage) (b : Bool)
      → inputs_require_sigall env ps ≡ true
      → verify_input_output_spending_conditions env ps os ≡ ok b
      → (s : Secret) × (kind : SecretKind) × (verify_all_secrets_equal_and_return env ps ≡ ok s)
        × (secret_kind s.kind ≡ ok kind)
        × (verify_lock env ps (whole ps os) s kind ≡ ok b)
  unfolding verify_input_output_spending_conditions verify_sigall_spending_conditions
  verify_input_output-lock ps os b h e =
      let (s, e₁, e₂) =
        >>=-eq-ok (verify_all_secrets_equal_and_return env ps)
          (λ _. verify_sigall_spending_conditions env ps os "") (sym (if-true h _ _) ∙ e) in
      let e₃ = sym (if-true (inputs_require_sigall-tagged ps h) _ _) ∙ e₂ in
      let e₄ : when_equal env ps (whole ps os) (ok s) ≡ ok b =
        sym (λ i. when_equal env ps (if-true (eq_refl "") (whole ps os) "" i) (e₁ i)) ∙ e₃ in
      let (kind, e₅, e₆) = >>=-eq-ok (secret_kind s.kind) _ e₄ in (s, kind, e₁, e₅, e₆)

  -- The first input's witness has enough signatures by different pubkeys of the list.
  pub record IsSignedBy (order : IsSetOrder env.set_order) (ps : List Proof) (message : String)
      (pubkeys : List String) (n : ℤ) : Type 0 where
    pub witness : String
    pub signatures : List String
    pub on_first : first_witness env ps ≡ ok witness
    pub parsed : env.p2pk_signatures witness ≡ some signatures
    pub positive : pos 0 <ℤ n
    pub signed : IsSigned env order message (map env.lower pubkeys) (map env.lower signatures) n

  signed_by-IsSignedBy :
      (order : IsSetOrder env.set_order) (ps : List Proof) (message : String)
      (pubkeys : List String) (n : ℤ) (b : Bool)
      → signed_by env ps message pubkeys n ≡ ok b
      → IsSignedBy order ps message pubkeys n × (b ≡ true)
  signed_by-IsSignedBy order ps message pubkeys n b e =
      let keys = map env.lower pubkeys in
      let (unique, e₁) =
        >>-eq-ok (require (is_unique env keys) (transaction_error "pubkeys must be unique.")) _ e in
      let (positive, e₂) =
        >>-eq-ok (require (ltb_ℤ (pos 0) n) (transaction_error "n_sigs must be positive.")) _ e₁ in
      let (w, e₃, e₄) = >>=-eq-ok (first_witness env ps) _ e₂ in
      let (given, e₅, e₆) = >>=-eq-ok (or_raise (env.p2pk_signatures w) value_error) _ e₄ in
      let sigs = map env.lower given in
      let (_, e₇) =
        >>-eq-ok (raise_if (is_empty sigs) (transaction_error "no signatures in proof.")) _ e₆ in
      let (unique_sigs, met) =
        >>-eq-ok (require (is_unique env sigs) (transaction_error "signatures must be unique.")) _
          e₇ in
      (
        record {
          witness = w;
          signatures = given;
          on_first = e₃;
          parsed = or_raise-eq-ok _ _ e₅;
          positive = ground arith;
          signed =
              threshold_met-IsSigned env order message keys sigs n b
                (is_unique-Distinct env order message keys (require-eq-ok _ _ unique))
                (is_unique-Distinct env order message sigs (require-eq-ok _ _ unique_sigs)) met;
        },
        threshold_met-true env order message keys sigs n b met,
      )

  -- The lock of a P2PK secret before its locktime.
  verify_lock-signed_by :
      (ps : List Proof) (message : String) (s : Secret) (b : Bool) (t : Option ℤ) (n : ℤ)
      (more : List String)
      → get_tag_all "pubkeys" s.tags ≡ ok more
      → n_sigs env.parse_int s ≡ ok n
      → locktime env.parse_int s ≡ ok t
      → has_passed env t ≡ false
      → verify_lock env ps message s SecretKind.p2pk ≡ ok b
      → signed_by env ps message (s.data_ ∷ more) (int_or (some n) (pos 1)) ≡ ok b
  unfolding verify_lock
  verify_lock-signed_by ps message s b t n more tags sigs time early e =
      sym (rw (tags, sigs, time, early) refl) ∙ e

  -- If the inputs require SIG_ALL and share one secret, which is a P2PK lock whose locktime has not
  -- passed, then a check that returns has returned true, and has found in the witness of the first
  -- input at least n_sigs, and at least one, signatures of all inputs and outputs, each by a
  -- different pubkey of the lock. (`order` says that a Python set is iterated over once per
  -- element.)
  pub verify_input_output-IsSignedBy :
      (order : IsSetOrder env.set_order) (ps : List Proof) (os : List BlindedMessage) (b : Bool)
      (s : Secret) (t : Option ℤ) (n : ℤ) (more : List String)
      → inputs_require_sigall env ps ≡ true
      → verify_all_secrets_equal_and_return env ps ≡ ok s
      → secret_kind s.kind ≡ ok SecretKind.p2pk
      → get_tag_all "pubkeys" s.tags ≡ ok more
      → n_sigs env.parse_int s ≡ ok n
      → locktime env.parse_int s ≡ ok t
      → has_passed env t ≡ false
      → verify_input_output_spending_conditions env ps os ≡ ok b
      → IsSignedBy order ps (whole ps os) (s.data_ ∷ more) (int_or (some n) (pos 1)) × (b ≡ true)
  verify_input_output-IsSignedBy order ps os b s t n more h equal p2pk tags sigs time early e =
      let (s', kind, e₁, e₂, e₃) = verify_input_output-lock ps os b h e in
      let same : s ≡ s' = ok-inj (sym equal ∙ e₁) in
      let same_kind : SecretKind.p2pk ≡ kind =
        ok-inj (sym p2pk ∙ ap (λ (x : Secret). secret_kind x.kind) same ∙ e₂) in
      let lock : verify_lock env ps (whole ps os) s SecretKind.p2pk ≡ ok b =
        ap (λ (x : Secret). verify_lock env ps (whole ps os) x SecretKind.p2pk) same
        ∙ ap (λ k. verify_lock env ps (whole ps os) s' k) same_kind
        ∙ e₃ in
      signed_by-IsSignedBy order ps (whole ps os) (s.data_ ∷ more) (int_or (some n) (pos 1)) b
        (verify_lock-signed_by ps (whole ps os) s b t n more tags sigs time early lock)
