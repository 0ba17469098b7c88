-- ===== src/Mint/Conditions/Threshold.antt =====
-- The multisignature check of cashu/mint/conditions.py: it returns only if the threshold is met by
-- different pubkeys with different signatures.
use nutshell.Base.{
  ℕ, ℤ, pos, ◌≤ℤ◌, ◌<ℤ◌, String, Bool, true, some, List, map, inl, inr, ◌≡◌, arith, contains,
  Distinct, Distinct-of_length,
}
use nutshell.Core.Result.{ok, Result-cases}
use nutshell.Core.Secret.{int_or}
use nutshell.Mint.Conditions.{
  Script, at_most, threshold_met, verify_p2pk_signatures, count_valid, is_unique,
}
use nutshell.Mint.Conditions.Matching.{Matching, count_valid-Matching}

-- Iterating over a set of different texts meets every one of them once, and nothing else.
abbrev pub IsSetOrder : (List String → List String) → Type 0
IsSetOrder order =
    (xs : List String)
    → Distinct xs
    → Distinct (order xs) × ((x : String) → contains x (order xs) ≡ true → contains x xs ≡ true)

at_most-le : (n : ℤ) (k : ℕ) → at_most n k ≡ true → n ≤ℤ pos k
at_most-le n k h = ground arith

module _ (env : Script) (order : IsSetOrder env.set_order) (message : String) where
  -- Enough different pubkeys have signed, each with a signature of its own.
  pub record IsSigned (pubkeys sigs : List String) (n_required : ℤ) : Type 0 where
    pub n : ℕ
    pub enough : n_required ≤ℤ pos n
    pub matching : Matching env message pubkeys sigs n

  threshold_met-counts :
      (pubkeys sigs : List String) (n_required : ℤ) (b : Bool)
      → threshold_met env message pubkeys sigs n_required ≡ ok b
      → (n : ℕ) × (count_valid env message (env.set_order pubkeys) sigs ≡ ok n)
        × (n_required ≤ℤ pos n)
  unfolding threshold_met
  threshold_met-counts pubkeys sigs n_required b e =
      elim (Result-cases (count_valid env message (env.set_order pubkeys) sigs)) [
        | inl (d, failed) ↦ absurd (ground arith)
        | inr (n, counted) ↦ (n, counted, ground arith)
      ]

  pub threshold_met-true :
      (pubkeys sigs : List String) (n_required : ℤ) (b : Bool)
      → threshold_met env message pubkeys sigs n_required ≡ ok b
      → b ≡ true
  unfolding threshold_met
  threshold_met-true pubkeys sigs n_required b e = ground arith

  pub threshold_met-IsSigned :
      (pubkeys sigs : List String) (n_required : ℤ) (b : Bool)
      → Distinct pubkeys
      → Distinct sigs
      → threshold_met env message pubkeys sigs n_required ≡ ok b
      → IsSigned pubkeys sigs n_required
  threshold_met-IsSigned pubkeys sigs n_required b dp ds e =
      let (n, counted, enough) = threshold_met-counts pubkeys sigs n_required b e in
      let (d, sub) = order pubkeys dp in
      let m = count_valid-Matching env message (env.set_order pubkeys) sigs n d ds counted in
      record {
        n = n;
        enough = enough;
        matching = record {
          pairs = m.pairs;
          counted = m.counted;
          valid = m.valid;
          keys_distinct = m.keys_distinct;
          marks_distinct = m.marks_distinct;
          keys_known = λ x h. sub x (m.keys_known x h);
          marks_known = m.marks_known;
        };
      }

  pub is_unique-Distinct : (xs : List String) → is_unique env xs ≡ true → Distinct xs
  is_unique-Distinct xs h = Distinct-of_length xs (ground arith)

  -- If the check of a P2PK witness returns, then at least as many different pubkeys as are required,
  -- and at least one, have each signed the message with a signature of their own: no pubkey counts
  -- twice, no signature is used twice, and all stand in the lists given (in lower case). What it
  -- returns is true. (`order` says that a Python set is iterated over once per element.)
  pub verify_p2pk_signatures-IsSigned :
      (pubkeys sigs : List String) (n_required : ℤ) (b : Bool)
      → verify_p2pk_signatures env message pubkeys sigs n_required ≡ ok b
      → (b ≡ true)
        × (pos 0 <ℤ int_or (some n_required) (pos 1))
        × IsSigned (map env.lower pubkeys) (map env.lower sigs) (int_or (some n_required) (pos 1))
  unfolding verify_p2pk_signatures
  verify_p2pk_signatures-IsSigned pubkeys sigs n_required b e =
      let n = int_or (some n_required) (pos 1) in
      let met : threshold_met env message (map env.lower pubkeys) (map env.lower sigs) n ≡ ok b =
        ground arith in
      (
        threshold_met-true (map env.lower pubkeys) (map env.lower sigs) n b met,
        ground arith,
        threshold_met-IsSigned (map env.lower pubkeys) (map env.lower sigs) n b
            (is_unique-Distinct (map env.lower pubkeys) (ground arith))
            (is_unique-Distinct (map env.lower sigs) (ground arith)) met,
      )
