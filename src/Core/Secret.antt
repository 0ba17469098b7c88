-- ===== src/Core/Secret.antt =====
-- cashu/core/secret.py, and the properties of `P2PKSecret` in cashu/core/p2pk.py, which `HTLCSecret`
-- inherits. A tag that is too short raises `IndexError`, as `tag[0]` and `tag[1]` do.
use nutshell.Base.{
  ℤ, pos, String, Bool, true, false, Option, none, some, List, [], ◌∷◌, ◌++◌, ◌==◌, ◌&&◌, not,
  if◌then◌else◌, eqb_ℤ,
}
use nutshell.Core.Errors.{index_error, value_error}
use nutshell.Core.Result.{Result, ok, err, ◌>>=◌}

pub data SecretKind : Type 0 where
  p2pk htlc : SecretKind

pub record Secret : Type 0 where
  pub kind : String
  pub data_ : String
  pub tags : List (List String)

-- `SecretKind(kind)`
abbrev pub secret_kind : String → Result SecretKind
secret_kind k =
    if k == "P2PK"
    then ok SecretKind.p2pk
    else if k == "HTLC"
    then ok SecretKind.htlc
    else err value_error

abbrev second : List String → Result (Option String)
second [] = err index_error
second (t ∷ ts) = ok (some t)

unfoldable pub get_tag : String → List (List String) → Result (Option String)
get_tag name [] = ok none
get_tag name ([] ∷ tags) = err index_error
get_tag name ((t ∷ ts) ∷ tags) = if t == name then second ts else get_tag name tags

unfoldable pub get_tag_all : String → List (List String) → Result (List String)
get_tag_all name [] = ok []
get_tag_all name ([] ∷ tags) = err index_error
get_tag_all name ((t ∷ ts) ∷ tags) =
    get_tag_all name tags >>= λ rest. ok (if t == name then ts ++ rest else rest)

-- A text counts as true unless it is missing or empty.
abbrev pub truthy : Option String → Bool
truthy none = false
truthy (some t) = not (t == "")

-- `n or default`, on an optional integer.
abbrev pub int_or : Option ℤ → ℤ → ℤ
int_or none d = d
int_or (some n) d = if eqb_ℤ n (pos 0) then d else n

-- Two secrets are equal if they have the same kind, data and tags.
abbrev pub words_eq : List String → List String → Bool
words_eq [] [] = true
words_eq (x ∷ xs) (y ∷ ys) = x == y && words_eq xs ys
words_eq _ _ = false

abbrev pub tags_eq : List (List String) → List (List String) → Bool
tags_eq [] [] = true
tags_eq (x ∷ xs) (y ∷ ys) = words_eq x y && tags_eq xs ys
tags_eq _ _ = false

unfoldable pub secret_eq : Secret → Secret → Bool
secret_eq a b = a.kind == b.kind && a.data_ == b.data_ && tags_eq a.tags b.tags

-- `int(text)`, which Python defines; `none` is `ValueError`.
module _ (parse_int : String → Option ℤ) where
  abbrev parsed : Option ℤ → Result (Option ℤ)
  parsed none = err value_error
  parsed (some n) = ok (some n)

  -- A tag that is no integer counts as missing.
  unfoldable pub get_tag_int : String → List (List String) → Result (Option ℤ)
  get_tag_int name tags =
      get_tag name tags >>= λ tag. elim tag [ none ↦ ok none | some t ↦ ok (parse_int t) ]

  unfoldable pub locktime : Secret → Result (Option ℤ)
  locktime s = get_tag "locktime" s.tags >>= λ tag. elim tag [
    | none ↦ ok none
    | some t ↦ if t == "" then ok none else parsed (parse_int t)
  ]

  unfoldable pub n_sigs : Secret → Result ℤ
  n_sigs s = get_tag_int "n_sigs" s.tags >>= λ n. ok (int_or n (pos 1))

  unfoldable pub n_sigs_refund : Secret → Result (Option ℤ)
  n_sigs_refund s = get_tag_int "n_sigs_refund" s.tags
