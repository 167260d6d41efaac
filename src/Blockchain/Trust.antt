-- ===== src/Blockchain/Trust.antt =====
-- blockchain/blockchain.go: the choice of a block to trust. A source confirms the block, contradicts it, or fails.
use bicycle.Prelude.{
  ℕ, suc, ◌-◌, ◌≤◌, ◌≡◌, refl, sym, ◌∙◌, ap, subst, Bool, true, false, List, [], ◌∷◌, ◌++◌, length,
  ltb, leb, if◌then◌else◌, Result, ok, err, ◌>>=◌, >>=-eq-ok, ok-injective, Error, mismatch_head,
  no_trusted_block, Bool-cases, inl, inr, arith,
}

-- `errors.Is(err, trust.MismatchHead)`
abbrev pub is_mismatch : Error → Bool
is_mismatch mismatch_head = true
is_mismatch _ = false

module _ {ℓ} {B : Type ℓ} (block : B) (required : ℕ) where
  -- The loop over the answers of `CheckBlock`.
  unfoldable pub check_sources : ℕ → List (Result (Unit {0})) → Result B
  check_sources success [] = err no_trusted_block
  check_sources success (err e ∷ ts) =
      let rest = check_sources success ts in if is_mismatch e then err e else rest
  check_sources success (ok _ ∷ ts) =
      let rest = check_sources (suc success) ts in
      if leb required (suc success) then ok block else rest

-- `require`
abbrev pub require : ℕ → ℕ
require sources = if ltb (sources - 1) 1 then 1 else sources - 1

-- `getTrustBlockFromDifferentSources`
unfoldable pub get_trust_block_from_different_sources {ℓ} :
    {B : Type ℓ} → Result B → List (Result (Unit {0})) → Result B
unfolding check_sources
get_trust_block_from_different_sources mc_info sources = do
  block ← mc_info
  check_sources block (require (length sources)) 0 sources

abbrev pub confirms : Result (Unit {0}) → Bool
confirms (ok _) = true
confirms (err e) = false

-- The sources that confirm the block.
abbrev pub confirmations : List (Result (Unit {0})) → ℕ
confirmations [] = 0
confirmations (t ∷ ts) = let rest = confirmations ts in if confirms t then suc rest else rest

abbrev pub contradicts : Result (Unit {0}) → Bool
contradicts (ok _) = false
contradicts (err e) = is_mismatch e

abbrev pub no_mismatch : List (Result (Unit {0})) → Bool
no_mismatch [] = true
no_mismatch (t ∷ ts) = let rest = no_mismatch ts in if contradicts t then false else rest

-- The sources that were asked: they confirm as often as is required and none of them contradicts.
pub record IsConfirmed (required : ℕ) (sources : List (Result (Unit {0}))) : Type 0 where
  pub asked : List (Result (Unit {0}))
  pub others : List (Result (Unit {0}))
  pub split : sources ≡ asked ++ others
  pub agree : no_mismatch asked ≡ true
  pub enough : required ≤ confirmations asked

sub-zero : (n : ℕ) → n - 0 ≡ n
sub-zero n = omega arith

-- One more source that was asked.
IsConfirmed-cons :
    (r r' : ℕ) (t : Result (Unit {0})) (ts : List (Result (Unit {0})))
    → contradicts t ≡ false
    → r' ≤ (if confirms t then suc r else r)
    → IsConfirmed r ts
    → IsConfirmed r' (t ∷ ts)
IsConfirmed-cons r r' t ts agrees le c = record {
  asked = t ∷ c.asked;
  others = c.others;
  split = ap (λ x. t ∷ x) c.split;
  agree = rw agrees c.agree;
  enough = let k = c.enough in ground arith;
}

check_sources-IsConfirmed {ℓ} :
    {B : Type ℓ} (block : B) (required n : ℕ) (ts : List (Result (Unit {0}))) {b : B}
    → check_sources block required n ts ≡ ok b
    → (b ≡ block) × IsConfirmed (required - n) ts
unfolding check_sources
check_sources-IsConfirmed block required n [] e = cc
check_sources-IsConfirmed block required n (err x ∷ ts) e = elim (Bool-cases (is_mismatch x)) [
  | inl m ↦ cc (rw m at e)
  | inr m ↦
      let (same, c) = check_sources-IsConfirmed block required n ts (rw m at e) in
      (same, IsConfirmed-cons _ _ (err x) ts m (omega arith) c)
]
check_sources-IsConfirmed block required n (ok u ∷ ts) e =
    elim (Bool-cases (leb required (suc n))) [
      | inl done ↦ (
        ok-injective (sym (rw done at e)),
        record {
          asked = ok u ∷ [];
          others = ts;
          split = refl;
          agree = refl;
          enough = ground arith;
        },
      )
      | inr more ↦
          let (same, c) = check_sources-IsConfirmed block required (suc n) ts (rw more at e) in
          (same, IsConfirmed-cons _ _ (ok u) ts refl (omega arith) c)
    ]

-- A block that is trusted is the one that the node returned; the sources that were asked are the first of the list,
-- none of them contradicts it, and of `n` sources at least `n - 1`, and at least 1, confirm it.
pub trusted-IsConfirmed {ℓ} :
    {B : Type ℓ} (mc_info : Result B) (sources : List (Result (Unit {0}))) {b : B}
    → get_trust_block_from_different_sources mc_info sources ≡ ok b
    → (mc_info ≡ ok b)
      × IsConfirmed (require (length sources)) sources
      × (1 ≤ require (length sources))
      × (length sources ≤ suc (require (length sources)))
unfolding get_trust_block_from_different_sources
trusted-IsConfirmed mc_info sources e =
    let (block, info, found) = >>=-eq-ok mc_info _ e in
    let (same, c) = check_sources-IsConfirmed block (require (length sources)) 0 sources found in
    (
      info ∙ ap ok (sym same),
      subst (λ n. IsConfirmed n sources) (sub-zero (require (length sources))) c,
      ground arith,
      ground arith,
    )
