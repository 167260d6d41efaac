-- ===== src/Blockchain/Retry.antt =====
-- blockchain/blockchain.go: calls that are repeated until one succeeds. The answer to the call number
-- `i` is `f i`; the sleeps between calls are not in the model.
use bicycle.Prelude.{
  ℕ, zero, suc, ◌+◌, ◌≤◌, ◌≡◌, refl, sym, ap, subst, Result-cases, ◌⊎◌, inl, inr, Result, ok, err,
  Error, arith,
}
use bicycle.Prelude.Int.{ℤ, pos, negsuc}

shift : (i k : ℕ) → suc i + k ≡ i + suc k
shift i k = omega arith

add_zero : (i : ℕ) → i ≡ i + 0
add_zero i = omega arith

module _ {ℓ} {A : Type ℓ} (f : ℕ → Result A) where
  abbrev or_else : Result A → Result A → Result A
  or_else (ok a) rest = ok a
  or_else (err e) rest = rest

  -- The rounds of the loop of `retry` that are left, with the number of calls and the last result.
  unfoldable pub retry_from : ℕ → ℕ → Result A → Result A
  retry_from zero i last = last
  retry_from (suc left) i last = let rest = retry_from left (suc i) (f i) in or_else (f i) rest

  -- `retry`, and `retry2` where `A` is a pair, with `LiteServerMaxRetries`: the result before the loop is
  -- Go's zero value and no error.
  unfoldable pub retry : A → ℤ → Result A
  unfolding retry_from
  retry zero_value (pos zero) = f 0
  retry zero_value (pos (suc n)) = retry_from (suc n) 0 (ok zero_value)
  retry zero_value (negsuc _) = ok zero_value

  -- Every call from `i` on, `n` of them, fails.
  abbrev pub AllFail : ℕ → ℕ → Type ℓ
  AllFail i zero = Unit
  AllFail i (suc n) = ((e : Error) × (f i ≡ err e)) × AllFail (suc i) n

  -- The outcome of `n + 1` calls from `i` on: the first success, or the last failure.
  abbrev pub FirstOf : ℕ → ℕ → Result A → Type ℓ
  FirstOf i n r =
      ((k : ℕ) × (a : A) × (k ≤ n) × AllFail i k × (f (i + k) ≡ ok a) × (r ≡ ok a))
      ⊎ (AllFail i (suc n) × (r ≡ f (i + n)))

  FirstOf-later :
      (i n : ℕ) {e : Error} {r : Result A} → f i ≡ err e → FirstOf (suc i) n r → FirstOf i (suc n) r
  FirstOf-later i n {e} h (inl (k, a, le, fails, found, same)) =
      inl (suc k, a, omega arith, ((e, h), fails), subst (λ m. f m ≡ ok a) (shift i k) found, same)
  FirstOf-later i n {e} {r} h (inr (fails, same)) =
      inr (((e, h), fails), subst (λ m. r ≡ f m) (shift i n) same)

  -- A success at once.
  FirstOf-now : (i n : ℕ) {a : A} → f i ≡ ok a → FirstOf i n (ok a)
  FirstOf-now i n {a} found =
      inl (0, a, omega arith, tt, subst (λ m. f m ≡ ok a) (add_zero i) found, refl)

  -- One round, whatever comes after it.
  retry_from-step :
      (i n : ℕ) (rest : Result A)
      → ((e : Error) → f i ≡ err e → FirstOf i n rest)
      → FirstOf i n (or_else (f i) rest)
  retry_from-step i n rest later = elim (Result-cases (f i)) [
    | inl (a, found) ↦
        subst (FirstOf i n) (ap (λ m. or_else m rest) (sym found)) (FirstOf-now i n found)
    | inr (e, failed) ↦ subst (FirstOf i n) (ap (λ m. or_else m rest) (sym failed)) (later e failed)
  ]

  retry_from_lem : (n i : ℕ) (last : Result A) → FirstOf i n (retry_from (suc n) i last)
  unfolding retry_from
  retry_from_lem zero i last =
      retry_from-step i zero (f i) (λ e h. inr (((e, h), tt), ap f (add_zero i)))
  retry_from_lem (suc n) i last =
      retry_from-step i (suc n) (retry_from (suc n) (suc i) (f i))
        (λ e h. FirstOf-later i n h (retry_from_lem n (suc i) (f i)))

-- With `n + 1` allowed calls `retry` answers with the first success among them, after failures only, and
-- with the failure of the last call if there is none.
pub retry_first {ℓ} :
    {A : Type ℓ} (f : ℕ → Result A) (zero_value : A) (n : ℕ)
    → FirstOf f 0 n (retry f zero_value (pos (suc n)))
unfolding retry
retry_first f zero_value n = retry_from_lem f n 0 (ok zero_value)
