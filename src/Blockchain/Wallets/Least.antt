-- ===== src/Blockchain/Wallets/Least.antt =====
-- The wallet that is found has the least id in the shard.
use bicycle.Prelude.{
  ℕ, zero, suc, ◌+◌, ◌-◌, ◌≤◌, ◌<◌, ◌≡◌, refl, sym, subst, ◌∙◌, ap, ◌⊎◌, inl, inr, Bool, true,
  false, some, Result, ok, >>=-eq-ok, ok-injective, Bool-cases, arith,
}
use bicycle.Models.{Address, TonAddress, address_from_tonutils}
use bicycle.Blockchain.Wallets.{in_shard, max_uint32, search, try_sub_wallet, generate_sub_wallet}

le-cases : (i k : ℕ) → i ≤ k → (i ≡ k) ⊎ (suc i ≤ k)
le-cases i k le = ground arith

clash {ℓ} : {A : Type ℓ} {a b : A} → ◌≡◌ {A = Result (A × Bool)} (ok (a, true)) (ok (b, false)) → ⊥
clash h = cc

module _ {ℓ} {A : Type ℓ} (body : ℕ → Result (A × Bool)) where
  -- The first value in the shard from `i` on.
  pub record IsLeast (i k : ℕ) (a : A) : Type ℓ where
    pub after : i ≤ k
    pub found : body k ≡ ok (a, true)
    pub skipped : (j : ℕ) → i ≤ j → j < k → (b : A) × (body j ≡ ok (b, false))

  IsLeast-later : (i k : ℕ) (a b : A) → body i ≡ ok (b, false) → IsLeast (suc i) k a → IsLeast i k a
  IsLeast-later i k a b h l = record {
    after = let p = l.after in omega arith;
    found = l.found;
    skipped = λ j le lt. elim (le-cases i j le) [
      | inl e ↦ (b, subst (λ x. body x ≡ ok (b, false)) e h)
      | inr gt ↦ l.skipped j gt lt
    ];
  }

  -- The end of the loop, and what a round without success leaves to the next.
  IsLeast-now :
      (i : ℕ) (a b : A) {k : ℕ}
      → body i ≡ ok (b, true)
      → ◌≡◌ {A = Result (A × ℕ)} (ok (b, i)) (ok (a, k))
      → IsLeast i k a × (k ≡ i)
  IsLeast-now i a b {k} here e =
      let pair = ok-injective e in
      let at : i ≡ k = ap (λ (x : A × ℕ). x.1) pair in
      let same : b ≡ a = ap (λ (x : A × ℕ). x.0) pair in
      (
        record {
          after = omega arith;
          found =
              subst (λ x. body x ≡ ok (a, true)) at (subst (λ x. body i ≡ ok (x, true)) same here);
          skipped = λ j le lt. absurd (omega arith);
        },
        sym at,
      )

  -- A round, with what holds of the next.
  search-step :
      (n i k : ℕ) (a : A) (x : A × Bool)
      → body i ≡ ok x
      → elim x.1 [ true ↦ ok (x.0, i) | false ↦ search body n (suc i) ] ≡ ok (a, k)
      → (search body n (suc i) ≡ ok (a, k) → IsLeast (suc i) k a × (k < suc i + n))
      → IsLeast i k a × (k < i + suc n)
  search-step n i k a (b, true) here e next =
      let (least, same) = IsLeast-now i a b here e in (least, omega arith)
  search-step n i k a (b, false) here e next =
      let (least, lt) = next e in (IsLeast-later i k a b here least, omega arith)

  search-IsLeast : (n i k : ℕ) (a : A) → search body n i ≡ ok (a, k) → IsLeast i k a × (k < i + n)
  unfolding search
  search-IsLeast zero i k a e = cc
  search-IsLeast (suc n) i k a e =
      let (x, here, rest) = >>=-eq-ok (body i) _ e in
      search-step n i k a x here rest (search-IsLeast n (suc i) k a)

  -- Where no call fails up to an id in the shard, an id up to that one is found.
  search-finds :
      (n i k : ℕ)
      → i ≤ k
      → k < i + n
      → ((j : ℕ) → i ≤ j → j ≤ k → (x : A × Bool) × (body j ≡ ok x))
      → (a : A) → body k ≡ ok (a, true)
      → (r : A × ℕ) × (search body n i ≡ ok r) × (r.1 ≤ k)
  unfolding search
  search-finds zero i k le lt total a h = absurd (omega arith)
  search-finds (suc n) i k le lt total a h =
      let ((b, found), here) = total i (omega arith) le in
      elim (Bool-cases found) [
        | inl t ↦ ((b, i), rw (here, t) refl, le)
        | inr f ↦
            let next =
              search-finds n (suc i) k (later (rw f at here)) (omega arith)
                (λ j l m. total j (omega arith) m) a h in
            (next.0, rw (here, f) next.1, next.2)
      ]
    where
      later : {b : A} → body i ≡ ok (b, false) → suc i ≤ k
      later e = elim (le-cases i k le) [
        | inl same ↦ absurd (clash (sym (subst (λ x. body x ≡ ok (a, true)) (sym same) h) ∙ e))
        | inr lt ↦ lt
      ]

-- A subwallet that is derived, with its address.
abbrev pub IsDerived : (ℕ → Result TonAddress) → ℕ → TonAddress → Address → Type 0
IsDerived get_subwallet id w a = (get_subwallet id ≡ ok w) × (address_from_tonutils (some w) ≡ ok a)

module _ (get_subwallet : ℕ → Result TonAddress) (shard : ℕ) where
  try_sub_wallet-eq-ok :
      (id : ℕ) {w : TonAddress} {found : Bool}
      → try_sub_wallet get_subwallet shard id ≡ ok (w, found)
      → (a : Address) × IsDerived get_subwallet id w a × (in_shard a shard ≡ found)
  unfolding try_sub_wallet
  try_sub_wallet-eq-ok id {w} {found} e =
      let (v, derived, e1) = >>=-eq-ok (get_subwallet id) _ e in
      let (a, address, e2) = >>=-eq-ok (address_from_tonutils (some v)) _ e1 in
      let pair = ok-injective e2 in
      let same : v ≡ w = ap (λ (x : TonAddress × Bool). x.0) pair in
      (
        a,
        (derived ∙ ap ok same, subst (λ x. address_from_tonutils (some x) ≡ ok a) same address),
        ap (λ (x : TonAddress × Bool). x.1) pair,
      )

-- The subwallet that `GenerateSubWallet` returns has an id from the start on and below the largest uint32, it is the
-- one that is derived for the id, its address is in the shard, and every smaller id from the start on has an
-- address outside.
pub generate_sub_wallet_least :
    (from_seed : Result (Unit {0})) (get_subwallet : ℕ → Result TonAddress) (shard start id : ℕ)
    (w : TonAddress)
    → generate_sub_wallet from_seed get_subwallet shard start ≡ ok (w, id)
    → (start ≤ id)
      × (id < max_uint32)
      × ((a : Address) × IsDerived get_subwallet id w a × (in_shard a shard ≡ true))
      × ((j : ℕ)
          → start ≤ j
          → j < id
          → (v : TonAddress) × (a : Address) × IsDerived get_subwallet j v a
            × (in_shard a shard ≡ false))
unfolding generate_sub_wallet
generate_sub_wallet_least from_seed get_subwallet shard start id w e =
    let body = try_sub_wallet get_subwallet shard in
    let (_, _, found) = >>=-eq-ok from_seed _ e in
    let (least, lt) = search-IsLeast body (max_uint32 - start) start id w found in
    let after = least.after in
    (
      after,
      omega arith,
      try_sub_wallet-eq-ok get_subwallet shard id least.found,
      λ j le lt'.
          let (v, here) = least.skipped j le lt' in
          let (a, derived, outside) = try_sub_wallet-eq-ok get_subwallet shard j here in
          (v, a, derived, outside),
    )

-- Where the seed is read and every subwallet from the start up to some id is derived, and that id is below the
-- largest uint32 and in the shard, `GenerateSubWallet` succeeds, with an id up to that one.
pub generate_sub_wallet_finds :
    (get_subwallet : ℕ → Result TonAddress) (shard start k : ℕ)
    → start ≤ k
    → k < max_uint32
    → ((j : ℕ)
        → start ≤ j
        → j ≤ k
        → (v : TonAddress) × (a : Address) × IsDerived get_subwallet j v a)
    → (w : TonAddress) (a : Address) → IsDerived get_subwallet k w a
    → in_shard a shard ≡ true
    → (r : TonAddress × ℕ) × (generate_sub_wallet (ok tt) get_subwallet shard start ≡ ok r)
      × (r.1 ≤ k)
unfolding generate_sub_wallet
generate_sub_wallet_finds get_subwallet shard start k le lt total w a (derived, address) here =
    search-finds (try_sub_wallet get_subwallet shard) (max_uint32 - start) start k le (omega arith)
      (λ j l m. let (v, b, d) = total j l m in ((v, in_shard b shard), tried j v b d.0 d.1)) w
      (tried k w a derived address ∙ ap (λ b. ok (w, b)) here)
  where
    tried :
        (j : ℕ) (v : TonAddress) (b : Address)
        → get_subwallet j ≡ ok v
        → address_from_tonutils (some v) ≡ ok b
        → try_sub_wallet get_subwallet shard j ≡ ok (v, in_shard b shard)
    tried j v b d e = unfold try_sub_wallet in rw (d, e) refl
