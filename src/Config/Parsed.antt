-- ===== src/Config/Parsed.antt =====
-- What holds of a configuration that is accepted.
use bicycle.Prelude.{
  ◌≡◌, ap, subst, Bool, true, false, not, ◌&&◌, ◌||◌, List, [], ◌∷◌, Option, none, some, String,
  str_eq, inl, inr, ok, >>=-eq-ok, ok-injective, if_err-eq-ok, Bool-cases, arith,
}
use bicycle.Prelude.Int.{pos, ltb_ℤ, ◌≤ℤ◌}
use bicycle.Models.{is_std}
use bicycle.Api.Context.{ParsedAddress}
use bicycle.Config.{
  Decimals, Environment, Configuration, TonCutoffs, parse_jetton_string, parse_ton_string,
  parse_cold_wallet, max_forward, get_config, ton_cutoffs_of, residual_of, parse_ton_parts,
  split_at,
}

-- An accepted cold wallet: an std address, and none of a test network unless the service is on one.
abbrev pub IsColdWallet : Bool → Option ParsedAddress → Type 0
IsColdWallet testnet none = Unit
IsColdWallet testnet (some a) =
    (is_std a.addr.addr_type ≡ true) × ((a.testnet_only && not testnet) ≡ false)

-- What is documented of `Cmp` and `BigInt`, which cuts off a fraction: a number that is not greater has no greater
-- integer part.
abbrev pub IsMonotone : {D : Type 0} → Decimals D → Type 0
IsMonotone {D} decimals =
    (a b : D) → decimals.is_greater a b ≡ false → decimals.big_int a ≤ℤ decimals.big_int b

module _ {D : Type 0} (decimals : Decimals D) (monotone : IsMonotone decimals) where
  parse_cold_wallet-IsColdWallet :
      (testnet : Bool) (s : String) {o : Option ParsedAddress}
      → parse_cold_wallet decimals testnet s ≡ ok o
      → IsColdWallet testnet o
  unfolding parse_cold_wallet
  parse_cold_wallet-IsColdWallet testnet s e = elim (Bool-cases (str_eq s "")) [
    | inl empty ↦ subst (IsColdWallet testnet) (ok-injective (rw empty at e)) tt
    | inr given ↦
        let (a, _, e1) = >>=-eq-ok (decimals.parse_addr s) _ (rw given at e) in
        let (std, e2) = if_err-eq-ok (not (is_std a.addr.addr_type)) _ _ e1 in
        let (net, e3) = if_err-eq-ok (a.testnet_only && not testnet) _ _ e2 in
        subst (IsColdWallet testnet) (ok-injective e3) (ground arith, net)
  ]

  ton_cutoffs_ordered :
      (min_text max_text withdrawal_text : String) (residual_text : Option String) {c : TonCutoffs}
      → ton_cutoffs_of decimals min_text max_text withdrawal_text residual_text ≡ ok c
      → c.hot_wallet_min ≤ℤ c.hot_wallet_max
  ton_cutoffs_ordered min_text max_text withdrawal_text residual_text e =
      let (low, _, e1) = >>=-eq-ok (decimals.from_string min_text) _ e in
      let (high, _, e2) = >>=-eq-ok (decimals.from_string max_text) _ e1 in
      let (w, _, e3) = >>=-eq-ok (decimals.from_string withdrawal_text) _ e2 in
      let (ordered, e4) = if_err-eq-ok (decimals.is_greater low high) _ _ e3 in
      let (r, _, e5) = >>=-eq-ok (residual_of decimals high residual_text) _ e4 in
      subst (λ (c : TonCutoffs). c.hot_wallet_min ≤ℤ c.hot_wallet_max) (ok-injective e5)
        (monotone low high ordered)

  parts_ordered :
      (ps : List String) {c : TonCutoffs}
      → parse_ton_parts decimals ps ≡ ok c
      → c.hot_wallet_min ≤ℤ c.hot_wallet_max
  unfolding parse_ton_parts
  parts_ordered [] e = cc
  parts_ordered (a ∷ []) e = cc
  parts_ordered (a ∷ b ∷ []) e = cc
  parts_ordered (a ∷ b ∷ c ∷ []) e = ton_cutoffs_ordered a b c none e
  parts_ordered (a ∷ b ∷ c ∷ d ∷ []) e = ton_cutoffs_ordered a b c (some d) e
  parts_ordered (a ∷ b ∷ c ∷ d ∷ x ∷ ps) e = cc

-- Where `BigInt` keeps the order of the decimals, a configuration that `GetConfig` accepts has a forward amount from 0 to
-- the maximum, both included, a cold wallet, if any, with an std address that is not of a test network unless the service
-- is on one, and a minimum of the hot wallet's TON, in whole nanoTONs, that is not above the maximum.
pub get_config_checked :
    {D : Type 0} (decimals : Decimals D) (env : Environment) {c : Configuration}
    → IsMonotone decimals
    → get_config decimals env ≡ ok c
    → (pos 0 ≤ℤ c.jetton_forward_amount)
      × (c.jetton_forward_amount ≤ℤ max_forward)
      × IsColdWallet env.testnet c.cold_wallet
      × (c.ton.hot_wallet_min ≤ℤ c.ton.hot_wallet_max)
unfolding get_config parse_ton_string
get_config_checked decimals env {c} monotone e =
    let (jettons, _, e1) = >>=-eq-ok (parse_jetton_string decimals env.jetton_string) _ e in
    let (ton, et, e2) = >>=-eq-ok (parse_ton_string decimals env.ton_string) _ e1 in
    let (range, e3) =
      if_err-eq-ok
        (ltb_ℤ env.forward_ton_amount (pos 0) || ltb_ℤ max_forward env.forward_ton_amount) _ _ e2 in
    let (cold, ec, e4) =
      >>=-eq-ok (parse_cold_wallet decimals env.testnet env.cold_wallet_string) _ e3 in
    let same = ok-injective e4 in
    let forward : env.forward_ton_amount ≡ c.jetton_forward_amount =
      ap (λ (x : Configuration). x.jetton_forward_amount) same in
    (
      subst (λ z. pos 0 ≤ℤ z) forward (ground arith),
      subst (λ z. z ≤ℤ max_forward) forward (ground arith),
      subst (IsColdWallet env.testnet) (ap (λ (x : Configuration). x.cold_wallet) same)
          (parse_cold_wallet-IsColdWallet decimals monotone env.testnet env.cold_wallet_string ec),
      subst (λ (t : TonCutoffs). t.hot_wallet_min ≤ℤ t.hot_wallet_max)
          (ap (λ (x : Configuration). x.ton) same)
          (parts_ordered decimals monotone (split_at 58 "" env.ton_string) et),
    )
