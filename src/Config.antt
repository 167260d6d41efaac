-- ===== src/Config.antt =====
-- config/config.go: the parsing of the cutoffs and jettons and the checks of `GetConfig`. The packages decimal and
-- tonutils are parameters; `log.Fatalf` ends the process and is an error.
pub mod Parsed
pub mod Split
use Prim.Native.Char.{Char, code}
use Prim.Native.String
use Prim.Native.String.{[], ◌∷◌}
use bicycle.Prelude.{
  ℕ, Bool, true, false, not, ◌&&◌, ◌||◌, List, [], ◌∷◌, Option, none, some, String, str_eq, ◌==◌,
  ltb, if◌then◌else◌, Result, ok, err, ◌>>=◌, error_text, Error,
}
use bicycle.Prelude.Int.{ℤ, pos, ltb_ℤ}
use bicycle.Models.{TonAddress, AddrType, is_std}
use bicycle.Api.Context.{ParsedAddress}

-- `decimal.Decimal` and `address.ParseAddr`: the product with `DefaultHotWalletHysteresis`, `Cmp` being 1, and `BigInt`.
pub record Decimals (D : Type 0) : Type 0 where
  pub from_string : String → Result D
  pub times_hysteresis : D → D
  pub is_greater : D → D → Bool
  pub big_int : D → ℤ
  pub parse_addr : String → Result ParsedAddress

-- `Jetton`
pub record JettonConfig : Type 0 where
  pub master : TonAddress
  pub withdrawal_cutoff : ℤ
  pub hot_wallet_max_cutoff : ℤ
  pub hot_wallet_residual : ℤ

-- `Cutoffs`
pub record TonCutoffs : Type 0 where
  pub hot_wallet_min : ℤ
  pub hot_wallet_max : ℤ
  pub withdrawal : ℤ
  pub hot_wallet_residual : ℤ

-- `strings.Split` at a character, whose code is given: the loop keeps the part that is open.
unfoldable pub split_at : ℕ → String → String → List String
split_at sep cur [] = cur ∷ []
split_at sep cur (ch ∷ s) =
    let closed = split_at sep "" s in
    let longer = split_at sep (String.◌++◌ cur (ch ∷ "")) s in
    if code ch == sep then cur ∷ closed else longer

-- `res[cur] = ...`: the newest entry of a key counts.
abbrev pub Jettons : Type 0
Jettons = List (String × JettonConfig)

module _ {D : Type 0} (decimals : Decimals D) where
  -- The residual that is given, or the share of the maximum.
  abbrev residual_of : D → Option String → Result D
  residual_of max none = ok (decimals.times_hysteresis max)
  residual_of max (some text) = decimals.from_string text

  abbrev jetton_entry :
      String → String → String → String → Option String → Result (String × JettonConfig)
  jetton_entry cur addr max_text withdrawal_text residual_text = do
    a ← decimals.parse_addr addr
    max_cutoff ← decimals.from_string max_text
    withdrawal_cutoff ← decimals.from_string withdrawal_text
    residual ← residual_of max_cutoff residual_text
    ok (
      cur,
      record {
        master = a.addr;
        withdrawal_cutoff = decimals.big_int withdrawal_cutoff;
        hot_wallet_max_cutoff = decimals.big_int max_cutoff;
        hot_wallet_residual = decimals.big_int residual;
      },
    )

  -- The parts of one jetton, four or five.
  unfoldable pub parse_jetton : List String → Result (String × JettonConfig)
  parse_jetton (cur ∷ addr ∷ max ∷ withdrawal ∷ []) = jetton_entry cur addr max withdrawal none
  parse_jetton (cur ∷ addr ∷ max ∷ withdrawal ∷ residual ∷ []) =
      jetton_entry cur addr max withdrawal (some residual)
  parse_jetton _ = err (error_text "invalid jetton data")

  unfoldable pub parse_jettons : List String → Jettons → Result Jettons
  unfolding parse_jetton split_at
  parse_jettons [] res = ok res
  parse_jettons (j ∷ js) res =
      parse_jetton (split_at 58 "" j) >>= λ entry. parse_jettons js (entry ∷ res)

  -- `parseJettonString`
  unfoldable pub parse_jetton_string : String → Result Jettons
  unfolding parse_jettons split_at
  parse_jetton_string s = if str_eq s "" then ok [] else parse_jettons (split_at 44 "" s) []

  abbrev ton_cutoffs_of : String → String → String → Option String → Result TonCutoffs
  ton_cutoffs_of min_text max_text withdrawal_text residual_text = do
    hot_wallet_min ← decimals.from_string min_text
    hot_wallet_max ← decimals.from_string max_text
    withdrawal ← decimals.from_string withdrawal_text
    (if decimals.is_greater hot_wallet_min hot_wallet_max
        then err
            (error_text "TON hot wallet max cutoff must be greater than TON hot wallet min cutoff")
        else (residual_of hot_wallet_max residual_text >>= λ residual. ok (record {
          hot_wallet_min = decimals.big_int hot_wallet_min;
          hot_wallet_max = decimals.big_int hot_wallet_max;
          withdrawal = decimals.big_int withdrawal;
          hot_wallet_residual = decimals.big_int residual;
        })))

  unfoldable pub parse_ton_parts : List String → Result TonCutoffs
  parse_ton_parts (min ∷ max ∷ withdrawal ∷ []) = ton_cutoffs_of min max withdrawal none
  parse_ton_parts (min ∷ max ∷ withdrawal ∷ residual ∷ []) =
      ton_cutoffs_of min max withdrawal (some residual)
  parse_ton_parts _ = err (error_text "invalid TON cuttofs")

  -- `parseTonString`
  unfoldable pub parse_ton_string : String → Result TonCutoffs
  unfolding parse_ton_parts split_at
  parse_ton_string s = parse_ton_parts (split_at 58 "" s)

  -- The cold wallet of `GetConfig`.
  unfoldable pub parse_cold_wallet : Bool → String → Result (Option ParsedAddress)
  parse_cold_wallet testnet s =
      if str_eq s ""
      then ok none
      else (decimals.parse_addr s >>= λ a.
          if not (is_std a.addr.addr_type)
          then err (error_text "Only std cold wallet address supported")
          else if a.testnet_only && not testnet
          then err (error_text "Can not use testnet cold wallet address for mainnet")
          else ok (some a))

abbrev is_zero : ℤ → Bool
is_zero (pos n) = n == 0
is_zero (ℤ.negsuc n) = false

-- `MaxJettonForwardTonAmount` in nano TON.
abbrev pub max_forward : ℤ
max_forward = pos 20000000

-- What `GetConfig` reads of the environment.
pub record Environment : Type 0 where
  pub testnet : Bool
  pub cold_wallet_string : String
  pub jetton_string : String
  pub ton_string : String
  pub allowable_lagging_sec : ℤ
  pub forward_ton_amount : ℤ

-- What it sets, besides the environment.
pub record Configuration : Type 0 where
  pub jettons : Jettons
  pub ton : TonCutoffs
  pub jetton_forward_amount : ℤ
  pub cold_wallet : Option ParsedAddress
  pub allowable_blockchain_lagging : ℤ

-- `GetConfig`; the lag is 40 seconds where none is given.
unfoldable pub get_config : {D : Type 0} → Decimals D → Environment → Result Configuration
unfolding parse_jetton_string parse_ton_string parse_cold_wallet
get_config decimals env = do
  jettons ← parse_jetton_string decimals env.jetton_string
  ton ← parse_ton_string decimals env.ton_string
  (if ltb_ℤ env.forward_ton_amount (pos 0) || ltb_ℤ max_forward env.forward_ton_amount
      then err (
          error_text
            "Forward TON amount for jetton transfer must be positive and less than 20000000")
      else (parse_cold_wallet decimals env.testnet env.cold_wallet_string >>= λ cold. ok (record {
        jettons = jettons;
        ton = ton;
        jetton_forward_amount = env.forward_ton_amount;
        cold_wallet = cold;
        allowable_blockchain_lagging =
            if is_zero env.allowable_lagging_sec then pos 40 else env.allowable_lagging_sec;
      })))
