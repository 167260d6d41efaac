-- ===== src/Tests/Configurations.antt =====
-- A configuration that is accepted.
use bicycle.Prelude.{◌≡◌, refl, true, [], none, str_eq, if◌then◌else◌, ok, err, not_found, arith}
use bicycle.Prelude.Int.{ℤ, pos, ltb_ℤ, ◌≤ℤ◌}
use bicycle.Config.{
  Decimals, Environment, Configuration, split_at, parse_ton_parts, parse_ton_string,
  parse_jetton_string, parse_cold_wallet, max_forward, get_config,
}
use bicycle.Config.Parsed.{IsColdWallet, IsMonotone, get_config_checked}

-- The text "1" and any other.
abbrev decimals : Decimals ℤ
decimals = record {
  from_string = λ s. if str_eq s "1" then ok (pos 1) else ok (pos 9);
  times_hysteresis = λ d. d;
  is_greater = λ a b. ltb_ℤ b a;
  big_int = λ d. d;
  parse_addr = λ s. err not_found;
}

abbrev env : Environment
env = record {
  testnet = true;
  cold_wallet_string = "";
  jetton_string = "";
  ton_string = "1:9:1";
  allowable_lagging_sec = pos 0;
  forward_ton_amount = pos 1;
}

abbrev configuration : Configuration
configuration = record {
  jettons = [];
  ton = record {
    hot_wallet_min = pos 1;
    hot_wallet_max = pos 9;
    withdrawal = pos 1;
    hot_wallet_residual = pos 9;
  };
  jetton_forward_amount = pos 1;
  cold_wallet = none;
  allowable_blockchain_lagging = pos 40;
}

accepted : get_config decimals env ≡ ok configuration
unfolding get_config parse_jetton_string parse_ton_string parse_ton_parts parse_cold_wallet split_at
accepted = refl

in_order : IsMonotone decimals
in_order a b h = ground arith

get_config_checked_example :
    (pos 0 ≤ℤ configuration.jetton_forward_amount)
    × (configuration.jetton_forward_amount ≤ℤ max_forward)
    × IsColdWallet true configuration.cold_wallet
    × (configuration.ton.hot_wallet_min ≤ℤ configuration.ton.hot_wallet_max)
get_config_checked_example = get_config_checked decimals env in_order accepted
