-- ===== src/Processor/Messages.antt =====
-- core/wallets.go and core/proxy.go: the messages of the hot wallet. A body is the data that the cell
-- builder is given; `decode_binary_comment` is the Fift hex of the called libraries, `uuid_text` the text
-- of a uuid, `query` a random number and `proxy_address` the hash of the proxy's code and data.
use bicycle.Prelude.{
  ℕ, Bool, true, false, List, Option, none, some, String, str_eq, if◌then◌else◌, Result, ok, ◌>>=◌,
}
use bicycle.Prelude.Int.{pos}
use bicycle.Models.{Coins, TonAddress, to_tonutils_std, ExternalWithdrawalTask}

pub data Payload : Type 0 where
  empty_cell : Payload
  comment_cell : String → Payload
  binary_cell : List ℕ → Payload

-- `jetton.TransferPayload`
pub record JettonTransfer : Type 0 where
  pub query_id : ℕ
  pub amount : Coins
  pub destination : TonAddress
  pub response_destination : TonAddress
  pub forward_amount : Coins
  pub forward_payload : Payload

pub data Body : Type 0 where
  plain : Payload → Body
  transfer : JettonTransfer → Body
  -- `JettonProxy.BuildMessage`: the destination and the body that the proxy sends on
  proxied : TonAddress → Body → Body

-- `wallet.Message` of mode 3; `state_init` is the subwallet of a proxy that is deployed with it.
pub record Message : Type 0 where
  pub bounce : Bool
  pub dst_addr : TonAddress
  pub amount : Coins
  pub body : Body
  pub state_init : Option ℕ

-- config/config.go, in nano units.
abbrev pub jetton_transfer_ton_amount : Coins
jetton_transfer_ton_amount = pos 100000000

abbrev pub jetton_internal_forward_amount : Coins
jetton_internal_forward_amount = pos 1

-- `MaxJettonForwardTonAmount`, the default of `JettonForwardAmount`.
abbrev pub max_jetton_forward_ton_amount : Coins
max_jetton_forward_ton_amount = pos 20000000

module _ (decode_binary_comment : String → Result (List ℕ)) where
  -- The body that a comment and a binary comment make.
  unfoldable pub payload_of : String → String → Result Payload
  payload_of binary comment =
      if str_eq binary ""
      then ok (if str_eq comment "" then empty_cell else comment_cell comment)
      else (decode_binary_comment binary >>= λ bits. ok (binary_cell bits))

  -- `MakeJettonTransferMessage`
  unfoldable pub make_jetton_transfer_message :
      TonAddress → TonAddress → Coins → Coins → ℕ → String → String → Result Body
  unfolding payload_of
  make_jetton_transfer_message destination response amount forward query comment binary = do
    p ← payload_of binary comment
    ok (
        transfer (record {
          query_id = query;
          amount = amount;
          destination = destination;
          response_destination = response;
          forward_amount = forward;
          forward_payload = p;
        }))

  -- `BuildTonWithdrawalMessage`
  unfoldable pub build_ton_withdrawal_message : ExternalWithdrawalTask → Result Message
  unfolding payload_of
  build_ton_withdrawal_message t = do
    p ← payload_of t.binary_comment t.comment
    ok (record {
      bounce = t.bounceable;
      dst_addr = to_tonutils_std t.destination;
      amount = t.amount;
      body = plain p;
      state_init = none;
    })

  -- `BuildJettonWithdrawalMessage`; the first argument is `JettonForwardAmount`.
  unfoldable pub build_jetton_withdrawal_message :
      Coins → ExternalWithdrawalTask → TonAddress → TonAddress → Result Message
  unfolding make_jetton_transfer_message
  build_jetton_withdrawal_message forward t highload from = do
    b ←
        make_jetton_transfer_message (to_tonutils_std t.destination) highload t.amount forward
          t.query_id t.comment t.binary_comment
    ok (record {
      bounce = true;
      dst_addr = from;
      amount = jetton_transfer_ton_amount;
      body = b;
      state_init = none;
    })

  -- A message of the hot wallet to a proxy, which sends `body` on to `to`.
  abbrev to_proxy : ℕ → TonAddress → TonAddress → Body → Message
  to_proxy subwallet proxy to body = record {
    bounce = true;
    dst_addr = proxy;
    amount = jetton_transfer_ton_amount;
    body = proxied to body;
    state_init = some subwallet;
  }

  -- `BuildJettonProxyWithdrawalMessage`
  unfoldable pub build_jetton_proxy_withdrawal_message :
      ℕ → TonAddress → TonAddress → TonAddress → Coins → Coins → ℕ → String → Result Message
  unfolding make_jetton_transfer_message
  build_jetton_proxy_withdrawal_message subwallet proxy jetton_wallet ton_wallet forward amount
        query comment =
      do
        b ← make_jetton_transfer_message ton_wallet ton_wallet amount forward query comment ""
        ok (to_proxy subwallet proxy jetton_wallet b)

  -- `buildJettonProxyServiceTonWithdrawalMessage`
  unfoldable pub build_jetton_proxy_service_ton_withdrawal_message :
      ℕ → TonAddress → TonAddress → String → Message
  build_jetton_proxy_service_ton_withdrawal_message subwallet proxy ton_wallet memo =
      to_proxy subwallet proxy ton_wallet (plain (comment_cell memo))

-- `buildTonFillMessage`
unfoldable pub build_ton_fill_message : TonAddress → Coins → String → Message
build_ton_fill_message to amount memo = record {
  bounce = false;
  dst_addr = to;
  amount = amount;
  body = plain (comment_cell memo);
  state_init = none;
}
