-- ===== src/Blockchain/Wallets.antt =====
-- blockchain/blockchain.go: new deposit wallets in the shard of the hot wallet. The derivation of a subwallet, of
-- a proxy and the virtual machine are parameters.
pub mod Least
use bicycle.Prelude.{
  ℕ, zero, suc, ◌+◌, ◌-◌, ◌/◌, ◌^◌, Bool, true, false, not, ◌&&◌, List, [], ◌∷◌, Option, none, some,
  ◌==◌, if◌then◌else◌, Result, ok, err, ◌>>=◌, Error, error_text, subwallet_not_found,
}
use bicycle.Prelude.Int.{ℤ, pos, negsuc}
use bicycle.Models.{Address, TonAddress, address_from_tonutils, to_tonutils_std}

-- `inShard`: the first byte of the address.
unfoldable pub in_shard : Address → ℕ → Bool
in_shard addr shard = addr / 256 ^ 31 == shard

-- The last id of the loops is `math.MaxUint32` less 1.
abbrev pub max_uint32 : ℕ
max_uint32 = 4294967295

-- The loop over ids: `body id` makes a value and tells whether it is in the shard.
unfoldable pub search {ℓ} : {A : Type ℓ} → (ℕ → Result (A × Bool)) → ℕ → ℕ → Result (A × ℕ)
search body zero id = err subwallet_not_found
search body (suc left) id =
    body id >>= λ (a, found). elim found [ true ↦ ok (a, id) | false ↦ search body left (suc id) ]

-- A round of the loop of `GenerateSubWallet`.
unfoldable pub try_sub_wallet : (ℕ → Result TonAddress) → ℕ → ℕ → Result (TonAddress × Bool)
unfolding in_shard
try_sub_wallet get_subwallet shard id = do
  sub_wallet ← get_subwallet id
  addr ← address_from_tonutils (some sub_wallet)
  ok (sub_wallet, in_shard addr shard)

-- `GenerateSubWallet`, given the wallet of the seed: the subwallet's address and its id.
unfoldable pub generate_sub_wallet :
    Result (Unit {0}) → (ℕ → Result TonAddress) → ℕ → ℕ → Result (TonAddress × ℕ)
unfolding search try_sub_wallet
generate_sub_wallet from_seed get_subwallet shard start = do
  _ ← from_seed
  search (try_sub_wallet get_subwallet shard) (max_uint32 - start) start

-- `tongoTlb.MsgAddress` and the entries of the stack of the virtual machine.
pub data MsgAddress : Type 0 where
  addr_std : ℤ → Address → MsgAddress
  other_address : MsgAddress

pub data StackEntry : Type 0 where
  -- a slice, with what `UnmarshalToTlbStruct` makes of it
  vm_slice : Result MsgAddress → StackEntry
  other_entry : StackEntry

abbrev std_in_zero : MsgAddress → Result Address
std_in_zero (addr_std (pos n) a) =
    if n == 0 then ok a else err (error_text "not default workchain for jetton wallet address")
std_in_zero (addr_std (negsuc n) a) =
    err (error_text "not default workchain for jetton wallet address")
std_in_zero other_address = err (error_text "not std jetton wallet address")

-- The test of the exit code and of the stack.
abbrev single_slice : ℕ → List StackEntry → Result MsgAddress
single_slice code (vm_slice m ∷ []) =
    if code == 0 then m else err (error_text "tvm execution failed")
single_slice code _ = err (error_text "tvm execution failed")

-- `getJettonWalletAddressByTVM`: `owner_slice` is the owner as an argument, `run` the method `get_wallet_address`.
unfoldable pub get_jetton_wallet_address_by_tvm {ℓ} :
    {Slice : Type ℓ}
    → (TonAddress → Result Slice)
    → (Slice → Result (ℕ × List StackEntry))
    → TonAddress
    → Result Address
get_jetton_wallet_address_by_tvm owner_slice run owner = do
  slice ← owner_slice owner
  (code, result) ← run slice
  m ← single_slice code result
  std_in_zero m

-- A round of the loop of `GenerateDepositJettonWalletForProxy`.
unfoldable pub try_proxy :
    (ℕ → Result TonAddress)
    → (TonAddress → Result Address)
    → ℕ
    → ℕ
    → Result ((TonAddress × TonAddress) × Bool)
unfolding in_shard
try_proxy new_jetton_proxy wallet_address shard id = do
  proxy ← new_jetton_proxy id
  addr ← wallet_address proxy
  ok ((proxy, to_tonutils_std addr), in_shard addr shard)

-- `GenerateDepositJettonWalletForProxy`, given the contract and the emulator: the proxy and the jetton wallet, with
-- the id. `wallet_address` is `getJettonWalletAddressByTVM` of the master.
unfoldable pub generate_deposit_jetton_wallet_for_proxy :
    Result (Unit {0})
    → (ℕ → Result TonAddress)
    → (TonAddress → Result Address)
    → ℕ
    → ℕ
    → Result ((TonAddress × TonAddress) × ℕ)
unfolding search try_proxy
generate_deposit_jetton_wallet_for_proxy emulator new_jetton_proxy wallet_address shard start = do
  _ ← emulator
  search (try_proxy new_jetton_proxy wallet_address shard) (max_uint32 - start) start

-- `GetJettonWalletAddress`
unfoldable pub get_jetton_wallet_address :
    Result (Unit {0}) → (TonAddress → Result Address) → TonAddress → Result TonAddress
get_jetton_wallet_address emulator wallet_address owner = do
  _ ← emulator
  addr ← wallet_address owner
  ok (to_tonutils_std addr)
