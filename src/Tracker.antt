-- ===== src/Tracker.antt =====
-- blockchain/shard_tracker.go: the blocks of one shard, in their order. The lite server's answers are
-- parameters; the counters of the progress log are left out. `stopped n` is the flag of the graceful
-- shutdown as a loop reads it with `n` blocks in its batch.
pub mod Chain
use Prim.Native.Nat.{bit_xor}
use mathlib.Core.List.{reverse}
use bicycle.Prelude.{
  ℕ, zero, suc, ◌+◌, ◌-◌, ◌*◌, ◌/◌, ◌%◌, ◌^◌, Bool, true, false, not, ◌&&◌, List, [], ◌∷◌, ◌++◌,
  Option, none, some, ◌==◌, ltb, leb, if◌then◌else◌, length, Result, Error, ok, err, ◌>>=◌, fatal,
}
use bicycle.Models.{BlockId, ShardBlockHeader}

-- `bits.TrailingZeros64`, on at most `n` bits.
unfoldable pub trailing_zeros : ℕ → ℕ → ℕ
trailing_zeros zero x = 0
trailing_zeros (suc n) x = let rest = trailing_zeros n (x / 2) in if x % 2 == 1 then 0 else suc rest

-- The number of bits up to the highest one.
unfoldable pub bit_length : ℕ → ℕ → ℕ
bit_length zero x = 0
bit_length (suc n) x = let rest = bit_length n (x / 2) in if x == 0 then 0 else suc rest

-- `bits.LeadingZeros64`
abbrev leading_zeros : ℕ → ℕ
leading_zeros x = 64 - bit_length 64 x

-- `isInShard`: a zero prefix and more than 256 shards end the process.
unfoldable pub is_in_shard : ℕ → ℕ → Result Bool
unfolding trailing_zeros bit_length
is_in_shard block_shard_prefix shard =
    if block_shard_prefix == 0
    then err fatal
    else if ltb 8 (63 - trailing_zeros 64 block_shard_prefix)
    then err fatal
    else ok (
        leb (63 - trailing_zeros 64 block_shard_prefix)
          (leading_zeros (bit_xor (shard * 2 ^ 56) block_shard_prefix)))

-- `filterByShard`
unfoldable pub filter_by_shard : List BlockId → ℕ → Result BlockId
unfolding is_in_shard
filter_by_shard [] shard = err fatal
filter_by_shard (h ∷ hs) shard = is_in_shard h.shard shard >>= λ inside.
    let rest = filter_by_shard hs shard in if inside then ok h else rest

-- What is read of a `tlb.Block`; `parents` is the answer of `ton.GetParentBlocks`.
pub record RawBlock : Type 0 where
  pub parents : Result (List BlockId)
  pub not_master : Bool
  pub gen_utime : ℕ
  pub start_lt : ℕ
  pub end_lt : ℕ

-- `convertBlockToShardHeader`
unfoldable pub convert_block_to_shard_header : RawBlock → BlockId → ℕ → Result ShardBlockHeader
unfolding filter_by_shard
convert_block_to_shard_header block info shard = do
  parents ← block.parents
  parent ← filter_by_shard parents shard
  ok (record {
    block = info;
    not_master = block.not_master;
    gen_utime = block.gen_utime;
    start_lt = block.start_lt;
    end_lt = block.end_lt;
    parent = parent;
  })

-- `ShardTracker`, without the connection.
pub record Tracker : Type 0 where
  pub shard : ℕ
  pub last_known : Option BlockId
  pub last_master : Option BlockId
  pub buffer : List ShardBlockHeader
  pub graceful_shutdown : Bool

-- How the loop of `getShardBlocks` ends; it may also run out of fuel.
pub data Loaded : Type 0 where
  out_of_fuel exit : Loaded
  batch : List ShardBlockHeader → Loaded

-- `isKnown`
abbrev pub is_known_block : BlockId → BlockId → Bool
is_known_block known i = known.shard == i.shard && known.seqno == i.seqno

-- `getShardBlocksHeader`, behind the retries for a block that is not ready.
unfoldable pub get_shard_blocks_header :
    (BlockId → Result RawBlock) → BlockId → ℕ → Result ShardBlockHeader
unfolding convert_block_to_shard_header
get_shard_blocks_header get_block_data i shard = do
  block ← get_block_data i
  convert_block_to_shard_header block i shard

module _ (get_block_data : BlockId → Result RawBlock) (stopped : ℕ → Bool) where
  -- The loop of `getShardBlocks`, down from the block `i` to the last known one.
  unfoldable pub get_shard_blocks :
      ℕ → ℕ → BlockId → BlockId → List ShardBlockHeader → Result Loaded
  unfolding get_shard_blocks_header
  get_shard_blocks zero shard known i blocks = ok out_of_fuel
  get_shard_blocks (suc fuel) shard known i blocks =
      let rest = get_shard_blocks_header get_block_data i shard >>= λ h.
      get_shard_blocks fuel shard known h.parent (blocks ++ h ∷ []) in
      if stopped (length blocks)
      then ok exit
      else if is_known_block known i
      then ok (batch blocks)
      else if ltb i.seqno known.seqno
      then ok (batch [])
      else rest

-- `s.lastKnownShardBlock`, set to the block of the first call.
abbrev known_or : Option BlockId → BlockId → BlockId
known_or none i = i
known_or (some k) i = k

-- The end of `loadShardBlocksBatch`: the batch is newest first, the buffer oldest first.
unfoldable pub add_batch : Tracker → BlockId → List ShardBlockHeader → Tracker
add_batch t known [] = record t { last_known = some known }
add_batch t known (h ∷ hs) = record t {
  last_known = some h.block;
  buffer = t.buffer ++ reverse (h ∷ hs);
}

-- What a call of `NextBlock` comes to. It waits where the server has no newer master block yet.
pub data Next : Type 0 where
  block_found : ShardBlockHeader → Tracker → Next
  exited : Next
  failed : Error → Next
  waiting : Next
  fuel_spent : Next

-- `masterBlockID.SeqNo == s.lastMasterBlock.SeqNo`
abbrev is_old_master : Option BlockId → BlockId → Bool
is_old_master none m = false
is_old_master (some l) m = m.seqno == l.seqno

module _ (get_block_data : BlockId → Result RawBlock) (stopped : ℕ → Bool)
    (get_block_shards : BlockId → Result (List BlockId)) (fuel : ℕ) where
  -- `loadShardBlocksBatch`, up to the batch.
  unfoldable pub load_batch : Tracker → BlockId → Result (BlockId × Loaded)
  unfolding get_shard_blocks filter_by_shard
  load_batch t m = do
    shards ← get_block_shards m
    i ← filter_by_shard shards t.shard
    l ← get_shard_blocks get_block_data stopped fuel t.shard (known_or t.last_known i) i []
    ok (known_or t.last_known i, l)

  -- The first checks of `NextBlock`: the flag and `getNext`.
  abbrev or_buffered : Tracker → List ShardBlockHeader → Next → Next
  or_buffered t [] n = if t.graceful_shutdown then exited else n
  or_buffered t (h ∷ hs) n =
      if t.graceful_shutdown then exited else block_found h (record t { buffer = hs })

  -- `NextBlock`, over the answers of `GetMasterchainInfo` in their order: it asks for a newer master
  -- block, loads the batch of the shard and starts again.
  unfoldable pub next_block : List (Result BlockId) → Tracker → Next
  unfolding load_batch add_batch
  next_block [] t = or_buffered t t.buffer waiting
  next_block (err e ∷ answers) t = or_buffered t t.buffer (failed e)
  next_block (ok m ∷ answers) t =
      let again = next_block answers t in
      let t' = record t { last_master = some m } in
      let loaded : Next = elim (load_batch t' m) [
        | err e ↦ failed e
        | ok (known, out_of_fuel) ↦ fuel_spent
        | ok (known, exit) ↦ exited
        | ok (known, batch blocks) ↦ next_block answers (add_batch t' known blocks)
      ] in
      or_buffered t t.buffer (if is_old_master t.last_master m then again else loaded)
