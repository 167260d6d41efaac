-- ===== src/Tests/Shards.antt =====
-- A shard whose blocks have the numbers 0, 1, 2 and so on.
use bicycle.Prelude.{
  ℕ, zero, suc, ◌≡◌, ◌≢◌, ◌<◌, refl, sym, ap, subst, Bool, true, false, List, [], ◌∷◌, none, some,
  Result, ok, err, ◌>>=◌, no_rows, fatal, if◌then◌else◌, >>=-eq-ok, ok-injective, Bool-cases, inl,
  inr, arith,
}
use bicycle.Models.{BlockId, ShardBlockHeader}
use bicycle.Tracker.{
  RawBlock, Tracker, out_of_fuel, Next, block_found, is_in_shard, trailing_zeros, bit_length,
  filter_by_shard, convert_block_to_shard_header, get_shard_blocks_header, get_shard_blocks,
  load_batch, add_batch, next_block,
}
use bicycle.Tracker.Chain.{SameBlock, Buffered, get_shard_blocks_fuel, next_block_linked}
use bicycle.Tests.Blocks.{block}

abbrev raw_of : ℕ → Result RawBlock
raw_of zero = err no_rows
raw_of (suc n) = ok (record {
  parents = ok (block n ∷ []);
  not_master = true;
  gen_utime = 1000;
  start_lt = 1;
  end_lt = 2;
})

abbrev block_data : BlockId → Result RawBlock
block_data b = raw_of b.seqno

parent_of : (n s : ℕ) {p : BlockId} → filter_by_shard (block n ∷ []) s ≡ ok p → p ≡ block n
unfolding filter_by_shard
parent_of n s e =
    let (inside, _, k) =
      >>=-eq-ok (is_in_shard (block n).shard s)
        (λ inside. if inside then ok (block n) else err fatal) e in
    elim (Bool-cases inside) [ inl i ↦ sym (ok-injective (rw i at k)) | inr o ↦ cc (rw o at k) ]

raw_falls :
    (n s : ℕ) (i : BlockId) (h : ShardBlockHeader)
    → (raw_of n >>= λ b. convert_block_to_shard_header b i s) ≡ ok h
    → h.parent.seqno < n
unfolding convert_block_to_shard_header
raw_falls zero s i h e = cc
raw_falls (suc n) s i h e =
    let (p, ep, k) = >>=-eq-ok (filter_by_shard (block n ∷ []) s) _ e in
    let same : h.parent.seqno ≡ n =
      subst (λ (x : ShardBlockHeader). x.parent.seqno ≡ n) (ok-injective k)
        (ap (λ b. b.seqno) (parent_of n s ep)) in
    omega arith

falls :
    (b : BlockId) (s : ℕ) (h : ShardBlockHeader)
    → get_shard_blocks_header block_data b s ≡ ok h
    → h.parent.seqno < b.seqno
unfolding get_shard_blocks_header
falls b s h e = raw_falls b.seqno s b h e

abbrev never : ℕ → Bool
never n = false

get_shard_blocks_fuel_example :
    get_shard_blocks block_data never 5 0 (block 1) (block 4) [] ≢ ok out_of_fuel
get_shard_blocks_fuel_example =
    get_shard_blocks_fuel block_data never 5 0 (block 1) (block 4) [] falls (omega arith)

abbrev shards : BlockId → Result (List BlockId)
shards m = ok (block m.seqno ∷ [])

abbrev tracker : Tracker
tracker = record {
  shard = 0;
  last_known = some (block 1);
  last_master = none;
  buffer = [];
  graceful_shutdown = false;
}

abbrev no_header : ShardBlockHeader
no_header = record {
  block = block 0;
  not_master = true;
  gen_utime = 0;
  start_lt = 0;
  end_lt = 0;
  parent = block 0;
}

abbrev header_of : Next → ShardBlockHeader
header_of (block_found h t) = h
header_of _ = no_header

abbrev tracker_of : Next → Tracker
tracker_of (block_found h t) = t
tracker_of _ = tracker

-- The first call asks the server once, finds the blocks 2, 3 and 4 and gives out 2.
abbrev first : Next
first = next_block block_data never shards 5 (ok (block 4) ∷ []) tracker

first_found : first ≡ block_found (header_of first) (tracker_of first)
unfolding next_block load_batch add_batch get_shard_blocks get_shard_blocks_header
    convert_block_to_shard_header filter_by_shard is_in_shard trailing_zeros bit_length
first_found = refl

next_block_linked_example :
    SameBlock (block 1) (header_of first).parent
    × Buffered (header_of first).block (tracker_of first)
next_block_linked_example =
    next_block_linked block_data never shards 5 (ok (block 4) ∷ []) tracker (block 1)
      (block 1, refl, (refl, refl)) first_found

-- It is the block 2, and 3 and 4 are in the buffer.
first_is_2 : (header_of first).block.seqno ≡ 2
unfolding next_block load_batch add_batch get_shard_blocks get_shard_blocks_header
    convert_block_to_shard_header filter_by_shard is_in_shard trailing_zeros bit_length
first_is_2 = refl
