-- ===== src/Tracker/Chain.antt =====
-- The tracker gives out the chain of the shard without a gap: the parent of each block is the block
-- given out before it.
use mathlib.Core.List.{reverse, reverse-cons, append-nil, append_assoc}
use bicycle.Prelude.{
  ℕ, zero, suc, ◌<◌, ◌≡◌, ◌≢◌, refl, sym, ap, subst, ◌∙◌, ◌⊎◌, inl, inr, Bool, List, [], ◌∷◌, ◌++◌,
  some, ltb, length, Result, ok, err, >>=-eq-ok, ok-injective, Bool-cases, arith,
}
use bicycle.Models.{BlockId, ShardBlockHeader}
use bicycle.Tracker.{
  RawBlock, Tracker, Loaded, out_of_fuel, exit, batch, is_known_block, filter_by_shard,
  convert_block_to_shard_header, get_shard_blocks_header, get_shard_blocks, known_or, add_batch,
  Next, block_found, exited, failed, waiting, fuel_spent, is_old_master, load_batch, or_buffered,
  next_block,
}

-- The same shard and number, as the tracker compares blocks.
abbrev pub SameBlock : BlockId → BlockId → Type 0
SameBlock a b = (a.shard ≡ b.shard) × (a.seqno ≡ b.seqno)

-- Oldest first: the parent of the first is `p`, of each other the one before it; `l` is the last.
abbrev pub Linked : BlockId → List ShardBlockHeader → BlockId → Type 0
Linked p [] l = SameBlock p l
Linked p (h ∷ hs) l = SameBlock p h.parent × Linked h.block hs l

-- Newest first, as the batch is loaded: from the block `i` down to a block above `k`.
abbrev Downward : BlockId → List ShardBlockHeader → BlockId → Type 0
Downward i [] k = SameBlock k i
Downward i (h ∷ hs) k = (h.block ≡ i) × Downward h.parent hs k

Linked-from :
    (p q : BlockId) (hs : List ShardBlockHeader) (l : BlockId)
    → SameBlock p q
    → Linked q hs l
    → Linked p hs l
Linked-from p q [] l s k = omega arith
Linked-from p q (h ∷ hs) l s k = (omega arith, k.1)

Linked-append :
    (p : BlockId) (xs : List ShardBlockHeader) (m : BlockId) (ys : List ShardBlockHeader)
    (l : BlockId)
    → Linked p xs m
    → Linked m ys l
    → Linked p (xs ++ ys) l
Linked-append p [] m ys l h k = Linked-from p m ys l h k
Linked-append p (x ∷ xs) m ys l h k = (h.0, Linked-append x.block xs m ys l h.1 k)

-- A batch reversed is linked.
Linked-reverse :
    (i : BlockId) (hs : List ShardBlockHeader) (k : BlockId)
    → Downward i hs k
    → Linked k (reverse hs) i
Linked-reverse i [] k d = d
Linked-reverse i (h ∷ hs) k (e, d) = rw (reverse-cons h hs) (
    Linked-append k (reverse hs) h.parent (h ∷ []) i (Linked-reverse h.parent hs k d)
      ((refl, refl), (ap (λ b. b.shard) e, ap (λ b. b.seqno) e)))

module _ (get_block_data : BlockId → Result RawBlock) where
  header_block :
      (i : BlockId) (shard : ℕ) {h : ShardBlockHeader}
      → get_shard_blocks_header get_block_data i shard ≡ ok h
      → h.block ≡ i
  unfolding get_shard_blocks_header convert_block_to_shard_header
  header_block i shard e =
      let (b, _, k) = >>=-eq-ok (get_block_data i) _ e in
      let (ps, _, l) = >>=-eq-ok b.parents _ k in
      let (p, _, m) = >>=-eq-ok (filter_by_shard ps shard) _ l in
      sym (ap (λ h. h.block) (ok-injective m))

module _ (get_block_data : BlockId → Result RawBlock) (stopped : ℕ → Bool) where
  -- A batch that is found is empty, or it continues the blocks that are there down to the known one.
  abbrev Continues : BlockId → BlockId → List ShardBlockHeader → List ShardBlockHeader → Type 0
  Continues known i blocks found =
      (found ≡ []) ⊎ ((bs : List ShardBlockHeader) × (found ≡ blocks ++ bs) × Downward i bs known)

  get_shard_blocks-Continues :
      (fuel shard : ℕ) (known i : BlockId) (blocks : List ShardBlockHeader)
      {found : List ShardBlockHeader}
      → get_shard_blocks get_block_data stopped fuel shard known i blocks ≡ ok (batch found)
      → Continues known i blocks found
  unfolding get_shard_blocks
  get_shard_blocks-Continues zero shard known i blocks e = cc
  get_shard_blocks-Continues (suc fuel) shard known i blocks e =
      elim (Bool-cases (stopped (length blocks))) [
        | inl s ↦ cc (rw s at e)
        | inr s ↦ elim (Bool-cases (is_known_block known i)) [
          | inl k ↦ inr ([], cc (rw (s, k) at e, append-nil blocks), ground arith)
          | inr k ↦ elim (Bool-cases (ltb i.seqno known.seqno)) [
            | inl o ↦ inl (cc (rw (s, k, o) at e))
            | inr o ↦
                let (h, eh, rest) =
                  >>=-eq-ok (get_shard_blocks_header get_block_data i shard) _
                    (rw (s, k, o) at e) in
                elim (get_shard_blocks-Continues fuel shard known h.parent (blocks ++ h ∷ [])
                  rest) [
                    | inl none_found ↦ inl none_found
                    | inr (bs, eq, d) ↦ inr (
                      h ∷ bs,
                      eq ∙ append_assoc blocks (h ∷ []) bs,
                      (header_block get_block_data i shard eh, d),
                    )
                  ]
          ]
        ]
      ]

  -- Where the parent in each header has a smaller number than the header's block, the loop of
  -- `getShardBlocks` does not run out of fuel on more units than the number of the block it starts at.
  pub get_shard_blocks_fuel :
      (fuel shard : ℕ) (known i : BlockId) (blocks : List ShardBlockHeader)
      → ((b : BlockId) (s : ℕ) (h : ShardBlockHeader)
          → get_shard_blocks_header get_block_data b s ≡ ok h
          → h.parent.seqno < b.seqno)
      → i.seqno < fuel
      → get_shard_blocks get_block_data stopped fuel shard known i blocks ≢ ok out_of_fuel
  unfolding get_shard_blocks
  get_shard_blocks_fuel zero shard known i blocks falls enough e = absurd (omega arith)
  get_shard_blocks_fuel (suc fuel) shard known i blocks falls enough e =
      elim (Bool-cases (stopped (length blocks))) [
        | inl s ↦ cc (rw s at e)
        | inr s ↦ elim (Bool-cases (is_known_block known i)) [
          | inl k ↦ cc (rw (s, k) at e)
          | inr k ↦ elim (Bool-cases (ltb i.seqno known.seqno)) [
            | inl o ↦ cc (rw (s, k, o) at e)
            | inr o ↦
                let (h, eh, rest) =
                  >>=-eq-ok (get_shard_blocks_header get_block_data i shard) _
                    (rw (s, k, o) at e) in
                get_shard_blocks_fuel fuel shard known h.parent (blocks ++ h ∷ []) falls
                  (omega (arith, falls i shard h eh)) rest
          ]
        ]
      ]

-- The buffer is linked behind the block `p`, up to the last known block.
abbrev pub Buffered : BlockId → Tracker → Type 0
Buffered p t = (l : BlockId) × (t.last_known ≡ some l) × Linked p t.buffer l

add_batch-Buffered :
    (t : Tracker) (p known i : BlockId) (blocks : List ShardBlockHeader)
    → Linked p t.buffer known
    → (blocks ≡ []) ⊎ Downward i blocks known
    → Buffered p (add_batch t known blocks)
unfolding add_batch
add_batch-Buffered t p known i [] l d = (known, refl, l)
add_batch-Buffered t p known i (h ∷ hs) l (inl e) = cc
add_batch-Buffered t p known i (h ∷ hs) l (inr (e, d)) = (
  h.block,
  refl,
  Linked-append p t.buffer known (reverse (h ∷ hs)) h.block l
      (rw (← e) at (Linked-reverse i (h ∷ hs) known (e, d))),
)

-- What a block that is given out is to the one before it, and what is kept for the next.
abbrev pub Follows : BlockId → ShardBlockHeader → Tracker → Type 0
Follows p h t = SameBlock p h.parent × Buffered h.block t

block_found-injective :
    {h h' : ShardBlockHeader} {t t' : Tracker}
    → block_found h t ≡ block_found h' t'
    → (h ≡ h') × (t ≡ t')
block_found-injective e = (cc, cc)

pair-injective :
    {a known : BlockId} {l x : Loaded}
    → ◌≡◌ {A = Result (BlockId × Loaded)} (ok (a, l)) (ok (known, x))
    → (known ≡ a) × (l ≡ x)
pair-injective e = (ap (λ q. q.0) (ok-injective (sym e)), ap (λ q. q.1) (ok-injective e))

module _ (get_block_data : BlockId → Result RawBlock) (stopped : ℕ → Bool)
    (get_block_shards : BlockId → Result (List BlockId)) (fuel : ℕ) where
  or_buffered-Follows :
      (t : Tracker) (p l : BlockId) (bs : List ShardBlockHeader) (n : Next) {h : ShardBlockHeader}
      {t' : Tracker}
      → t.last_known ≡ some l
      → Linked p bs l
      → or_buffered get_block_data stopped get_block_shards fuel t bs n ≡ block_found h t'
      → ((bs ≡ []) × (n ≡ block_found h t')) ⊎ Follows p h t'
  or_buffered-Follows t p l [] n k c e = ground arith
  or_buffered-Follows t p l (b ∷ bs) n {h} {t'} k c e = elim (Bool-cases t.graceful_shutdown) [
    | inl s ↦ cc (rw s at e)
    | inr s ↦
        let (eh, et) = block_found-injective (rw s at e) in
        inr (subst (λ x. Follows p x t') eh (subst (λ x. Follows p b x) et (c.0, (l, k, c.1))))
  ]

  load_batch-Downward :
      (t : Tracker) (m l known : BlockId) (blocks : List ShardBlockHeader)
      → t.last_known ≡ some l
      → load_batch get_block_data stopped get_block_shards fuel t m ≡ ok (known, batch blocks)
      → (known ≡ l) × (i : BlockId) × ((blocks ≡ []) ⊎ Downward i blocks l)
  unfolding load_batch
  load_batch-Downward t m l known blocks k e =
      let (shards, _, e1) = >>=-eq-ok (get_block_shards m) _ e in
      let (i, _, e2) = >>=-eq-ok (filter_by_shard shards t.shard) _ e1 in
      let (got, eg, e3) =
        >>=-eq-ok
          (get_shard_blocks get_block_data stopped fuel t.shard (known_or t.last_known i) i []) _
          e2 in
      let (ek, el) = pair-injective e3 in
      let el' : known ≡ l = cc (rw k at ek) in
      (
        el',
        i,
        elim (get_shard_blocks-Continues get_block_data stopped fuel t.shard
            (known_or t.last_known i) i [] (eg ∙ ap ok el)) [
              | inl none_found ↦ inl none_found
              | inr (bs, eq, d) ↦ inr (
                  subst (λ x. Downward i x l) (sym eq)
                    (subst (λ x. Downward i bs x) (sym ek ∙ el') d))
            ],
      )

  -- The branch of `NextBlock` that has loaded, by what was loaded.
  loaded_found :
      (r : Result (BlockId × Loaded)) (t' : Tracker)
      (found : BlockId → List ShardBlockHeader → Next) {h : ShardBlockHeader} {t'' : Tracker}
      → elim r as (λ _. Next) [
        | err e ↦ failed e
        | ok (known, out_of_fuel) ↦ fuel_spent
        | ok (known, exit) ↦ exited
        | ok (known, batch blocks) ↦ found known blocks
      ]
        ≡ block_found h t''
      → (known : BlockId) × (blocks : List ShardBlockHeader) × (r ≡ ok (known, batch blocks))
        × (found known blocks ≡ block_found h t'')
  loaded_found (err e) t' found w = cc
  loaded_found (ok (known, out_of_fuel)) t' found w = cc
  loaded_found (ok (known, exit)) t' found w = cc
  loaded_found (ok (known, batch blocks)) t' found w = (known, blocks, refl, w)

  -- Once a block `l` of the shard is known and the buffer links up to it behind the block `p`, a block
  -- that `NextBlock` gives out has `p` for its parent (shard and number), and the tracker it leaves links
  -- behind that block in its turn: no block is left out, twice there or out of order, whatever the lite
  -- server answers.
  pub next_block_linked :
      (answers : List (Result BlockId)) (t : Tracker) (p : BlockId) {h : ShardBlockHeader}
      {t' : Tracker}
      → Buffered p t
      → next_block get_block_data stopped get_block_shards fuel answers t ≡ block_found h t'
      → SameBlock p h.parent × Buffered h.block t'
  unfolding next_block
  next_block_linked [] t p (l, k, c) e = elim (or_buffered-Follows t p l t.buffer waiting k c e) [
    | inl (_, w) ↦ cc
    | inr f ↦ f
  ]
  next_block_linked (err x ∷ answers) t p (l, k, c) e =
      elim (or_buffered-Follows t p l t.buffer (failed x) k c e) [ inl (_, w) ↦ cc | inr f ↦ f ]
  next_block_linked (ok m ∷ answers) t p (l, k, c) e =
      elim (or_buffered-Follows t p l t.buffer _ k c e) [
        | inl (emp, w) ↦ elim (Bool-cases (is_old_master t.last_master m)) [
          | inl o ↦ next_block_linked answers t p (l, k, c) (rw o at w)
          | inr o ↦
              let t1 = record t { last_master = some m } in
              let (known, blocks, el, w') =
                loaded_found (load_batch get_block_data stopped get_block_shards fuel t1 m) t1
                  (λ known blocks.
                    next_block get_block_data stopped get_block_shards fuel answers
                      (add_batch t1 known blocks))
                  (rw o at w) in
              let (ek, i, d) = load_batch-Downward t1 m l known blocks k el in
              next_block_linked answers (add_batch t1 known blocks) p
                (add_batch-Buffered t1 p known i blocks
                  (subst (λ x. Linked p t.buffer x) (sym ek) c)
                  (subst (λ x. (blocks ≡ []) ⊎ Downward i blocks x) (sym ek) d))
                w'
        ]
        | inr f ↦ f
      ]
