-- ===== src/Blockchain/Transactions.antt =====
-- blockchain/blockchain.go: the transactions of a block, page by page and ordered by logical time.
use bicycle.Prelude.{
  ℕ, zero, suc, ◌≤◌, ◌≡◌, refl, Bool, true, false, List, [], ◌∷◌, ◌++◌, Option, none, some, ltb,
  if◌then◌else◌, Result, ok, err, ◌>>=◌, nil_dereference, timeout_exceeded, length, length-append,
  ◌<◌, ◌∙◌, subst, arith, Bool-cases, inl, inr,
}
use bicycle.Prelude.Int.{ℤ, pos}
use bicycle.Blockchain.Retry.{retry, retry_from}

-- `ton.TransactionShortInfo`; the pair of account and time is its `ID3()`.
pub record ShortInfo : Type 0 where
  pub account : List ℕ
  pub lt : ℕ
  pub hash : List ℕ

abbrev pub TransactionId3 : Type 0
TransactionId3 = List ℕ × ℕ

-- `fetchedIDs[len(fetchedIDs)-1].ID3()`; of no entries a panic.
abbrev pub last_id3 : List ShortInfo → Result TransactionId3
last_id3 [] = err nil_dereference
last_id3 (t ∷ []) = ok (t.account, t.lt)
last_id3 (t ∷ ts) = last_id3 ts

-- `sort.Slice` by `LT`.
unfoldable pub insert_tx : ShortInfo → List ShortInfo → List ShortInfo
insert_tx t [] = t ∷ []
insert_tx t (x ∷ xs) = let rest = insert_tx t xs in if ltb x.lt t.lt then x ∷ rest else t ∷ x ∷ xs

unfoldable pub sort_by_lt : List ShortInfo → List ShortInfo
unfolding insert_tx
sort_by_lt [] = []
sort_by_lt (t ∷ ts) = insert_tx t (sort_by_lt ts)

-- `page after i` is the answer to the call number `i` of `GetBlockTransactionsV2` for the entries behind `after`.
module _ (page : Option TransactionId3 → ℕ → Result (List ShortInfo × Bool)) (max_retries : ℤ) where
  -- A page, with the repeated calls.
  abbrev pub fetch_page : Option TransactionId3 → Result (List ShortInfo × Bool)
  fetch_page after = retry (page after) ([], false) max_retries

  -- The loop, for at most `fuel` pages.
  unfoldable pub fetch_pages : ℕ → Option TransactionId3 → Result (List ShortInfo)
  unfolding retry
  fetch_pages zero after = err timeout_exceeded
  fetch_pages (suc fuel) after = fetch_page after >>= λ (fetched, more). elim more [
    | false ↦ ok fetched
    | true ↦
        last_id3 fetched >>= λ last. fetch_pages fuel (some last) >>= λ rest. ok (fetched ++ rest)
  ]

  -- `GetTransactionIDsFromBlock`
  unfoldable pub get_transaction_ids_from_block : ℕ → Result (List ShortInfo)
  unfolding fetch_pages sort_by_lt
  get_transaction_ids_from_block fuel = fetch_pages fuel none >>= λ ids. ok (sort_by_lt ids)

-- The id of the last entry that a caller has been given, if any.
abbrev pub cursor : List ShortInfo → Option TransactionId3
cursor [] = none
cursor (t ∷ []) = some (t.account, t.lt)
cursor (t ∷ u ∷ ts) = cursor (u ∷ ts)

-- What is documented of `GetBlockTransactionsV2` for a block: to the id of the last of the entries `given` it answers, each
-- time it is called, with the entries behind, all of them or some with the flag that there are more.
pub data Serves (page : Option TransactionId3 → ℕ → Result (List ShortInfo × Bool))
    : (given rest : List ShortInfo) → Type 0 where
  all_left :
      {given rest : List ShortInfo}
      → ((i : ℕ) → page (cursor given) i ≡ ok (rest, false))
      → Serves page given rest
  some_left :
      {given left : List ShortInfo} (t : ShortInfo) (ts : List ShortInfo)
      → ((i : ℕ) → page (cursor given) i ≡ ok (t ∷ ts, true))
      → Serves page (given ++ t ∷ ts) left
      → Serves page given (t ∷ ts ++ left)

retry-constant {ℓ} :
    {A : Type ℓ} (f : ℕ → Result A) (z a : A) (n : ℕ)
    → ((i : ℕ) → f i ≡ ok a)
    → retry f z (pos n) ≡ ok a
unfolding retry retry_from
retry-constant f z a zero h = h 0
retry-constant f z a (suc n) h = rw (h 0) refl

last_id3-cursor :
    (t : ShortInfo) (ts : List ShortInfo)
    → (l : TransactionId3) × (last_id3 (t ∷ ts) ≡ ok l) × (cursor (t ∷ ts) ≡ some l)
last_id3-cursor t [] = ((t.account, t.lt), refl, refl)
last_id3-cursor t (u ∷ ts) = last_id3-cursor u ts

cursor-append :
    (given : List ShortInfo) (t : ShortInfo) (ts : List ShortInfo)
    → cursor (given ++ t ∷ ts) ≡ cursor (t ∷ ts)
cursor-append [] t ts = refl
cursor-append (x ∷ []) t ts = refl
cursor-append (x ∷ y ∷ given) t ts = cursor-append (y ∷ given) t ts

fetch_pages-Serves :
    (page : Option TransactionId3 → ℕ → Result (List ShortInfo × Bool)) (max_retries fuel : ℕ)
    {given rest : List ShortInfo}
    → Serves page given rest
    → length rest < fuel
    → fetch_pages page (pos max_retries) fuel (cursor given) ≡ ok rest
unfolding fetch_pages
fetch_pages-Serves page n zero s lt = absurd (omega arith)
fetch_pages-Serves page n (suc fuel) (all_left {given} {rest} answers) lt =
    rw (retry-constant (page (cursor given)) ([], false) (rest, false) n answers) refl
fetch_pages-Serves page n (suc fuel) (some_left {given} {left} t ts answers later) lt =
    let (l, last, here) = last_id3-cursor t ts in
    let next = fetch_pages-Serves page n fuel later (omega (arith, length-append ts left)) in
    rw
      (
        retry-constant (page (cursor given)) ([], false) (t ∷ ts, true) n answers,
        last,
        subst (λ c. fetch_pages page (pos n) fuel c ≡ ok left) (cursor-append given t ts ∙ here)
            next,
      )
      refl

-- The entries of a list that pass a test.
abbrev pub count_where : (ShortInfo → Bool) → List ShortInfo → ℕ
count_where p [] = 0
count_where p (t ∷ ts) = let rest = count_where p ts in if p t then suc rest else rest

-- No entry is before `n`, and each is followed by none that is before it.
abbrev pub IsOrderedFrom : ℕ → List ShortInfo → Type 0
IsOrderedFrom n [] = Unit
IsOrderedFrom n (t ∷ ts) = (n ≤ t.lt) × IsOrderedFrom t.lt ts

insert_tx-count :
    (p : ShortInfo → Bool) (t : ShortInfo) (ts : List ShortInfo)
    → count_where p (insert_tx t ts) ≡ count_where p (t ∷ ts)
unfolding insert_tx
insert_tx-count p t [] = refl
insert_tx-count p t (x ∷ xs) = ground (arith, insert_tx-count p t xs)

sort_by_lt-count :
    (p : ShortInfo → Bool) (ts : List ShortInfo) → count_where p (sort_by_lt ts) ≡ count_where p ts
unfolding sort_by_lt
sort_by_lt-count p [] = refl
sort_by_lt-count p (t ∷ ts) =
    ground (arith, insert_tx-count p t (sort_by_lt ts), sort_by_lt-count p ts)

insert_tx-IsOrderedFrom :
    (n : ℕ) (t : ShortInfo) (ts : List ShortInfo)
    → n ≤ t.lt
    → IsOrderedFrom n ts
    → IsOrderedFrom n (insert_tx t ts)
unfolding insert_tx
insert_tx-IsOrderedFrom n t [] le h = (le, tt)
insert_tx-IsOrderedFrom n t (x ∷ xs) le (first, others) = elim (Bool-cases (ltb x.lt t.lt)) [
  | inl lt ↦ rw lt (first, insert_tx-IsOrderedFrom x.lt t xs (ground arith) others)
  | inr ge ↦ rw ge (le, (ground arith, others))
]

sort_by_lt-IsOrderedFrom : (ts : List ShortInfo) → IsOrderedFrom 0 (sort_by_lt ts)
unfolding sort_by_lt
sort_by_lt-IsOrderedFrom [] = tt
sort_by_lt-IsOrderedFrom (t ∷ ts) =
    insert_tx-IsOrderedFrom 0 t (sort_by_lt ts) (omega arith) (sort_by_lt-IsOrderedFrom ts)

-- Where the node serves the entries of a block page by page (`Serves`), as many rounds of the loop as there are
-- entries, and one, return all of them (for every test as many pass it), ordered by logical time.
pub transaction_ids_complete :
    (page : Option TransactionId3 → ℕ → Result (List ShortInfo × Bool)) (max_retries fuel : ℕ)
    (ids : List ShortInfo)
    → Serves page [] ids
    → length ids < fuel
    → (sorted : List ShortInfo) × (get_transaction_ids_from_block page (pos max_retries) fuel
        ≡ ok sorted)
      × IsOrderedFrom 0 sorted
      × ((p : ShortInfo → Bool) → count_where p sorted ≡ count_where p ids)
unfolding get_transaction_ids_from_block
transaction_ids_complete page max_retries fuel ids served lt = (
  sort_by_lt ids,
  rw (fetch_pages-Serves page max_retries fuel served lt) refl,
  sort_by_lt-IsOrderedFrom ids,
  λ p. sort_by_lt-count p ids,
)
