-- ===== src/Scanner/HotWallet/Outcomes.antt =====
-- Every recipient of a batch learns what came of its withdrawal.
use bicycle.Prelude.{
  ℕ, ◌≡◌, refl, sym, Bool, true, false, not, ◌&&◌, ◌||◌, List, [], ◌∷◌, ◌++◌, Option, none, some,
  ◌==◌, arith, contains, ok, >>=-eq-ok, ok-injective, invalid_transfer, invalid_withdrawal_address,
  ◌⊎◌,
}
use bicycle.Models.{
  Address, WalletType, jetton_hot_wallet, jetton_owner, Events, no_events, append_events,
  ExternalWithdrawal, address_from_tonutils,
}
use bicycle.Db.AddressBook.{AddressBook, get_wallet_type, get_wallet_type_by_tonutils}
use bicycle.Scanner.Tlb.{
  Message, internal, external_in, external_out, InternalMessage, Transaction, Codec,
}
use bicycle.Scanner.Decode.{decode_jetton_transfer}
use bicycle.Scanner.JettonDeposit.{out_messages, is_known}
use bicycle.Scanner.HotWallet.{
  instead, Batch, add_withdrawal, mark_sent, failed_withdrawals, process_proxy_msg,
  jetton_withdrawal, ton_withdrawal, to_jetton_wallet, to_proxy, out_by_type, batch_out,
  process_batch, batch_events,
}
use bicycle.Scanner.HotWallet.Carried.{
  is_success, is_success-append, instead-eq-ok, is_carried, by_tonutils, batch_out-IsExtended,
}
use mathlib.Core.List.{append-nil}

-- Some withdrawal of the message `u` to the address is reported.
abbrev pub is_reported : ℕ → Address → List ExternalWithdrawal → Bool
is_reported u a [] = false
is_reported u a (w ∷ ws) = (u == w.ext_msg_uuid && a == w.to) || is_reported u a ws

-- A failed one is.
abbrev pub is_failure : Address → List ExternalWithdrawal → Bool
is_failure a [] = false
is_failure a (w ∷ ws) = (w.is_failed && a == w.to) || is_failure a ws

is_reported-append :
    (u a : ℕ) (xs ys : List ExternalWithdrawal)
    → is_reported u a (xs ++ ys) ≡ (is_reported u a xs || is_reported u a ys)
is_reported-append u a [] ys = refl
is_reported-append u a (x ∷ xs) ys = ground (arith, is_reported-append u a xs ys)

is_failure-append :
    (a : ℕ) (xs ys : List ExternalWithdrawal)
    → is_failure a (xs ++ ys) ≡ (is_failure a xs || is_failure a ys)
is_failure-append a [] ys = refl
is_failure-append a (x ∷ xs) ys = ground (arith, is_failure-append a xs ys)

module _ (codec : Codec) (book : AddressBook) (u : ℕ) where
  -- An address outside the service that counts as sent is reported, and nothing has failed.
  record IsCovered (a : Address) (b : Batch) : Type 0 where
    covered : contains a b.sent ≡ true → is_reported u a b.events.external_withdrawals ≡ true
    clean : is_failure a b.events.external_withdrawals ≡ false

  add_withdrawal-IsCovered :
      (a : Address) (w : ExternalWithdrawal) (b : Batch)
      → w.ext_msg_uuid ≡ u
      → w.is_failed ≡ false
      → IsCovered a b
      → IsCovered a (mark_sent w.to (add_withdrawal w b))
  add_withdrawal-IsCovered a w b eu ef c = record {
    covered = λ h.
        ground (arith, c.covered, is_reported-append u a b.events.external_withdrawals (w ∷ []));
    clean = ground (arith, c.clean, is_failure-append a b.events.external_withdrawals (w ∷ []));
  }

  proxy_no_withdrawal :
      (msg : InternalMessage) {e : Events}
      → process_proxy_msg codec book msg ≡ ok e
      → e.external_withdrawals ≡ []
  unfolding process_proxy_msg
  proxy_no_withdrawal msg e = ground arith

  to_proxy-IsCovered :
      (a : Address) (msg : InternalMessage) (addr : Address) (b : Batch) {b' : Batch}
      → get_wallet_type book addr ≡ some jetton_owner
      → get_wallet_type book a ≡ none
      → to_proxy codec book msg addr b ≡ ok b'
      → IsCovered a b
      → IsCovered a b'
  unfolding append_events
  to_proxy-IsCovered a msg addr b known outside h c =
      let (e, he, rest) = >>=-eq-ok (process_proxy_msg codec book msg) _ h in
      rw (← ok-injective rest) (record {
        covered = λ k. ground (
          arith,
          c.covered,
          proxy_no_withdrawal msg he,
          append-nil b.events.external_withdrawals,
        );
        clean =
            ground (
              arith,
              c.clean,
              proxy_no_withdrawal msg he,
              append-nil b.events.external_withdrawals,
            );
      })

  mark_sent-IsCovered :
      (a addr : Address) (b : Batch) {t : WalletType}
      → get_wallet_type book addr ≡ some t
      → get_wallet_type book a ≡ none
      → IsCovered a b
      → IsCovered a (mark_sent addr b)
  mark_sent-IsCovered a addr b known outside c = record {
    covered = λ h. ground (arith, c.covered);
    clean = c.clean;
  }

  to_jetton_wallet-IsCovered :
      (a : Address) (tx : Transaction) (msg : InternalMessage) (b : Batch) {b' : Batch}
      → to_jetton_wallet codec book u tx msg b ≡ ok b'
      → IsCovered a b
      → IsCovered a b'
  to_jetton_wallet-IsCovered a tx msg b h c =
      let (t, _, k) =
        >>=-eq-ok (instead (decode_jetton_transfer codec (some msg)) invalid_transfer) _ h in
      let (dst, _, rest) =
        >>=-eq-ok (instead (address_from_tonutils t.destination) invalid_withdrawal_address) _ k in
      rw (← ok-injective rest)
        (add_withdrawal-IsCovered a (jetton_withdrawal codec book u tx msg t dst) b refl refl c)

  out_by_type-IsCovered :
      (a : Address) (tx : Transaction) (msg : InternalMessage) (addr : Address) (b : Batch)
      (t : Option WalletType) {b' : Batch}
      → get_wallet_type book addr ≡ t
      → get_wallet_type book a ≡ none
      → out_by_type codec book u tx msg addr b t ≡ ok b'
      → IsCovered a b
      → IsCovered a b'
  unfolding out_by_type
  out_by_type-IsCovered a tx msg addr b none known outside h c =
      rw (← ok-injective h)
        (add_withdrawal-IsCovered a (ton_withdrawal codec book u tx msg addr) b refl refl c)
  out_by_type-IsCovered a tx msg addr b (some jetton_hot_wallet) known outside h c =
      to_jetton_wallet-IsCovered a tx msg b h c
  out_by_type-IsCovered a tx msg addr b (some jetton_owner) known outside h c =
      to_proxy-IsCovered a msg addr b known outside h c
  out_by_type-IsCovered a tx msg addr b (some _) known outside h c =
      rw (← ok-injective h) (mark_sent-IsCovered a addr b known outside c)

  batch_out-IsCovered :
      (a : Address) (tx : Transaction) (ms : List Message) (b : Batch) {b' : Batch}
      → get_wallet_type book a ≡ none
      → batch_out codec book u tx ms b ≡ ok b'
      → IsCovered a b
      → IsCovered a b'
  unfolding batch_out
  batch_out-IsCovered a tx [] b outside h c = rw (← ok-injective h) c
  batch_out-IsCovered a tx (internal msg ∷ ms) b outside h c =
      let (addr, ea, k) =
        >>=-eq-ok (instead (address_from_tonutils msg.dst_addr) invalid_withdrawal_address) _ h in
      let (mid, em, rest) =
        >>=-eq-ok
          (out_by_type codec book u tx msg addr b (get_wallet_type_by_tonutils book msg.dst_addr)) _
          k in
      batch_out-IsCovered a tx ms mid outside rest (
        out_by_type-IsCovered a tx msg addr b (get_wallet_type_by_tonutils book msg.dst_addr)
          (sym (by_tonutils codec book msg.dst_addr (instead-eq-ok _ _ ea))) outside em c)
  batch_out-IsCovered a tx (external_in _ ∷ ms) b outside h c = cc
  batch_out-IsCovered a tx (external_out ∷ ms) b outside h c = cc

  failed_withdrawals-is_failure :
      (a : Address) (recipients sent : List Address) (tx_hash : List ℕ)
      → is_failure a (failed_withdrawals codec book recipients sent u tx_hash) ≡ (
          contains a recipients && not (contains a sent) && not (is_known (get_wallet_type book a)))
  unfolding failed_withdrawals
  failed_withdrawals-is_failure a [] sent h = refl
  failed_withdrawals-is_failure a (r ∷ rs) sent h =
      ground (arith, failed_withdrawals-is_failure a rs sent h)

  failed_reported :
      (a : Address) (recipients sent : List Address) (tx_hash : List ℕ)
      → get_wallet_type book a ≡ none
      → contains a recipients ≡ true
      → (contains a sent ≡ true)
        ⊎ (is_reported u a (failed_withdrawals codec book recipients sent u tx_hash) ≡ true)
  unfolding failed_withdrawals
  failed_reported a [] sent h outside k = cc
  failed_reported a (r ∷ rs) sent h outside k = ground (arith, failed_reported a rs sent h outside)

  failed_withdrawals_no_success :
      (a : Address) (recipients sent : List Address) (tx_hash : List ℕ)
      → is_success a (failed_withdrawals codec book recipients sent u tx_hash) ≡ false
  unfolding failed_withdrawals
  failed_withdrawals_no_success a [] sent h = refl
  failed_withdrawals_no_success a (r ∷ rs) sent h =
      ground (arith, failed_withdrawals_no_success a rs sent h)

-- For a batch whose outgoing messages were read, every recipient outside the service gets an outcome: the events are
-- found and report a withdrawal to it under the uuid of the batch. They report a success exactly if one of the messages
-- withdraws to it (it goes there itself, or to a jetton wallet of the service with a transfer to it), and a failure
-- exactly if none does.
pub batch_outcomes :
    (codec : Codec) (book : AddressBook) (u : ℕ) (tx : Transaction) (recipients : List Address)
    (a : Address) {out : List Message} {b : Batch}
    → out_messages tx ≡ ok out
    → batch_out codec book u tx out (record { events = no_events; sent = [] }) ≡ ok b
    → contains a recipients ≡ true
    → get_wallet_type book a ≡ none
    → (e : Events) × (process_batch codec book tx (some (u, recipients)) ≡ ok e)
      × (is_reported u a e.external_withdrawals ≡ true)
      × (is_success a e.external_withdrawals ≡ is_carried codec book a out)
      × (is_failure a e.external_withdrawals ≡ not (is_carried codec book a out))
unfolding process_batch
batch_outcomes codec book u tx recipients a {out} {b} eo eb member outside =
    let c =
      batch_out-IsCovered codec book u a tx out _ outside eb
        (record { covered = λ h. cc; clean = refl }) in
    let carried = batch_out-IsExtended codec book u a tx out _ outside eb in
    let failures = failed_withdrawals codec book recipients b.sent u tx.hash in
    (
      batch_events codec book u tx recipients b,
      rw (eo, eb),
      ground (
        arith,
        c.covered,
        failed_reported codec book u a recipients b.sent tx.hash outside member,
        is_reported-append u a b.events.external_withdrawals failures,
      ),
      ground (
        arith,
        carried.success,
        failed_withdrawals_no_success codec book u a recipients b.sent tx.hash,
        is_success-append a b.events.external_withdrawals failures,
      ),
      ground (
        arith,
        c.clean,
        carried.sent,
        failed_withdrawals-is_failure codec book u a recipients b.sent tx.hash,
        is_failure-append a b.events.external_withdrawals failures,
      ),
    )
