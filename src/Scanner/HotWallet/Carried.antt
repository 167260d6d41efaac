-- ===== src/Scanner/HotWallet/Carried.antt =====
-- What the outgoing messages of a batch carry to addresses outside the service, read from the messages.
use bicycle.Prelude.{
  ℕ, ◌≡◌, refl, sym, Bool, false, not, ◌&&◌, ◌||◌, List, [], ◌∷◌, ◌++◌, Option, none, some, ◌==◌,
  arith, contains, Result, Error, ok, err, ◌>>=◌, >>=-eq-ok, ok-injective, anomalous,
  invalid_transfer, invalid_withdrawal_address,
}
use mathlib.Core.List.{append-nil}
use bicycle.Models.{
  Address, TonAddress, WalletType, jetton_hot_wallet, jetton_owner, Events, append_events,
  ExternalWithdrawal, address_from_tonutils,
}
use bicycle.Db.AddressBook.{AddressBook, get_wallet_type, get_wallet_type_by_tonutils}
use bicycle.Scanner.Tlb.{
  Message, internal, external_in, external_out, InternalMessage, Transaction, Codec,
}
use bicycle.Scanner.Decode.{decode_jetton_transfer}
use bicycle.Scanner.HotWallet.{
  instead, Batch, process_proxy_msg, ton_withdrawal, jetton_withdrawal, out_by_type, batch_out,
}

-- A withdrawal to the address that did not fail is reported.
abbrev pub is_success : Address → List ExternalWithdrawal → Bool
is_success a [] = false
is_success a (w ∷ ws) = (not w.is_failed && a == w.to) || is_success a ws

pub is_success-append :
    (a : ℕ) (xs ys : List ExternalWithdrawal)
    → is_success a (xs ++ ys) ≡ (is_success a xs || is_success a ys)
is_success-append a [] ys = refl
is_success-append a (x ∷ xs) ys = ground (arith, is_success-append a xs ys)

pub instead-eq-ok {ℓ} :
    {A : Type ℓ} (r : Result A) (e : Error) {a : A} → instead r e ≡ ok a → r ≡ ok a
instead-eq-ok (ok a) e h = h
instead-eq-ok (err x) e h = cc

abbrev is_ok_of : Address → Result Address → Bool
is_ok_of a (ok b) = a == b
is_ok_of a (err _) = false

module _ (codec : Codec) (book : AddressBook) where
  -- The address that a message withdraws to, by the wallet that it is sent to: a stranger is paid in TON, and a jetton
  -- wallet of the service pays the destination of the transfer; no other wallet of the service pays anyone.
  abbrev paid_by : InternalMessage → Option WalletType → Result Address
  paid_by msg none = address_from_tonutils msg.dst_addr
  paid_by msg (some jetton_hot_wallet) =
      decode_jetton_transfer codec (some msg) >>= λ t. address_from_tonutils t.destination
  paid_by msg (some _) = err anomalous

  -- One of the messages withdraws to the address.
  abbrev pub is_carried : Address → List Message → Bool
  is_carried a [] = false
  is_carried a (internal msg ∷ ms) =
      is_ok_of a (paid_by msg (get_wallet_type_by_tonutils book msg.dst_addr)) || is_carried a ms
  is_carried a (external_in _ ∷ ms) = is_carried a ms
  is_carried a (external_out ∷ ms) = is_carried a ms

  pub by_tonutils :
      (addr : Option TonAddress) {a : Address}
      → address_from_tonutils addr ≡ ok a
      → get_wallet_type_by_tonutils book addr ≡ get_wallet_type book a
  unfolding get_wallet_type_by_tonutils
  by_tonutils addr e = rw (e, get_wallet_type_by_tonutils)

  -- The batch has the address as sent, and reports a success for it, if it did before or `c` holds.
  pub record IsExtended (a : Address) (c : Bool) (b b' : Batch) : Type 0 where
    pub sent : contains a b'.sent ≡ (c || contains a b.sent)
    pub success :
        is_success a b'.events.external_withdrawals
        ≡ (c || is_success a b.events.external_withdrawals)

  proxy_no_withdrawal :
      (msg : InternalMessage) {e : Events}
      → process_proxy_msg codec book msg ≡ ok e
      → e.external_withdrawals ≡ []
  unfolding process_proxy_msg
  proxy_no_withdrawal msg e = ground arith

  out_by_type-IsExtended :
      (u : ℕ) (a : Address) (tx : Transaction) (msg : InternalMessage) (addr : Address) (b : Batch)
      (t : Option WalletType) {b' : Batch}
      → address_from_tonutils msg.dst_addr ≡ ok addr
      → get_wallet_type book addr ≡ t
      → get_wallet_type book a ≡ none
      → out_by_type codec book u tx msg addr b t ≡ ok b'
      → IsExtended a (is_ok_of a (paid_by msg t)) b b'
  unfolding out_by_type append_events
  out_by_type-IsExtended u a tx msg addr b none known t outside h = rw (← ok-injective h) (record {
    sent = ground arith;
    success = ground (
      arith,
      is_success-append a b.events.external_withdrawals
          (ton_withdrawal codec book u tx msg addr ∷ []),
    );
  })
  out_by_type-IsExtended u a tx msg addr b (some jetton_hot_wallet) known t outside h =
      let (tr, decoded, k) =
        >>=-eq-ok (instead (decode_jetton_transfer codec (some msg)) invalid_transfer) _ h in
      let (dst, read, rest) =
        >>=-eq-ok (instead (address_from_tonutils tr.destination) invalid_withdrawal_address) _ k in
      let decoded' = instead-eq-ok _ _ decoded in
      let read' = instead-eq-ok _ _ read in
      rw (← ok-injective rest, decoded', read')
        (record {
          sent = ground arith;
          success = ground (
            arith,
            is_success-append a b.events.external_withdrawals
                (jetton_withdrawal codec book u tx msg tr dst ∷ []),
          );
        })
  out_by_type-IsExtended u a tx msg addr b (some jetton_owner) known t outside h =
      let (e, he, rest) = >>=-eq-ok (process_proxy_msg codec book msg) _ h in
      rw (← ok-injective rest) (record {
        sent = ground arith;
        success =
            ground (arith, proxy_no_withdrawal msg he, append-nil b.events.external_withdrawals);
      })
  out_by_type-IsExtended u a tx msg addr b (some _) known t outside h =
      rw (← ok-injective h) (record { sent = ground arith; success = refl })

  pub batch_out-IsExtended :
      (u : ℕ) (a : Address) (tx : Transaction) (ms : List Message) (b : Batch) {b' : Batch}
      → get_wallet_type book a ≡ none
      → batch_out codec book u tx ms b ≡ ok b'
      → IsExtended a (is_carried a ms) b b'
  unfolding batch_out
  batch_out-IsExtended u a tx [] b outside h =
      rw (← ok-injective h) (record { sent = refl; success = refl })
  batch_out-IsExtended u a tx (internal msg ∷ ms) b outside h =
      let (addr, ea, k) =
        >>=-eq-ok (instead (address_from_tonutils msg.dst_addr) invalid_withdrawal_address) _ h in
      let (mid, em, rest) =
        >>=-eq-ok
          (out_by_type codec book u tx msg addr b (get_wallet_type_by_tonutils book msg.dst_addr)) _
          k in
      let here =
        out_by_type-IsExtended u a tx msg addr b (get_wallet_type_by_tonutils book msg.dst_addr)
          (instead-eq-ok _ _ ea) (sym (by_tonutils msg.dst_addr (instead-eq-ok _ _ ea))) outside
          em in
      let later = batch_out-IsExtended u a tx ms mid outside rest in
      record {
        sent = ground (arith, here.sent, later.sent);
        success = ground (arith, here.success, later.success);
      }
  batch_out-IsExtended u a tx (external_in _ ∷ ms) b outside h = cc
  batch_out-IsExtended u a tx (external_out ∷ ms) b outside h = cc
