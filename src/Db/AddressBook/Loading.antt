-- ===== src/Db/AddressBook/Loading.antt =====
-- db/db.go: `LoadAddressBook` on tables with one more row.
use bicycle.Prelude.{
  ◌≡◌, refl, sym, ap, ◌∙◌, Bool, true, false, List, [], ◌∷◌, ◌++◌, Option, none, some, ◌==◌,
  is_some, find, if◌then◌else◌, ok, >>=-eq-ok, ok-injective, arith,
}
use bicycle.Models.{Address, AddressInfo}
use bicycle.Db.Schema.{TonWalletRow, JettonWalletRow}
use bicycle.Db.AddressBook.{
  AddressBook, get, put, get_wallet_type, with_subwallet, joined, load_ton_wallets,
  load_jetton_wallets,
}

append_assoc : (xs ys zs : AddressBook) → (xs ++ ys) ++ zs ≡ xs ++ (ys ++ zs)
append_assoc [] ys zs = refl
append_assoc (x ∷ xs) ys zs = ap (λ rest. x ∷ rest) (append_assoc xs ys zs)

get-append-none : (a : Address) (e b : AddressBook) → get a (e ++ b) ≡ none → get a e ≡ none
get-append-none a [] b h = refl
get-append-none a ((k, info) ∷ e) b h = ground (arith, get-append-none a e b)

-- An entry for an address that the later ones leave alone may as well be the newest.
get-append-put :
    (a k : Address) (info : AddressInfo) (e b : AddressBook)
    → get k e ≡ none
    → get a (e ++ put k info b) ≡ get a (put k info (e ++ b))
get-append-put a k info [] b h = refl
get-append-put a k info ((k', info') ∷ e) b h = ground (arith, get-append-put a k info e b)

pub get_wallet_type-none :
    (b : AddressBook) (a : Address) → get_wallet_type b a ≡ none → get a b ≡ none
unfolding get_wallet_type
get_wallet_type-none b a h = ground arith

find-append-some :
    (p : TonWalletRow → Bool) (ts us : List TonWalletRow) (t : TonWalletRow)
    → find p ts ≡ some t
    → find p (ts ++ us) ≡ some t
find-append-some p [] us t h = cc
find-append-some p (x ∷ ts) us t h = ground (arith, find-append-some p ts us t)

abbrev pub ton_info : TonWalletRow → AddressInfo
ton_info r = record { wallet_type = r.wallet_type; owner = none; user_id = r.user_id }

load_ton_wallets-append :
    (rs : List TonWalletRow) (r : TonWalletRow) (b : AddressBook)
    → load_ton_wallets (rs ++ r ∷ []) b ≡ put r.address (ton_info r) (load_ton_wallets rs b)
unfolding load_ton_wallets
load_ton_wallets-append [] r b = refl
load_ton_wallets-append (x ∷ rs) r b = load_ton_wallets-append rs r _

abbrev pub jetton_info : JettonWalletRow → TonWalletRow → AddressInfo
jetton_info r t = record {
  wallet_type = r.wallet_type;
  owner = some t.address;
  user_id = r.user_id;
}

abbrev jetton_entry : JettonWalletRow → TonWalletRow → Address × AddressInfo
jetton_entry r t = (r.address, jetton_info r t)

joined-eq-ok :
    (r : JettonWalletRow) (o : Option TonWalletRow) (b : AddressBook) {c : AddressBook}
    → joined r o b ≡ ok c
    → (t : TonWalletRow) × (o ≡ some t) × (put r.address (jetton_info r t) b ≡ c)
joined-eq-ok r none b h = cc
joined-eq-ok r (some t) b h = (t, refl, ok-injective h)

-- The entries that the jetton wallets add do not depend on the book that they are added to, nor on TON wallets that
-- come later.
load_jetton_wallets-entries :
    (ts us : List TonWalletRow) (js : List JettonWalletRow) (b : AddressBook) {c : AddressBook}
    → load_jetton_wallets ts js b ≡ ok c
    → (e : AddressBook) × (c ≡ e ++ b)
      × ((b' : AddressBook) → load_jetton_wallets (ts ++ us) js b' ≡ ok (e ++ b'))
unfolding load_jetton_wallets
load_jetton_wallets-entries ts us [] b h = ([], sym (ok-injective h), λ b'. refl)
load_jetton_wallets-entries ts us (r ∷ js) b {c} h =
    let (b1, here, rest) = >>=-eq-ok (joined r (find (with_subwallet r.subwallet_id) ts) b) _ h in
    let (t, found, same) = joined-eq-ok r _ b here in
    let (e, sum, later) = load_jetton_wallets-entries ts us js b1 rest in
    let entry = jetton_entry r t in
    (
      e ++ entry ∷ [],
      sum ∙ ap (λ x. e ++ x) (sym same) ∙ sym (append_assoc e (entry ∷ []) b),
      λ b'.
          rw
            (
              find-append-some (with_subwallet r.subwallet_id) ts us t found,
              later (put r.address (jetton_info r t) b'),
            )
            (ap ok (sym (append_assoc e (entry ∷ []) b'))),
    )

pub load_jetton_wallets-append :
    (ts : List TonWalletRow) (js : List JettonWalletRow) (r : JettonWalletRow) (t : TonWalletRow)
    (b : AddressBook) {c : AddressBook}
    → load_jetton_wallets ts js b ≡ ok c
    → find (with_subwallet r.subwallet_id) ts ≡ some t
    → load_jetton_wallets ts (js ++ r ∷ []) b ≡ ok (put r.address (jetton_info r t) c)
unfolding load_jetton_wallets
load_jetton_wallets-append ts [] r t b h found =
    rw found (ap (λ x. ok (put r.address (jetton_info r t) x)) (ok-injective h))
load_jetton_wallets-append ts (x ∷ js) r t b h found =
    let (b1, here, rest) = >>=-eq-ok (joined x (find (with_subwallet x.subwallet_id) ts) b) _ h in
    rw here (load_jetton_wallets-append ts js r t b1 rest found)

pub put-same :
    (a k : Address) (info : AddressInfo) (b c : AddressBook)
    → get a b ≡ get a c
    → get a (put k info b) ≡ get a (put k info c)
put-same a k info b c h = ap (λ rest. if a == k then some info else rest) h

pub find-append-new :
    (p : TonWalletRow → Bool) (ts : List TonWalletRow) (t : TonWalletRow)
    → is_some (find p ts) ≡ false
    → p t ≡ true
    → find p (ts ++ t ∷ []) ≡ some t
find-append-new p [] t h e = ground arith
find-append-new p (x ∷ ts) t h e = ground (arith, find-append-new p ts t)

-- What a restart finds after another TON wallet with a new address.
pub load-append_ton :
    (ts : List TonWalletRow) (js : List JettonWalletRow) (t : TonWalletRow) (b : AddressBook)
    {c : AddressBook}
    → load_jetton_wallets ts js (load_ton_wallets ts []) ≡ ok c
    → ((a : Address) → get a c ≡ get a b)
    → get t.address b ≡ none
    → (d : AddressBook) × (load_jetton_wallets
          (ts ++ t ∷ [])
          js
          (load_ton_wallets (ts ++ t ∷ []) [])
        ≡ ok d)
      × ((a : Address) → get a d ≡ get a (put t.address (ton_info t) b))
load-append_ton ts js t b {c} loaded same new =
    let tons = load_ton_wallets ts [] in
    let (e, sum, later) = load_jetton_wallets-entries ts (t ∷ []) js tons loaded in
    let untouched =
      get-append-none t.address e tons (ap (get t.address) (sym sum) ∙ same t.address ∙ new) in
    (
      e ++ put t.address (ton_info t) tons,
      rw (load_ton_wallets-append ts t []) (later _),
      λ a.
          get-append-put a t.address (ton_info t) e tons untouched
          ∙ put-same a t.address (ton_info t) (e ++ tons) b (ap (get a) (sym sum) ∙ same a),
    )
