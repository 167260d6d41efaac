-- ===== src/Models/Conversions.antt =====
-- core/models.go: `Address [32]byte`, read as one big-endian number, and its conversions from and to
-- byte slices and tonutils addresses.
use mathlib.Core.List.{append-nil}
use bicycle.Prelude.{
  ℕ, zero, suc, ◌+◌, ◌*◌, ◌/◌, ◌%◌, ◌<◌, ◌≡◌, refl, List, [], ◌∷◌, ◌++◌, Option, none, some, ◌==◌,
  length, length-append, if◌then◌else◌, Result, ok, err, nil_address, not_std_address,
  invalid_address_len, Bool, true, false, arith, All, ap, subst, sym, ◌∙◌, ok-injective, Bool-cases,
  ◌⊎◌, inl, inr,
}
use bicycle.Prelude.Int.{ℤ}

-- `core.Address`: 32 bytes, as a number below `256 ^ 32`. Map keys are compared as such numbers.
abbrev pub Address : Type 0
Address = ℕ

-- The number that bytes spell after `acc`.
unfoldable pub be_value : ℕ → List ℕ → ℕ
be_value acc [] = acc
be_value acc (b ∷ bs) = be_value (acc * 256 + b) bs

-- The last `n` bytes of a number.
unfoldable pub be_bytes : ℕ → ℕ → List ℕ
be_bytes zero a = []
be_bytes (suc n) a = be_bytes n (a / 256) ++ (a % 256) ∷ []

-- `AddressFromBytes`
unfoldable pub address_from_bytes : List ℕ → Result Address
address_from_bytes data_bytes =
    if length data_bytes == 32 then ok (be_value 0 data_bytes) else err invalid_address_len

-- `a.ToBytes()`
unfoldable pub to_bytes : Address → List ℕ
to_bytes a = be_bytes 32 a

pub data AddrType : Type 0 where
  none_address ext_address std_address var_address : AddrType

-- What the code reads of a tonutils `address.Address`: `Type()`, `Workchain()` and `Data()`.
pub record TonAddress : Type 0 where
  pub addr_type : AddrType
  pub workchain : ℤ
  pub data_bytes : List ℕ

abbrev pub is_std : AddrType → Bool
is_std std_address = true
is_std _ = false

abbrev pub is_var : AddrType → Bool
is_var var_address = true
is_var _ = false

-- `AddressFromTonutilsAddress`; a nil pointer is `none`.
unfoldable pub address_from_tonutils : Option TonAddress → Result Address
address_from_tonutils none = err nil_address
address_from_tonutils (some addr) =
    if is_std addr.addr_type then address_from_bytes addr.data_bytes else err not_std_address

-- `ToTonutilsAddressStd`: the std address of the default workchain.
unfoldable pub to_tonutils_std : Address → TonAddress
unfolding to_bytes
to_tonutils_std a = record { addr_type = std_address; workchain = ℤ.pos 0; data_bytes = to_bytes a }

length-be_bytes : (n a : ℕ) → length (be_bytes n a) ≡ n
unfolding be_bytes
length-be_bytes zero a = refl
length-be_bytes (suc n) a =
    omega
      (arith, length-append (be_bytes n (a / 256)) ((a % 256) ∷ []), length-be_bytes n (a / 256))

length-to_bytes : (a : Address) → length (to_bytes a) ≡ 32
unfolding to_bytes
length-to_bytes a = length-be_bytes 32 a

add_zero : (k : ℕ) → k + 0 ≡ k
add_zero k = omega arith

zero_add : (n : ℕ) → 0 + n ≡ n
zero_add n = omega arith

add_suc : (k n : ℕ) → k + suc n ≡ suc k + n
add_suc k n = omega arith

div_digit : (acc b : ℕ) → b < 256 → (acc * 256 + b) / 256 ≡ acc
div_digit acc b h = omega arith

mod_digit : (acc b : ℕ) → b < 256 → (acc * 256 + b) % 256 ≡ b
mod_digit acc b h = omega arith

append_assoc : (xs : List ℕ) (b : ℕ) (ys : List ℕ) → (xs ++ b ∷ []) ++ ys ≡ xs ++ b ∷ ys
append_assoc [] b ys = refl
append_assoc (x ∷ xs) b ys = ap (λ zs. x ∷ zs) (append_assoc xs b ys)

-- The bytes of the number that bytes spell are those bytes, after those of `acc`.
be_bytes-be_value :
    (k acc : ℕ) (bs : List ℕ)
    → All (λ b. b < 256) bs
    → be_bytes (k + length bs) (be_value acc bs) ≡ be_bytes k acc ++ bs
unfolding be_value be_bytes
be_bytes-be_value k acc [] h = rw (add_zero k, append-nil (be_bytes k acc)) refl
be_bytes-be_value k acc (b ∷ bs) (low, h) =
    rw (add_suc k (length bs), be_bytes-be_value (suc k) (acc * 256 + b) bs h)
      (rw (div_digit acc b low, mod_digit acc b low) (append_assoc (be_bytes k acc) b bs))

to_bytes-be_value :
    (bs : List ℕ) → All (λ b. b < 256) bs → length bs ≡ 32 → to_bytes (be_value 0 bs) ≡ bs
unfolding to_bytes be_bytes
to_bytes-be_value bs h len =
    subst (λ n. be_bytes n (be_value 0 bs) ≡ bs) (zero_add (length bs) ∙ len)
      (be_bytes-be_value 0 0 bs h)

address_from_bytes-eq-ok :
    (bs : List ℕ) {a : Address}
    → address_from_bytes bs ≡ ok a
    → (length bs ≡ 32) × (be_value 0 bs ≡ a)
unfolding address_from_bytes
address_from_bytes-eq-ok bs e = elim (Bool-cases (length bs == 32)) [
  | inl len ↦ (ground arith, ok-injective (rw len at e))
  | inr other ↦ cc
]

address_from_tonutils-eq-ok :
    (t : TonAddress) {a : Address}
    → address_from_tonutils (some t) ≡ ok a
    → (t.addr_type ≡ std_address) × (address_from_bytes t.data_bytes ≡ ok a)
unfolding address_from_tonutils
address_from_tonutils-eq-ok t e = elim (type-cases t.addr_type) [
  | inl std ↦ (std, rw std at e)
  | inr other ↦ cc
]
  where
    type-cases : (ty : AddrType) → (ty ≡ std_address) ⊎ (is_std ty ≡ false)
    type-cases none_address = inr refl
    type-cases ext_address = inr refl
    type-cases std_address = inl refl
    type-cases var_address = inr refl

-- An address that `AddressFromTonutilsAddress` accepts is one of the type std, and `ToTonutilsAddressStd` writes the
-- result as the same address, type and bytes, but always of workchain 0; that is read as the same result again, and so is
-- the address with any other workchain, which is not read.
pub to_tonutils_std-address_from_tonutils :
    (t : TonAddress) (w : ℤ) {a : Address}
    → All (λ b. b < 256) t.data_bytes
    → address_from_tonutils (some t) ≡ ok a
    → (t.addr_type ≡ std_address)
      × (to_tonutils_std a ≡ record t { workchain = ℤ.pos 0 })
      × (address_from_tonutils (some (to_tonutils_std a)) ≡ ok a)
      × (address_from_tonutils (some (record t { workchain = w })) ≡ ok a)
unfolding to_tonutils_std address_from_tonutils
to_tonutils_std-address_from_tonutils t w {a} h e = (
  std,
  written,
  subst (λ x. address_from_tonutils (some x) ≡ ok a) (sym written) (read_with (ℤ.pos 0)),
  read_with w,
)
  where
    std : t.addr_type ≡ std_address
    std = (address_from_tonutils-eq-ok t e).0

    bytes : to_bytes a ≡ t.data_bytes
    bytes =
        let (len, value) =
          address_from_bytes-eq-ok t.data_bytes (address_from_tonutils-eq-ok t e).1 in
        subst (λ x. to_bytes x ≡ t.data_bytes) value (to_bytes-be_value t.data_bytes h len)

    written : to_tonutils_std a ≡ record t { workchain = ℤ.pos 0 }
    written = rw (bytes, std) refl

    read_with : (z : ℤ) → address_from_tonutils (some (record t { workchain = z })) ≡ ok a
    read_with z = e
