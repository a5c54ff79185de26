-- ===== src/Types.antt =====
-- src/types.rs: identifiers, delegation records and their decoding from account data.
-- A public key, a URL, a signature, a hash and an RPC client handle are numbers: only their
-- equality is used. Bytes are numbers below 256.
pub mod Bytes
pub mod Decoding
pub mod Ids
pub mod Text
use magic_router.Prelude.{
  ℕ, ◌+◌, ◌-◌, ◌*◌, ◌%◌, ◌^◌, ◌≡◌, ◌<◌, ◌≢◌, Bool, ◌&&◌, Option, none, some, List, [], ◌∷◌, leb,
  ◌==◌, if◌then◌else◌, length, take, drop,
}

abbrev pub Pubkey : Type 0
Pubkey = ℕ

abbrev pub Url : Type 0
Url = ℕ

abbrev pub Signature : Type 0
Signature = ℕ

-- A handle to an RPC client (`Arc<RpcClient>`).
abbrev pub Client : Type 0
Client = ℕ

abbrev pub SubscriptionId : Type 0
SubscriptionId = ℕ

abbrev pub SubscriberId : Type 0
SubscriberId = ℕ

abbrev pub RequestId : Type 0
RequestId = ℕ

abbrev pub u64_mod : ℕ
u64_mod = 2 ^ 64

abbrev pub u64_max : ℕ
u64_max = 2 ^ 64 - 1

pub record ParsedDelegationRecord : Type 0 where
  pub authority : Pubkey
  pub owner : Pubkey
  pub delegation_slot : ℕ
  pub lamports : ℕ

pub record DelegationStatus : Type 0 where
  pub is_delegated : Bool
  pub fqdn : Option Url
  pub delegation_record : Option ParsedDelegationRecord

-- `fetch_add(1)` on the one 64-bit counter that every kind of identifier shares: the identifier,
-- and the next value of the counter.
unfoldable pub generate : ℕ → ℕ × ℕ
generate counter = (counter, (counter + 1) % u64_mod)

-- The conversions of the `solana_pubkey` crate between a key and its bytes, with what they
-- document: only 32 bytes are a key, the key that `new_from_array` makes of them, and the bytes of
-- a key give it back.
pub record PubkeyBytes : Type 0 where
  pub try_from : List ℕ → Option Pubkey
  pub new_from_array : List ℕ → Pubkey
  pub to_bytes : Pubkey → List ℕ
  pub try_from_of_ne : (bs : List ℕ) → length bs ≢ 32 → try_from bs ≡ none
  pub try_from-new_from_array :
      (bs : List ℕ) → length bs ≡ 32 → try_from bs ≡ some (new_from_array bs)
  pub length-to_bytes : (k : Pubkey) → length (to_bytes k) ≡ 32
  pub try_from-to_bytes : (k : Pubkey) → k < 256 ^ 32 → try_from (to_bytes k) ≡ some k

-- What a decoder does: it returns a value, returns `None`, or panics.
pub data Decoded (A : Type 0) : Type 0 where
  decoded : A → Decoded A
  absent : Decoded A
  panic : Decoded A

infixl 5 ◌>>=◌
abbrev pub ◌>>=◌ : {A B : Type 0} → Decoded A → (A → Decoded B) → Decoded B
decoded a >>= f = f a
absent >>= f = absent
panic >>= f = panic

-- `?` on an option.
abbrev pub try_option : {A : Type 0} → Option A → Decoded A
try_option none = absent
try_option (some a) = decoded a

-- The option that a decoder returns, where it does not panic.
abbrev pub to_option : {A : Type 0} → Decoded A → Option A
to_option (decoded a) = some a
to_option absent = none
to_option panic = none

-- `data[lo..hi]`, which panics out of range.
unfoldable pub slice : ℕ → ℕ → List ℕ → Decoded (List ℕ)
slice lo hi xs =
    if leb lo hi && leb hi (length xs) then decoded (take (hi - lo) (drop lo xs)) else panic

-- `<[u8; 8]>::try_from` on a slice.
unfoldable pub array_8 : List ℕ → Decoded (List ℕ)
array_8 bs = if length bs == 8 then decoded bs else absent

unfoldable pub from_le_bytes : List ℕ → ℕ
from_le_bytes [] = 0
from_le_bytes (b ∷ bs) = b + 256 * from_le_bytes bs

abbrev pub authority_offset : ℕ
authority_offset = 8

abbrev pub authority_size : ℕ
authority_size = 32

abbrev pub owner_offset : ℕ
owner_offset = authority_offset + authority_size

abbrev pub owner_size : ℕ
owner_size = 32

abbrev pub slot_offset : ℕ
slot_offset = owner_offset + owner_size

abbrev pub slot_size : ℕ
slot_size = 8

abbrev pub lamports_offset : ℕ
lamports_offset = slot_offset + slot_size

abbrev pub lamports_size : ℕ
lamports_size = 8

abbrev pub min_data_len : ℕ
min_data_len = lamports_offset + lamports_size

unfoldable pub from_bytes : PubkeyBytes → List ℕ → Decoded ParsedDelegationRecord
from_bytes keys bytes = do
  _ ← if leb min_data_len (length bytes) then decoded tt else absent
  authority_bytes ← slice authority_offset owner_offset bytes
  authority ← try_option (keys.try_from authority_bytes)
  owner_bytes ← slice owner_offset slot_offset bytes
  owner ← try_option (keys.try_from owner_bytes)
  slot_slice ← slice slot_offset lamports_offset bytes
  slot_bytes ← array_8 slot_slice
  let delegation_slot = from_le_bytes slot_bytes
  lamports_slice ← slice lamports_offset (lamports_offset + 8) bytes
  lamports_bytes ← array_8 lamports_slice
  let lamports = from_le_bytes lamports_bytes
  decoded (record {
    authority = authority;
    owner = owner;
    delegation_slot = delegation_slot;
    lamports = lamports;
  })
