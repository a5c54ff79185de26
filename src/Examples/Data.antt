-- ===== src/Examples/Data.antt =====
-- Identifiers and delegation records at concrete inputs (src/types.rs).
use magic_router.Prelude.{
  ℕ, ◌<◌, ◌≤◌, ◌≡◌, ◌≢◌, ◌⊎◌, refl, Option, none, some, leb, if◌then◌else◌, List, [], ◌∷◌,
  replicate, length, arith,
}
use magic_router.Types.{ParsedDelegationRecord, decoded, absent, from_bytes, min_data_len}
use magic_router.Types.Text.{Base58, serialize, deserialize, deserialize-serialize}
use magic_router.Types.Bytes.{le_keys}
use magic_router.Types.Decoding.{IsReadFrom, layout, IsInRange, from_bytes-cases, from_bytes-layout}

abbrev pub some_record : ParsedDelegationRecord
some_record = record { authority = 7; owner = 300; delegation_slot = 12; lamports = 1000 }

abbrev pub discriminator : List ℕ
discriminator = replicate 8 1

pub some_record-IsInRange : IsInRange some_record
some_record-IsInRange = record {
  authority = omega arith;
  owner = omega arith;
  delegation_slot = omega arith;
  lamports = omega arith;
}

from_bytes-cases_example :
    ((length discriminator < min_data_len) × (from_bytes le_keys discriminator ≡ absent))
    ⊎ ((r : ParsedDelegationRecord) × (min_data_len ≤ length discriminator)
        × (from_bytes le_keys discriminator ≡ decoded r)
        × IsReadFrom le_keys discriminator r)
from_bytes-cases_example = from_bytes-cases le_keys discriminator

from_bytes-layout_example :
    from_bytes le_keys (layout le_keys discriminator some_record (5 ∷ [])) ≡ decoded some_record
from_bytes-layout_example =
    from_bytes-layout le_keys discriminator (5 ∷ []) some_record refl some_record-IsInRange

-- A stand-in for base58: each byte is its own character.
abbrev onto : ℕ → List ℕ → Option (List ℕ)
onto capacity bs = if leb (length bs) capacity then some bs else none

onto_fits : (bs : List ℕ) → length bs ≡ 32 → (t : List ℕ) × (onto 44 bs ≡ some t)
onto_fits bs len = (bs, ground arith)

onto_back :
    (n capacity : ℕ) (bs t : List ℕ)
    → onto n bs ≡ some t
    → length bs ≤ capacity
    → onto capacity t ≡ some bs
onto_back n capacity bs t e len = ground arith

onto_too_long :
    (n capacity : ℕ) (bs t : List ℕ)
    → onto n bs ≡ some t
    → capacity < length bs
    → onto capacity t ≡ none
onto_too_long n capacity bs t e len = ground arith

abbrev plain_text : Base58
plain_text = record {
  encode_onto = onto;
  decode_onto = onto;
  fits = onto_fits;
  decode-encode = onto_back;
  too_long = onto_too_long;
}

deserialize-serialize_example :
    ((t : List ℕ) × (serialize plain_text le_keys 300 ≡ some t)
      × (deserialize plain_text le_keys t ≡ some 300))
    × ((n : ℕ) (bs t : List ℕ)
        → onto n bs ≡ some t
        → length bs ≢ 32
        → deserialize plain_text le_keys t ≡ none)
deserialize-serialize_example = deserialize-serialize plain_text le_keys 300 (omega arith)
