-- ===== src/Types/Decoding.antt =====
-- Decoding of delegation records (`ParsedDelegationRecord::from_bytes` in src/types.rs): it never
-- panics, and it inverts the layout of the account data.
use mathlib.Core.List.{append_assoc}
use magic_router.Prelude.{
  ℕ, ◌-◌, ◌^◌, ◌≤◌, ◌<◌, ◌≡◌, refl, ◌∙◌, ◌⊎◌, inl, inr, true, some, List, ◌++◌, leb, leb→le,
  Bool-cases, length, take, drop, length-append, length-take, length-drop, take_append, drop_append,
  arith,
}
use magic_router.Types.{
  u64_mod, ParsedDelegationRecord, PubkeyBytes, decoded, absent, slice, array_8, from_le_bytes,
  from_bytes, min_data_len,
}
use magic_router.Types.Bytes.{to_le_bytes, length-to_le_bytes, from_le_bytes-to_le_bytes}

-- The bytes of `data[lo..hi]`.
abbrev pub field : ℕ → ℕ → List ℕ → List ℕ
field lo hi xs = take (hi - lo) (drop lo xs)

slice-field :
    (lo hi : ℕ) (xs : List ℕ) → lo ≤ hi → hi ≤ length xs → slice lo hi xs ≡ decoded (field lo hi xs)
unfolding slice
slice-field lo hi xs h k = ground arith

length-field :
    (lo hi : ℕ) (xs : List ℕ) → lo ≤ hi → hi ≤ length xs → length (field lo hi xs) ≡ hi - lo
length-field lo hi xs h k = omega (arith, length-take (hi - lo) (drop lo xs), length-drop lo xs)

array_8-decoded : (bs : List ℕ) → length bs ≡ 8 → array_8 bs ≡ decoded bs
unfolding array_8
array_8-decoded bs h = ground arith

key_of_bytes :
    (keys : PubkeyBytes) (bs : List ℕ) → length bs ≡ 32 → (k : ℕ) × (keys.try_from bs ≡ some k)
key_of_bytes keys bs len = (keys.new_from_array bs, keys.try_from-new_from_array bs len)

-- What the fields of a record are read from.
pub record IsReadFrom (keys : PubkeyBytes) (xs : List ℕ) (r : ParsedDelegationRecord) : Type 0 where
  pub authority : keys.try_from (field 8 40 xs) ≡ some r.authority
  pub owner : keys.try_from (field 40 72 xs) ≡ some r.owner
  pub delegation_slot : r.delegation_slot ≡ from_le_bytes (field 72 80 xs)
  pub lamports : r.lamports ≡ from_le_bytes (field 80 88 xs)

-- The decoder, given its four slices.
from_bytes-slices :
    (keys : PubkeyBytes) (xs authority_bytes owner_bytes slot_bytes lamports_bytes : List ℕ)
    (authority owner : ℕ)
    → leb min_data_len (length xs) ≡ true
    → slice 8 40 xs ≡ decoded authority_bytes
    → keys.try_from authority_bytes ≡ some authority
    → slice 40 72 xs ≡ decoded owner_bytes
    → keys.try_from owner_bytes ≡ some owner
    → slice 72 80 xs ≡ decoded slot_bytes
    → array_8 slot_bytes ≡ decoded slot_bytes
    → slice 80 88 xs ≡ decoded lamports_bytes
    → array_8 lamports_bytes ≡ decoded lamports_bytes
    → from_bytes keys xs
      ≡ decoded (record {
        authority = authority;
        owner = owner;
        delegation_slot = from_le_bytes slot_bytes;
        lamports = from_le_bytes lamports_bytes;
      })
unfolding from_bytes
from_bytes-slices keys xs ab ob sb lb a o long ea ka eo ko es ss el ll =
    rw (long, ea, ka, eo, ko, es, ss, el, ll)

module _ (keys : PubkeyBytes) (xs : List ℕ) where
  from_bytes-long :
      min_data_len ≤ length xs
      → (r : ParsedDelegationRecord) × (from_bytes keys xs ≡ decoded r) × IsReadFrom keys xs r
  from_bytes-long h =
      let (a, ea) =
        key_of_bytes keys (field 8 40 xs) (length-field 8 40 xs (omega arith) (omega arith)) in
      let (o, eo) =
        key_of_bytes keys (field 40 72 xs) (length-field 40 72 xs (omega arith) (omega arith)) in
      (
        record {
          authority = a;
          owner = o;
          delegation_slot = from_le_bytes (field 72 80 xs);
          lamports = from_le_bytes (field 80 88 xs);
        },
        from_bytes-slices keys xs (field 8 40 xs) (field 40 72 xs) (field 72 80 xs) (field 80 88 xs)
            a o (ground arith) (slice-field 8 40 xs (omega arith) (omega arith)) ea
            (slice-field 40 72 xs (omega arith) (omega arith)) eo
            (slice-field 72 80 xs (omega arith) (omega arith))
            (array_8-decoded (field 72 80 xs) (length-field 72 80 xs (omega arith) (omega arith)))
            (slice-field 80 88 xs (omega arith) (omega arith))
            (array_8-decoded (field 80 88 xs) (length-field 80 88 xs (omega arith) (omega arith))),
        record { authority = ea; owner = eo; delegation_slot = refl; lamports = refl },
      )

  -- Account data shorter than 88 bytes is no record; any other data is one, whose authority and
  -- owner are the keys in bytes 8 to 40 and 40 to 72, and whose slot and lamports are the
  -- little-endian numbers in bytes 72 to 80 and 80 to 88. So the decoder never panics.
  pub from_bytes-cases :
      ((length xs < min_data_len) × (from_bytes keys xs ≡ absent))
      ⊎ ((r : ParsedDelegationRecord) × (min_data_len ≤ length xs)
          × (from_bytes keys xs ≡ decoded r)
          × IsReadFrom keys xs r)
  unfolding from_bytes
  from_bytes-cases = elim (Bool-cases (leb min_data_len (length xs))) [
    | inl long ↦
        let (r, e, fields) = from_bytes-long (leb→le _ _ long) in
        inr (r, leb→le _ _ long, e, fields)
    | inr short ↦ inl (ground arith, rw short)
  ]

-- The layout of a delegation record's account, behind an 8-byte discriminator.
abbrev pub layout : PubkeyBytes → List ℕ → ParsedDelegationRecord → List ℕ → List ℕ
layout keys discriminator r rest =
    discriminator
    ++ (keys.to_bytes r.authority
        ++ (keys.to_bytes r.owner
            ++ (to_le_bytes 8 r.delegation_slot ++ (to_le_bytes 8 r.lamports ++ rest))))

-- The fields of a record that the account data can hold.
pub record IsInRange (r : ParsedDelegationRecord) : Type 0 where
  pub authority : r.authority < 256 ^ 32
  pub owner : r.owner < 256 ^ 32
  pub delegation_slot : r.delegation_slot < u64_mod
  pub lamports : r.lamports < u64_mod

slice_append :
    (lo hi : ℕ) (all xs ys zs : List ℕ)
    → all ≡ xs ++ (ys ++ zs)
    → length xs ≡ lo
    → length ys ≡ hi - lo
    → lo ≤ hi
    → slice lo hi all ≡ decoded ys
slice_append lo hi all xs ys zs e h k le = rw e (
    slice-field lo hi (xs ++ (ys ++ zs)) le
      (omega (arith, length-append xs (ys ++ zs), length-append ys zs))
    ∙ rw (drop_append xs (ys ++ zs) lo h, take_append ys zs (hi - lo) k))

-- The slices of data that is five fields of the record's widths and a rest.
module _ (d a o s l rest : List ℕ) (ed : length d ≡ 8) (ea : length a ≡ 32) (eo : length o ≡ 32)
    (es : length s ≡ 8) (el : length l ≡ 8) where
  abbrev whole : List ℕ
  whole = d ++ (a ++ (o ++ (s ++ (l ++ rest))))

  whole-long : leb min_data_len (length whole) ≡ true
  whole-long = ground (
    arith,
    length-append d (a ++ (o ++ (s ++ (l ++ rest)))),
    length-append a (o ++ (s ++ (l ++ rest))),
    length-append o (s ++ (l ++ rest)),
    length-append s (l ++ rest),
    length-append l rest,
  )

  slice-authority : slice 8 40 whole ≡ decoded a
  slice-authority = slice_append 8 40 whole d a _ refl ed ea (omega arith)

  slice-owner : slice 40 72 whole ≡ decoded o
  slice-owner =
      slice_append 40 72 whole (d ++ a) o (s ++ (l ++ rest)) (simp append_assoc)
        (omega (arith, length-append d a)) eo (omega arith)

  slice-slot : slice 72 80 whole ≡ decoded s
  slice-slot =
      slice_append 72 80 whole (d ++ (a ++ o)) s (l ++ rest) (simp append_assoc)
        (omega (arith, length-append d (a ++ o), length-append a o)) es (omega arith)

  slice-lamports : slice 80 88 whole ≡ decoded l
  slice-lamports =
      slice_append 80 88 whole (d ++ (a ++ (o ++ s))) l rest (simp append_assoc)
        (omega
          (arith, length-append d (a ++ (o ++ s)), length-append a (o ++ s), length-append o s))
        el (omega arith)

-- A record that fits its fields is read back from its account data, whatever the discriminator
-- of 8 bytes is and whatever follows the record.
pub from_bytes-layout :
    (keys : PubkeyBytes) (discriminator rest : List ℕ) (r : ParsedDelegationRecord)
    → length discriminator ≡ 8
    → IsInRange r
    → from_bytes keys (layout keys discriminator r rest) ≡ decoded r
from_bytes-layout keys d rest r wide fits =
    from_bytes-slices keys (whole d a o s l rest wide wa wo ws wl) a o s l r.authority r.owner
      (whole-long d a o s l rest wide wa wo ws wl) (slice-authority d a o s l rest wide wa wo ws wl)
      (keys.try_from-to_bytes r.authority fits.authority)
      (slice-owner d a o s l rest wide wa wo ws wl) (keys.try_from-to_bytes r.owner fits.owner)
      (slice-slot d a o s l rest wide wa wo ws wl) (array_8-decoded s ws)
      (slice-lamports d a o s l rest wide wa wo ws wl) (array_8-decoded l wl)
    ∙ rw (
      from_le_bytes-to_le_bytes 8 r.delegation_slot fits.delegation_slot,
      from_le_bytes-to_le_bytes 8 r.lamports fits.lamports,
    )
  where
    a : List ℕ
    a = keys.to_bytes r.authority

    o : List ℕ
    o = keys.to_bytes r.owner

    s : List ℕ
    s = to_le_bytes 8 r.delegation_slot

    l : List ℕ
    l = to_le_bytes 8 r.lamports

    wa : length a ≡ 32
    wa = keys.length-to_bytes r.authority

    wo : length o ≡ 32
    wo = keys.length-to_bytes r.owner

    ws : length s ≡ 8
    ws = length-to_le_bytes 8 r.delegation_slot

    wl : length l ≡ 8
    wl = length-to_le_bytes 8 r.lamports
