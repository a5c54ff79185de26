-- ===== src/Types/Text.antt =====
-- The text of a key (`SerdePubkey` in src/types.rs).
use magic_router.Prelude.{
  ℕ, ◌^◌, ◌<◌, ◌≤◌, ◌≡◌, ◌≢◌, ◌∙◌, sym, subst, replicate, ◌++◌, ◌-◌, ltb, inl, inr, not, Option,
  none, some, List, ◌==◌, if◌then◌else◌, length, Bool-cases, arith,
}
use mathlib.Core.List.{append-nil}
use magic_router.Types.{Pubkey, PubkeyBytes}

abbrev pub Text : Type 0
Text = List ℕ

-- The encoding of the `bs58` crate into and out of a buffer, with what it documents: 32 bytes have
-- a text of at most 44 characters, a text gives its bytes back, and bytes that the buffer is too
-- small for are an error.
pub record Base58 : Type 0 where
  pub encode_onto : (capacity : ℕ) → List ℕ → Option Text
  pub decode_onto : (capacity : ℕ) → Text → Option (List ℕ)
  pub fits : (bs : List ℕ) → length bs ≡ 32 → (t : Text) × (encode_onto 44 bs ≡ some t)
  pub decode-encode :
      (n capacity : ℕ) (bs : List ℕ) (t : Text)
      → encode_onto n bs ≡ some t
      → length bs ≤ capacity
      → decode_onto capacity t ≡ some bs
  pub too_long :
      (n capacity : ℕ) (bs : List ℕ) (t : Text)
      → encode_onto n bs ≡ some t
      → capacity < length bs
      → decode_onto capacity t ≡ none

-- `none` is a panic.
unfoldable pub serialize : Base58 → PubkeyBytes → Pubkey → Option Text
serialize base58 keys k = base58.encode_onto 44 (keys.to_bytes k)

-- A buffer of 32 zeros with the decoded bytes at its start.
abbrev pub padded : List ℕ → List ℕ
padded bs = bs ++ replicate (32 - length bs) 0

-- `none` is an error of the deserializer.
unfoldable pub deserialize : Base58 → PubkeyBytes → Text → Option Pubkey
deserialize base58 keys value = elim (base58.decode_onto 32 value) [
  | none ↦ none
  | some decoded ↦
      if not (length decoded == 32) then none else some (keys.new_from_array (padded decoded))
]

padded-eq : (bs : List ℕ) → length bs ≡ 32 → padded bs ≡ bs
padded-eq bs len =
    let full : 32 - length bs ≡ 0 = omega arith in
    subst (λ n. bs ++ replicate n 0 ≡ bs) (sym full) (append-nil bs)

module _ (base58 : Base58) (keys : PubkeyBytes) where
  deserialize-bytes :
      (n : ℕ) (bs : List ℕ) (t : Text)
      → base58.encode_onto n bs ≡ some t
      → length bs ≡ 32
      → deserialize base58 keys t ≡ keys.try_from bs
  unfolding deserialize
  deserialize-bytes n bs t e len =
      let back : base58.decode_onto 32 t ≡ some bs =
        base58.decode-encode n 32 bs t e (omega arith) in
      rw (back, deserialize) (ground (arith, padded-eq bs len, keys.try_from-new_from_array bs len))

  -- The text of fewer bytes is not filled up, and that of more is not cut off.
  deserialize-ne :
      (n : ℕ) (bs : List ℕ) (t : Text)
      → base58.encode_onto n bs ≡ some t
      → length bs ≢ 32
      → deserialize base58 keys t ≡ none
  unfolding deserialize
  deserialize-ne n bs t e len = elim (Bool-cases (ltb 32 (length bs))) [
    | inl longer ↦
        let none_left : base58.decode_onto 32 t ≡ none =
          base58.too_long n 32 bs t e (ground arith) in
        rw (none_left, deserialize)
    | inr shorter ↦
        let back : base58.decode_onto 32 t ≡ some bs =
          base58.decode-encode n 32 bs t e (ground arith) in
        rw (back, deserialize) (ground arith)
  ]

  -- A key has a text, for which the buffer is large enough, and the text is read back as the key;
  -- the text of any number of bytes other than 32 is refused.
  pub deserialize-serialize :
      (k : Pubkey)
      → k < 256 ^ 32
      → ((t : Text) × (serialize base58 keys k ≡ some t) × (deserialize base58 keys t ≡ some k))
        × ((n : ℕ) (bs : List ℕ) (t : Text)
            → base58.encode_onto n bs ≡ some t
            → length bs ≢ 32
            → deserialize base58 keys t ≡ none)
  unfolding serialize
  deserialize-serialize k lt =
      let (t, e) = base58.fits (keys.to_bytes k) (keys.length-to_bytes k) in
      (
        (
          t,
          e,
          deserialize-bytes 44 (keys.to_bytes k) t e (keys.length-to_bytes k)
              ∙ keys.try_from-to_bytes k lt,
        ),
        deserialize-ne,
      )
