-- ===== src/Key/Bounds.antt =====
-- The keys that `NewRawKey` (key.go) makes, for every text.
use terra_go.Base.{
  ℕ, zero, suc, ◌<◌, ◌≤◌, ◌≡◌, refl, ◌⊎◌, inl, inr, none, some, [], ◌∷◌, ok, panic, arith, length,
  Option-cases,
}
use terra_go.Sdk.{Sdk, Bytes}
use terra_go.Key.Hex.{from_hex_char, byte_of, hex_decode, zeros}
use terra_go.Key.Raw.{AllBytes}
use terra_go.Key.{raw, new_raw_key}

-- How many pairs of digits a text begins with.
pub valid_pairs : Bytes → ℕ
valid_pairs [] = 0
valid_pairs (a ∷ []) = 0
valid_pairs (a ∷ b ∷ src) = elim (byte_of a b) [ none ↦ 0 | some v ↦ suc (valid_pairs src) ]

from_hex_char-bound : (c : ℕ) {x : ℕ} → from_hex_char c ≡ some x → x < 16
unfolding from_hex_char
from_hex_char-bound c e = ground arith

byte_of-bound : (a b : ℕ) {v : ℕ} → byte_of a b ≡ some v → v < 256
unfolding byte_of
byte_of-bound a b e = elim (Option-cases (from_hex_char a)) [
  | inl bad ↦ absurd (ground arith)
  | inr (x, high) ↦ elim (Option-cases (from_hex_char b)) [
    | inl bad ↦ absurd (ground arith)
    | inr (y, low) ↦ ground (arith, from_hex_char-bound a high, from_hex_char-bound b low)
  ]
]

zeros-AllBytes : (n : ℕ) → AllBytes (zeros n)
zeros-AllBytes zero = tt
zeros-AllBytes (suc n) = (omega arith, zeros-AllBytes n)

length-zeros : (n : ℕ) → length (zeros n) ≡ n
length-zeros zero = refl
length-zeros (suc n) = ground (arith, length-zeros n)

-- Decoding keeps the length of the slice and its elements bytes, or runs past its end.
hex_decode-bounds :
    (dst src : Bytes)
    → AllBytes dst
    → ((length dst < valid_pairs src) × (hex_decode dst src ≡ none))
      ⊎ ((valid_pairs src ≤ length dst)
          × (k : Bytes) × (hex_decode dst src ≡ some k)
          × (length k ≡ length dst)
          × AllBytes k)
unfolding hex_decode valid_pairs
hex_decode-bounds dst [] h = inr (omega arith, dst, refl, refl, h)
hex_decode-bounds dst (a ∷ []) h = inr (omega arith, dst, refl, refl, h)
hex_decode-bounds [] (a ∷ b ∷ src) h = elim (Option-cases (byte_of a b)) [
  | inl bad ↦ inr (ground arith, [], ground arith, refl, tt)
  | inr (v, good) ↦ inl (ground arith, ground arith)
]
hex_decode-bounds (d ∷ dst) (a ∷ b ∷ src) (small, h) = elim (Option-cases (byte_of a b)) [
  | inl bad ↦ inr (ground arith, d ∷ dst, ground arith, refl, (small, h))
  | inr (v, good) ↦ elim (hex_decode-bounds dst src h) [
    | inl (more, past) ↦ inl (ground arith, ground arith)
    | inr (fits, k, decoded, long, bytes) ↦
        inr (ground arith, v ∷ k, ground arith, ground arith, (byte_of-bound a b good, bytes))
  ]
]

-- For every text, `NewRawKey` panics if the text begins with more than 32 pairs of hex digits, and else
-- returns a raw key of exactly 32 bytes, each below 256; it never returns anything else.
pub new_raw_key_bounds :
    (S : Sdk) (hexed : Bytes)
    → ((32 < valid_pairs hexed) × (new_raw_key S hexed ≡ panic "index out of range"))
      ⊎ ((valid_pairs hexed ≤ 32)
          × (k : Bytes) × (new_raw_key S hexed ≡ ok (raw (record { priv_key = k })))
          × (length k ≡ 32)
          × AllBytes k)
unfolding new_raw_key
new_raw_key_bounds S hexed = elim (hex_decode-bounds (zeros 32) hexed (zeros-AllBytes 32)) [
  | inl (more, past) ↦ inl (more, ground arith)
  | inr (fits, k, decoded, long, bytes) ↦ inr (fits, k, ground arith, long, bytes)
]
