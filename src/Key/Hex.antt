-- ===== src/Key/Hex.antt =====
-- What `NewRawKey` (key.go) uses of Go's `encoding/hex`: decoding into a slice of fixed length.
use terra_go.Base.{
  ℕ, zero, suc, ◌+◌, ◌-◌, ◌*◌, ◌&&◌, Option, none, some, [], ◌∷◌, leb, if◌then◌else◌,
}
use mathlib.Core.Option
use terra_go.Sdk.{Bytes}

-- `fromHexChar`
unfoldable pub from_hex_char : ℕ → Option ℕ
from_hex_char c =
    if leb b'0' c && leb c b'9'
    then some (c - b'0')
    else if leb b'a' c && leb c b'f'
    then some (c - b'a' + 10)
    else if leb b'A' c && leb c b'F'
    then some (c - b'A' + 10)
    else none

-- The byte of two digits.
unfoldable pub byte_of : ℕ → ℕ → Option ℕ
unfolding from_hex_char
byte_of a b = elim (from_hex_char a) [
  | none ↦ none
  | some x ↦ elim (from_hex_char b) [ none ↦ none | some y ↦ some (x * 16 + y) ]
]

-- `hex.Decode(dst, src)` with its error left out: what it leaves in `dst`, or `none` where it writes
-- past the end of `dst`.
unfoldable pub hex_decode : Bytes → Bytes → Option Bytes
hex_decode dst [] = some dst
hex_decode dst (a ∷ []) = some dst
hex_decode [] (a ∷ b ∷ src) = elim (byte_of a b) [ none ↦ some [] | some v ↦ none ]
hex_decode (d ∷ dst) (a ∷ b ∷ src) = elim (byte_of a b) [
  | none ↦ some (d ∷ dst)
  | some v ↦ Option.map (λ rest. v ∷ rest) (hex_decode dst src)
]

abbrev pub zeros : ℕ → Bytes
zeros zero = []
zeros (suc n) = 0 ∷ zeros n
