-- ===== src/Key/Raw.antt =====
-- What `NewRawKey` (key.go) makes of a text of hex digits.
use terra_go.Base.{
  length, ℕ, suc, ◌+◌, ◌-◌, ◌/◌, ◌%◌, ◌<◌, ◌≡◌, ap, ◌∙◌, none, some, [], ◌∷◌, ◌++◌, ok, panic,
  arith, ltb, if◌then◌else◌,
}
use mathlib.Core.List.{append-nil}
use mathlib.Core.Option
use terra_go.Sdk.{Sdk, Bytes}
use terra_go.Key.Hex.{byte_of, hex_decode, zeros}
use terra_go.Key.{raw, new_raw_key}

-- The digits that `hex.EncodeToString` writes.
abbrev pub hex_char : ℕ → ℕ
hex_char n = if ltb n 10 then b'0' + n else b'a' + (n - 10)

abbrev pub hex_encode : Bytes → Bytes
hex_encode [] = []
hex_encode (b ∷ bs) = hex_char (b / 16) ∷ hex_char (b % 16) ∷ hex_encode bs

abbrev pub AllBytes : Bytes → Type 0
AllBytes [] = Unit
AllBytes (b ∷ bs) = (b < 256) × AllBytes bs

byte_of-hex_char : (b : ℕ) → b < 256 → byte_of (hex_char (b / 16)) (hex_char (b % 16)) ≡ some b
unfolding byte_of
byte_of-hex_char b h = ground arith

-- A slice with a zero for each byte of a list, and then the rest.
abbrev room : Bytes → Bytes → Bytes
room [] rest = rest
room (b ∷ bs) rest = 0 ∷ room bs rest

room-zeros : (bs : Bytes) (n : ℕ) → room bs (zeros n) ≡ zeros (length bs + n)
room-zeros [] n = ap zeros (omega arith)
room-zeros (b ∷ bs) n =
    ap (λ t. 0 ∷ t) (room-zeros bs n) ∙ ap zeros {x = suc (length bs + n)} (omega arith)

hex_decode-room :
    (bs dst src : Bytes)
    → AllBytes bs
    → hex_decode (room bs dst) (hex_encode bs ++ src)
      ≡ Option.map (λ rest. bs ++ rest) (hex_decode dst src)
unfolding hex_decode
hex_decode-room [] dst src h = ground arith
hex_decode-room (b ∷ bs) dst src (h, hs) =
    ground (arith, byte_of-hex_char b h, hex_decode-room bs dst src hs)

-- Decoding into zero bytes a text that begins with the encoding of some of them.
hex_decode-hex_encode :
    (bs src : Bytes) (m n : ℕ)
    → AllBytes bs
    → length bs + m ≡ n
    → hex_decode (zeros n) (hex_encode bs ++ src)
      ≡ Option.map (λ rest. bs ++ rest) (hex_decode (zeros m) src)
hex_decode-hex_encode bs src m n h e =
    rw (← e, ← room-zeros bs m) (hex_decode-room bs (zeros m) src h)

hex_decode-stop :
    (dst : Bytes) (a b : ℕ) (rest : Bytes)
    → byte_of a b ≡ none
    → hex_decode dst (a ∷ b ∷ rest) ≡ some dst
unfolding hex_decode
hex_decode-stop [] a b rest bad = ground arith
hex_decode-stop (d ∷ dst) a b rest bad = ground arith

module _ (S : Sdk) where
  -- The encoding of at most 32 bytes is the key of these bytes, filled up with zeros; so that of 32
  -- bytes is the key of exactly these.
  pub new_raw_key-hex_encode :
      (bs : Bytes) (m : ℕ)
      → AllBytes bs
      → length bs + m ≡ 32
      → new_raw_key S (hex_encode bs) ≡ ok (raw (record { priv_key = bs ++ zeros m }))
  unfolding new_raw_key hex_decode
  new_raw_key-hex_encode bs m h e =
      ground (arith, hex_decode-hex_encode bs [] m 32 h e, append-nil (hex_encode bs))

  -- A text that is malformed behind the encoding of fewer than 32 bytes is no error: the key is
  -- these bytes, filled up with zeros, whatever follows.
  pub new_raw_key_malformed :
      (bs : Bytes) (m a b : ℕ) (rest : Bytes)
      → AllBytes bs
      → length bs + m ≡ 32
      → byte_of a b ≡ none
      → new_raw_key S (hex_encode bs ++ a ∷ b ∷ rest)
        ≡ ok (raw (record { priv_key = bs ++ zeros m }))
  unfolding new_raw_key hex_decode
  new_raw_key_malformed bs m a b rest h e bad = ground (
    arith,
    hex_decode-hex_encode bs (a ∷ b ∷ rest) m 32 h e,
    hex_decode-stop (zeros m) a b rest bad,
  )

  -- A text with another pair of digits behind the encoding of 32 bytes panics.
  pub new_raw_key_long :
      (bs : Bytes) (a b v : ℕ) (rest : Bytes)
      → AllBytes bs
      → length bs ≡ 32
      → byte_of a b ≡ some v
      → new_raw_key S (hex_encode bs ++ a ∷ b ∷ rest) ≡ panic "index out of range"
  unfolding new_raw_key hex_decode
  new_raw_key_long bs a b v rest h e good =
      ground (arith, hex_decode-hex_encode bs (a ∷ b ∷ rest) 0 32 h (omega arith))
