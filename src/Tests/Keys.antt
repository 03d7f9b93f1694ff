-- ===== src/Tests/Keys.antt =====
-- Keys from texts of hex digits, and what they sign.
use terra_go.Base.{
  length, ◌≤◌, ◌⊎◌, ◌<◌, ℕ, ◌≡◌, refl, none, some, ok, panic, arith, List, [], ◌∷◌, ◌++◌,
}
use terra_go.Sdk.{Bytes, StdSignMsg, StdSignature}
use terra_go.Key.{Key, raw, new_raw_key, sign_tx, make_signature, raw_make_signature}
use terra_go.Key.Hex.{zeros, byte_of}
use terra_go.Key.Raw.{hex_encode, AllBytes, new_raw_key-hex_encode, new_raw_key_malformed}
use terra_go.Key.Signing.{sign_tx_fields}
use terra_go.Tests.Node.{test_sdk, test_kinds, test_StdTxLaws, TestTx}
use terra_go.Tests.Replies.{scripted}
use terra_go.Key.Bounds.{new_raw_key_bounds, valid_pairs}

abbrev pub key_bytes : List ℕ
key_bytes = 7 ∷ 255 ∷ 1 ∷ 16 ∷ zeros 28

key_bytes-AllBytes : AllBytes key_bytes
key_bytes-AllBytes = ground arith

new_raw_key-hex_encode_example :
    new_raw_key test_sdk (hex_encode key_bytes) ≡ ok (raw (record { priv_key = key_bytes }))
new_raw_key-hex_encode_example = new_raw_key-hex_encode test_sdk key_bytes 0 key_bytes-AllBytes refl

malformed : byte_of b'f' b'g' ≡ none
unfolding byte_of
malformed = refl

well_formed : byte_of b'0' b'1' ≡ some 1
unfolding byte_of
well_formed = refl

-- `07fg`: the second pair is malformed.
new_raw_key_malformed_example :
    new_raw_key test_sdk (hex_encode (7 ∷ []) ++ b'f' ∷ b'g' ∷ [])
    ≡ ok (raw (record { priv_key = 7 ∷ zeros 31 }))
new_raw_key_malformed_example =
    new_raw_key_malformed test_sdk (7 ∷ []) 31 b'f' b'g' [] (omega arith, tt) refl malformed

abbrev message : StdSignMsg test_kinds
message = record {
  chain_id = "columbus-4";
  account_number = 7;
  sequence = 5;
  fee = 9;
  msgs = [];
  memo = "memo";
}

abbrev pub test_key : Key test_sdk
test_key = raw (record { priv_key = key_bytes })

abbrev signature : StdSignature test_kinds
signature = record { pub_key = key_bytes; signature = key_bytes }

abbrev pub signed : TestTx
signed = test_sdk.new_std_tx [] 9 (signature ∷ []) "memo"

key_signs : sign_tx test_sdk test_key message (scripted []) ≡ (ok signed, scripted [])
unfolding sign_tx raw_make_signature
key_signs = refl

sign_tx_fields_example :
    (test_sdk.tx_msgs signed ≡ message.msgs)
    × (test_sdk.tx_fee signed ≡ message.fee)
    × (test_sdk.tx_memo signed ≡ message.memo)
    × ((sig : StdSignature test_kinds) × (test_sdk.tx_signatures signed ≡ sig ∷ [])
        × (make_signature test_sdk test_key message (scripted []) ≡ (ok sig, scripted [])))
sign_tx_fields_example =
    sign_tx_fields test_sdk test_StdTxLaws test_key message (scripted []) (scripted []) signed
      key_signs

-- "0aFg": one pair of digits, and then none.
new_raw_key_bounds_example :
    ((32 < valid_pairs (b'0' ∷ b'a' ∷ b'F' ∷ b'g' ∷ []))
      × (new_raw_key test_sdk (b'0' ∷ b'a' ∷ b'F' ∷ b'g' ∷ []) ≡ panic "index out of range"))
    ⊎ ((valid_pairs (b'0' ∷ b'a' ∷ b'F' ∷ b'g' ∷ []) ≤ 32)
        × (k : Bytes) × (new_raw_key test_sdk (b'0' ∷ b'a' ∷ b'F' ∷ b'g' ∷ [])
            ≡ ok (raw (record { priv_key = k })))
        × (length k ≡ 32)
        × AllBytes k)
new_raw_key_bounds_example = new_raw_key_bounds test_sdk (b'0' ∷ b'a' ∷ b'F' ∷ b'g' ∷ [])
