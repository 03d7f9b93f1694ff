-- ===== src/Sdk/Operations.antt =====
-- The operations of third-party packages that the program calls.
use Prim.Native.String.{String}
use terra_go.Base.{ℕ, Bool, Option, List, Outcome}
use terra_go.Http.{HttpRequest, HttpResponse, Stream, Url}
use terra_go.Sdk.Opaque.{Kinds}
use terra_go.Sdk.Structs.{Bytes, Coin, Msg, StdSignMsg, StdSignature, BroadcastReq, EstimateReq}

-- A pointer to a zero `A`, as `interface{}`: how `encoding/json` and the amino codec fill it.
pub record Target (Codec A : Type 0) : Type 0 where
  pub decode_json : Stream → Outcome A
  pub unmarshal_json : Codec → String → Outcome A

pub record Sdk : Type 1 where
  pub kinds : Kinds
  pub open kinds use *
  -- http.DefaultTransport, url.Parse, a URL as a `url.Error` prints it, terraapp.MakeCodec
  pub round_trip : HttpRequest → Net → Outcome HttpResponse × Net
  pub parse_url : String → Outcome Url
  pub quoted_url : Url → String
  pub make_codec : Codec
  pub marshal_broadcast : Codec → BroadcastReq kinds → Outcome String
  pub marshal_estimate : Codec → EstimateReq kinds → Outcome String
  -- AccAddress.String
  pub address_string : Bytes → String
  -- Uint.Uint64, NewCoin: no result where they panic
  pub to_uint64 : Uint → Option ℕ
  pub new_coin : String → Int → Option (Coin kinds)
  pub new_int : ℕ → Int
  pub gt : Int → Int → Bool
  pub new_dec_from_int : Int → Decimal
  pub new_dec_with_prec : ℕ → ℕ → Decimal
  pub mul : Decimal → Decimal → Decimal
  pub truncate_int : Decimal → Int
  pub int_string : Int → String
  -- NewIntFromString, AccAddressFromBech32
  pub int_from_string : String → Option Int
  pub address_from_bech32 : String → Outcome Bytes
  -- the text that Base64Bytes becomes in JSON, without its quotes
  pub base64 : String → String
  -- a float literal by its digits and its number of decimals, `== 0`, `%f`
  pub float_literal : ℕ → ℕ → Float
  pub is_zero : Float → Bool
  pub format_float : Float → String
  pub micro_luna_denom : String
  pub micro_usd_denom : String
  pub network : NodeInfo → String
  pub get_sequence : ChainAccount → ℕ
  pub get_account_number : ChainAccount → ℕ
  -- TxResponse.Code, TxResponse.RawLog, abcitypes.CodeTypeOK
  pub code : TxResponse → ℕ
  pub raw_log : TxResponse → String
  pub code_type_ok : ℕ
  -- a private key's public key and signature; PubKey.Address().Bytes()
  pub pub_key_of : Bytes → PubKey
  pub sign : Bytes → Bytes → Outcome Bytes
  pub address_of : PubKey → Bytes
  pub sign_bytes : StdSignMsg kinds → Bytes
  pub keybase_get : Keybase → String → Net → Outcome KeyInfo × Net
  pub info_address : KeyInfo → Bytes
  pub info_pub_key : KeyInfo → PubKey
  pub make_signature :
      Keybase → String → String → StdSignMsg kinds → Net → Outcome (StdSignature kinds) × Net
  pub zero_fee : StdFee
  -- terraauth.NewStdTx, and the four fields of what it makes
  pub new_std_tx : List (Msg kinds) → StdFee → List (StdSignature kinds) → String → StdTx
  pub tx_msgs : StdTx → List (Msg kinds)
  pub tx_fee : StdTx → StdFee
  pub tx_signatures : StdTx → List (StdSignature kinds)
  pub tx_memo : StdTx → String
