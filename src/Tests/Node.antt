-- ===== src/Tests/Node.antt =====
-- A concrete set of third-party operations, and a node that gives scripted replies in turn.
use Prim.Native.String.{String}
use text.Mathlib.Text.{◌==◌ as str_eq}
use terra_go.Base.Text.{◌<>◌}
use terra_go.Base.{
  ℕ, Option, ◌*◌, ◌/◌, ◌^◌, ◌≡◌, refl, ap, Bool, none, some, List, [], ◌∷◌, Outcome, ok, err,
  message, ltb, ◌==◌, if◌then◌else◌,
}
use terra_go.Http.{HttpRequest, HttpResponse, Url}
use terra_go.Sdk.{Kinds, Sdk, Bytes, Coin, Msg, execute_contract, other, StdSignature}
use terra_go.Sdk.Laws.{StdTxLaws, one}

-- Numbers are natural, and a Dec is its units; a reply of a transaction is its code and its log.
abbrev pub kinds_with : Type 0 → Kinds
kinds_with T = record {
  Net = List HttpResponse;
  Codec = List (ℕ × String);
  Float = ℕ;
  Int = ℕ;
  Uint = ℕ;
  Decimal = ℕ;
  ChainAccount = ℕ × ℕ;
  NodeInfo = String;
  SyncingResponse = Bool;
  BlockId = ℕ;
  Block = ℕ;
  CodeInfo = String;
  ContractInfo = String;
  TxResponse = ℕ × String;
  PubKey = Bytes;
  StdFee = ℕ;
  StdTx = T;
  Keybase = Bytes;
  KeyInfo = Bytes;
  OtherMsg = String;
}

-- Messages and signatures do not depend on the type of transactions.
module _ {A B : Type 0} where
  abbrev to_coins : List (Coin (kinds_with A)) → List (Coin (kinds_with B))
  to_coins [] = []
  to_coins (c ∷ cs) = record { denom = c.denom; amount = c.amount } ∷ to_coins cs

  abbrev to_msgs : List (Msg (kinds_with A)) → List (Msg (kinds_with B))
  to_msgs [] = []
  to_msgs (other m ∷ ms) = other m ∷ to_msgs ms
  to_msgs (execute_contract m ∷ ms) =
      execute_contract (record {
        sender = m.sender;
        contract = m.contract;
        execute_msg = m.execute_msg;
        coins = to_coins m.coins;
      })
      ∷ to_msgs ms

  abbrev to_signatures : List (StdSignature (kinds_with A)) → List (StdSignature (kinds_with B))
  to_signatures [] = []
  to_signatures (s ∷ ss) =
      record { pub_key = s.pub_key; signature = s.signature } ∷ to_signatures ss

module _ {A : Type 0} (B : Type 0) where
  to_coins-to_coins :
      (cs : List (Coin (kinds_with A)))
      → to_coins {A = B} {B = A} (to_coins {A = A} {B = B} cs) ≡ cs
  to_coins-to_coins [] = refl
  to_coins-to_coins (c ∷ cs) = ap (λ l. c ∷ l) (to_coins-to_coins cs)

  to_msgs-to_msgs :
      (ms : List (Msg (kinds_with A))) → to_msgs {A = B} {B = A} (to_msgs {A = A} {B = B} ms) ≡ ms
  to_msgs-to_msgs [] = refl
  to_msgs-to_msgs (other m ∷ ms) = ap (λ l. other m ∷ l) (to_msgs-to_msgs ms)
  to_msgs-to_msgs (execute_contract m ∷ ms) =
      rw (to_coins-to_coins m.coins, to_msgs-to_msgs ms) refl

  to_signatures-to_signatures :
      (ss : List (StdSignature (kinds_with A)))
      → to_signatures {A = B} {B = A} (to_signatures {A = A} {B = B} ss) ≡ ss
  to_signatures-to_signatures [] = refl
  to_signatures-to_signatures (s ∷ ss) = ap (λ l. s ∷ l) (to_signatures-to_signatures ss)

pub record TestTx : Type 0 where
  pub msgs : List (Msg (kinds_with Unit))
  pub fee : ℕ
  pub signatures : List (StdSignature (kinds_with Unit))
  pub memo : String

abbrev pub test_kinds : Kinds
test_kinds = kinds_with TestTx

-- The next reply of the script, or no reply.
abbrev next_reply : HttpRequest → List HttpResponse → Outcome HttpResponse × List HttpResponse
next_reply req [] = (err (message "connection refused"), [])
next_reply req (r ∷ rs) = (ok r, rs)

-- The path of the endpoint `node/v1` is `/v1`; the others have none.
abbrev parse_endpoint : String → Outcome Url
parse_endpoint text =
    if str_eq text ":"
    then err (message "missing protocol scheme")
    else ok (record {
      origin = text;
      path = if str_eq text "node/v1" then "/v1" else "";
      query = λ _. [];
    })

-- Two numbers and their texts.
abbrev decimal : ℕ → String
decimal n = if n == 20 then "20" else "0"

abbrev from_decimal : String → Option ℕ
from_decimal text = if str_eq text "20" then some 20 else if str_eq text "0" then some 0 else none

abbrev pub test_sdk : Sdk
test_sdk = record {
  kinds = test_kinds;
  round_trip = next_reply;
  parse_url = parse_endpoint;
  quoted_url = λ u. "\"" <> u.origin <> "\"";
  make_codec = [];
  marshal_broadcast = λ _ req. ok req.mode;
  marshal_estimate = λ _ req. ok req.base_req.gas;
  address_string = λ _. "terra1x";
  to_uint64 = λ n. some n;
  new_coin = λ denom n. some (record { denom = denom; amount = n });
  new_int = λ n. n;
  gt = λ a b. ltb b a;
  new_dec_from_int = λ n. n * one;
  new_dec_with_prec = λ n p. n * 10 ^ p;
  mul = λ a b. a * b / one;
  truncate_int = λ a. a / one;
  int_string = decimal;
  int_from_string = from_decimal;
  address_from_bech32 =
      λ text. if str_eq text "terra1x" then ok [] else err (message "decoding bech32 failed");
  base64 = λ text. text;
  float_literal = λ n p. n;
  is_zero = λ n. n == 0;
  format_float = λ n. "1.200000";
  micro_luna_denom = "uluna";
  micro_usd_denom = "uusd";
  network = λ n. n;
  get_sequence = λ a. a.1;
  get_account_number = λ a. a.0;
  code = λ r. r.0;
  raw_log = λ r. r.1;
  code_type_ok = 0;
  pub_key_of = λ k. k;
  sign = λ k bs. ok k;
  address_of = λ k. k;
  sign_bytes = λ m. [];
  keybase_get = λ b name n. (ok b, n);
  info_address = λ i. i;
  info_pub_key = λ i. i;
  make_signature = λ b name pass m n. (ok (record { pub_key = b; signature = b }), n);
  zero_fee = 0;
  new_std_tx = λ ms f ss memo. record {
    msgs = to_msgs ms;
    fee = f;
    signatures = to_signatures ss;
    memo = memo;
  };
  tx_msgs = λ t. to_msgs t.msgs;
  tx_fee = λ t. t.fee;
  tx_signatures = λ t. to_signatures t.signatures;
  tx_memo = λ t. t.memo;
}

pub test_StdTxLaws : StdTxLaws test_sdk
test_StdTxLaws = record {
  msgs = λ ms f ss memo. to_msgs-to_msgs Unit ms;
  fee = λ ms f ss memo. refl;
  signatures = λ ms f ss memo. to_signatures-to_signatures Unit ss;
  memo_kept = λ ms f ss memo. refl;
}
