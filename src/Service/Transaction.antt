-- ===== src/Service/Transaction.antt =====
-- service/transaction.go and service/transaction_schema.go
pub mod Queries
pub mod Broadcasts
use Prim.Native.String.{String}
use terra_go.Base.{
  false, Option, none, some, List, [], Error, message, Action, pure, lift, wrapped, panic, ◌>>=◌,
  ◌>>◌, ◌==◌, if◌then◌else◌, Outcome, ok,
}
use terra_go.Base.Dict.{Dict, insert}
use terra_go.Base.Int.{ℤ}
use terra_go.Base.Text.{◌<>◌}
use terra_go.Types.{BroadcastMode}
use terra_go.Value.{Q, Fields, end, field, num, set_field, format, and_then}
use terra_go.Http.{Context}
use terra_go.Sdk.{Sdk, StdSignMsg, DecCoin, EstimateReq}
use terra_go.World.{World, happen, slept}
use terra_go.HttpClient.{Client, request_json}
use terra_go.Service.Bodies.{Targets, QueryTxResponse, get_payload, post_payload}

pub record QueryTxRequest : Type 0 where
  pub page : Option ℤ
  pub limit : Option ℤ
  pub query : Q

-- `if n != nil { req.Query[key] = *n }`: a write to a nil map panics.
abbrev pub put_number : String → Option ℤ → Q → Outcome Q
put_number key none q = ok q
put_number key (some n) none = panic "assignment to entry in nil map"
put_number key (some n) (some fs) = ok (some (set_field key (num n) fs))

-- The caller's map as `QueryTx` leaves it.
unfoldable pub query_fields : QueryTxRequest → Outcome Q
query_fields req = and_then (put_number "page" req.page req.query) (put_number "limit" req.limit)

-- `for k, v := range req.Query { payload.Query[k] = fmt.Sprintf("%v", v) }`
unfoldable pub format_query : Fields → Dict String → Dict String
format_query end d = d
format_query (field k v fs) d = format_query fs (insert k (format v) d)

abbrev pub format_q : Q → Dict String
format_q none = []
format_q (some fs) = format_query fs []

module _ (S : Sdk) where
  -- A reply with another code than OK comes back together with an error.
  abbrev pub rejection : S.TxResponse → Option Error
  rejection body = if S.code body == S.code_type_ok then none else some (message (S.raw_log body))

  -- The request struct of `EstimateFee`; "auto" leaves the gas to the node.
  abbrev pub estimate_request :
      String → StdSignMsg S.kinds → String → List (DecCoin S.kinds) → EstimateReq S.kinds
  estimate_request from msg gas_adjustment gas_prices = record {
    base_req = record {
      from = from;
      memo = msg.memo;
      chain_id = msg.chain_id;
      account_number = msg.account_number;
      sequence = msg.sequence;
      gas_prices = gas_prices;
      gas = "auto";
      gas_adjustment = gas_adjustment;
      simulate = false;
    };
    msgs = msg.msgs;
  }

module _ (S : Sdk) (D : Targets S) (c : Client S) where
  unfoldable pub get_tx_by_hash : Option Context → String → Action (World S) S.TxResponse
  get_tx_by_hash ctx tx_hash =
      wrapped "request json" (request_json S c (get_payload ctx ("/txs/" <> tx_hash)) D.tx_response)

  unfoldable pub query_tx : Option Context → QueryTxRequest → Action (World S) (QueryTxResponse S)
  query_tx ctx req = do
    q ← lift (query_fields req)
    let payload = record (get_payload ctx "/txs") { query = format_q q }
    wrapped "request json" (request_json S c payload D.query_tx)

  unfoldable pub broadcast_tx :
      Option Context → S.StdTx → BroadcastMode → Action (World S) (S.TxResponse × Option Error)
  broadcast_tx ctx tx mode = do
    raw ←
        wrapped "marshal request body"
          (lift (S.marshal_broadcast c.codec (record { tx = tx; mode = mode })))
    body ← wrapped "request json" (request_json S c (post_payload ctx "/txs" raw) D.tx_response)
    happen (slept 1)
    pure (body, rejection S body)

  unfoldable pub estimate_fee :
      Option Context
      → String
      → StdSignMsg S.kinds
      → String
      → List (DecCoin S.kinds)
      → Action (World S) S.StdFee
  estimate_fee ctx from msg gas_adjustment gas_prices = do
    raw ←
        wrapped "marshal request body" (
          lift (S.marshal_estimate c.codec (estimate_request S from msg gas_adjustment gas_prices)))
    body ←
        wrapped "request json"
          (request_json S c (post_payload ctx "/txs/estimate_fee" raw) D.estimate_fee)
    pure body.result.fee
