-- ===== src/Service/Bodies.antt =====
-- The structs that the services decode replies into, and how the decoders fill them.
use Prim.Native.String.{String}
use terra_go.Base.{Option, none, List, []}
use terra_go.Http.{Context}
use terra_go.Sdk.{Sdk, Target, Coin}
use terra_go.HttpClient.{RequestPayload}

-- The anonymous structs with a height and a result.
pub record Reply (H R : Type 0) : Type 0 where
  pub height : H
  pub result : R

pub record NodeInfoBody (S : Sdk) : Type 0 where
  pub node_info : S.NodeInfo

pub record BlockBody (S : Sdk) : Type 0 where
  pub block_id : S.BlockId
  pub block : S.Block

pub record FeeBody (S : Sdk) : Type 0 where
  pub fee : S.StdFee

-- service/transaction_schema.go
pub record QueryTxResponse (S : Sdk) : Type 0 where
  pub total_count : S.Int
  pub count : S.Int
  pub page_number : S.Int
  pub page_total : S.Int
  pub limit : S.Int
  pub txs : List S.TxResponse

-- One target for each struct. An account is an interface value, and may be nil.
pub record Targets (S : Sdk) : Type 0 where
  pub account_info : Target S.Codec (Reply String (Option S.ChainAccount))
  pub balance : Target S.Codec (Reply S.Uint (List (Coin S.kinds)))
  pub code_info : Target S.Codec (Reply String S.CodeInfo)
  pub contract_info : Target S.Codec (Reply String S.ContractInfo)
  pub node_info : Target S.Codec (NodeInfoBody S)
  pub sync_status : Target S.Codec S.SyncingResponse
  pub block : Target S.Codec (BlockBody S)
  pub tx_response : Target S.Codec S.TxResponse
  pub query_tx : Target S.Codec (QueryTxResponse S)
  pub estimate_fee : Target S.Codec (Reply String (FeeBody S))
  pub tax_rate : Target S.Codec (Reply S.Uint S.Decimal)
  pub tax_cap : Target S.Codec (Reply S.Uint S.Int)

-- The payload literals of the services that only read, and of those that send a body.
abbrev pub get_payload : Option Context → String → RequestPayload
get_payload ctx path = record {
  context = ctx;
  method = "GET";
  path = path;
  query = [];
  body = none;
}

abbrev pub post_payload : Option Context → String → String → RequestPayload
post_payload ctx path body = record {
  context = ctx;
  method = "POST";
  path = path;
  query = [];
  body = Option.some body;
}
