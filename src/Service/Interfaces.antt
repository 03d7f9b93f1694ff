-- ===== src/Service/Interfaces.antt =====
-- The interfaces of service/ and their implementations over one HTTP client.
use Prim.Native.String.{String}
use terra_go.Base.{ℕ, Option, List, Action, Error}
use terra_go.Types.{BroadcastMode}
use terra_go.Value.{Value}
use terra_go.Http.{Context}
use terra_go.Sdk.{Sdk, Bytes, Coin, DecCoin, StdSignMsg, Target}
use terra_go.World.{World}
use terra_go.HttpClient.{Client}
use terra_go.Service.Bodies.{Targets, QueryTxResponse}
use terra_go.Service.Auth.{get_account_info}
use terra_go.Service.Bank.{GetBalanceResponse, get_balance}
use terra_go.Service.Contract.{get_code_id, get_contract_info, query_contract_store}
use terra_go.Service.Tendermint.{get_node_info, get_sync_status, get_block_by_height}
use terra_go.Service.Transaction.{
  QueryTxRequest, get_tx_by_hash, query_tx, broadcast_tx, estimate_fee,
}
use terra_go.Service.Treasury.{
  GetTaxRateResponse, GetTaxCapResponse, get_tax_rate, get_tax_cap, calculate_tax,
}

module _ (S : Sdk) where
  pub record AuthService : Type 0 where
    pub get_account_info : Option Context → Bytes → Action (World S) (Option S.ChainAccount)

  pub record BankService : Type 0 where
    pub get_balance : Option Context → Bytes → Action (World S) (GetBalanceResponse S)

  pub record ContractService : Type 1 where
    pub get_code_id : Option Context → ℕ → Action (World S) S.CodeInfo
    pub get_contract_info : Option Context → Bytes → Action (World S) S.ContractInfo
    pub query_contract_store :
        {A : Type 0} → Option Context → Bytes → Value → Target S.Codec A → Action (World S) A

  pub record TendermintService : Type 0 where
    pub get_node_info : Option Context → Action (World S) S.NodeInfo
    pub get_sync_status : Option Context → Action (World S) S.SyncingResponse
    pub get_block_by_height : Option Context → Option ℕ → Action (World S) (S.BlockId × S.Block)

  -- A broadcast may return a reply and an error beside it.
  pub record TransactionService : Type 0 where
    pub get_tx_by_hash : Option Context → String → Action (World S) S.TxResponse
    pub query_tx : Option Context → QueryTxRequest → Action (World S) (QueryTxResponse S)
    pub broadcast_tx :
        Option Context → S.StdTx → BroadcastMode → Action (World S) (S.TxResponse × Option Error)
    pub estimate_fee :
        Option Context
        → String
        → StdSignMsg S.kinds
        → String
        → List (DecCoin S.kinds)
        → Action (World S) S.StdFee

  pub record TreasuryService : Type 0 where
    pub calculate_tax : Option Context → Coin S.kinds → Action (World S) S.Int
    pub get_tax_rate : Option Context → Action (World S) (GetTaxRateResponse S)
    pub get_tax_cap : Option Context → String → Action (World S) (GetTaxCapResponse S)

module _ (S : Sdk) (D : Targets S) (c : Client S) where
  -- `NewAuthService`, and the others.
  abbrev pub new_auth_service : AuthService S
  new_auth_service = record { get_account_info = get_account_info S D c }

  abbrev pub new_bank_service : BankService S
  new_bank_service = record { get_balance = get_balance S D c }

  abbrev pub new_contract_service : ContractService S
  new_contract_service = record {
    get_code_id = get_code_id S D c;
    get_contract_info = get_contract_info S D c;
    query_contract_store = λ ctx addr query resp. query_contract_store S c ctx addr query resp;
  }

  abbrev pub new_tendermint_service : TendermintService S
  new_tendermint_service = record {
    get_node_info = get_node_info S D c;
    get_sync_status = get_sync_status S D c;
    get_block_by_height = get_block_by_height S D c;
  }

  abbrev pub new_transaction_service : TransactionService S
  new_transaction_service = record {
    get_tx_by_hash = get_tx_by_hash S D c;
    query_tx = query_tx S D c;
    broadcast_tx = broadcast_tx S D c;
    estimate_fee = estimate_fee S D c;
  }

  abbrev pub new_treasury_service : TreasuryService S
  new_treasury_service = record {
    calculate_tax = calculate_tax S D c;
    get_tax_rate = get_tax_rate S D c;
    get_tax_cap = get_tax_cap S D c;
  }
