-- ===== src/Cw20/Interface.antt =====
-- interface/standard/cw20/: the interfaces of token.go, token_exec.go, token_exec_msg.go and
-- token_query.go, and the token as their implementation.
use Prim.Native.String.{String}
use terra_go.Base.{ℕ, Option, List, Outcome, Action}
use terra_go.Value.{Value}
use terra_go.Http.{Context}
use terra_go.Sdk.{Sdk, Bytes, Msg}
use terra_go.World.{World}
use terra_go.Service.Bodies.{Targets}
use terra_go.Account.{KeyedAccount, Session}
use terra_go.Bind.Interface.{ContractInterface, base_contract}
use terra_go.Cw20.{
  Token, transfer_msg, transfer_from_msg, burn_msg, burn_from_msg, send_msg, send_from_msg,
  mint_msg, increase_allowance_msg, decrease_allowance_msg,
}
use terra_go.Cw20.Execution.{
  transfer, transfer_from, burn, burn_from, send, send_from, mint, increase_allowance,
  decrease_allowance,
}
use terra_go.Cw20.Queries.{
  GetTokenBalanceResponse, GetTokenInfoResponse, GetMinterResponse, GetAllowanceResponse,
  TokenTargets, get_balance, get_token_info, get_minter, get_allowance, get_all_allowances,
  get_all_accounts,
}

module _ (S : Sdk) where
  -- Executions act on the session of the account.
  pub record Executor : Type 0 where
    pub transfer : Option Context → Bytes → S.Int → Action (Session S) S.TxResponse
    pub transfer_from : Option Context → Bytes → Bytes → S.Int → Action (Session S) S.TxResponse
    pub burn : Option Context → S.Int → Action (Session S) S.TxResponse
    pub burn_from : Option Context → Bytes → S.Int → Action (Session S) S.TxResponse
    pub send : Option Context → Bytes → S.Int → Value → Action (Session S) S.TxResponse
    pub send_from : Option Context → Bytes → Bytes → S.Int → Value → Action (Session S) S.TxResponse
    pub mint : Option Context → Bytes → S.Int → Action (Session S) S.TxResponse
    pub increase_allowance :
        Option Context → Bytes → S.Int → Value → Action (Session S) S.TxResponse
    pub decrease_allowance :
        Option Context → Bytes → S.Int → Value → Action (Session S) S.TxResponse

  pub record ExecutorMsg : Type 0 where
    pub transfer_msg : KeyedAccount S → Bytes → S.Int → Outcome (List (Msg S.kinds))
    pub transfer_from_msg : KeyedAccount S → Bytes → Bytes → S.Int → Outcome (List (Msg S.kinds))
    pub burn_msg : KeyedAccount S → S.Int → Outcome (List (Msg S.kinds))
    pub burn_from_msg : KeyedAccount S → Bytes → S.Int → Outcome (List (Msg S.kinds))
    pub send_msg : KeyedAccount S → Bytes → S.Int → Value → Outcome (List (Msg S.kinds))
    pub send_from_msg :
        KeyedAccount S → Bytes → Bytes → S.Int → Value → Outcome (List (Msg S.kinds))
    pub mint_msg : KeyedAccount S → Bytes → S.Int → Outcome (List (Msg S.kinds))
    pub increase_allowance_msg :
        KeyedAccount S → Bytes → S.Int → Value → Outcome (List (Msg S.kinds))
    pub decrease_allowance_msg :
        KeyedAccount S → Bytes → S.Int → Value → Outcome (List (Msg S.kinds))

  pub record Querier : Type 0 where
    pub get_balance : Option Context → Bytes → Action (World S) (GetTokenBalanceResponse S)
    pub get_token_info : Option Context → Action (World S) (GetTokenInfoResponse S)
    pub get_minter : Option Context → Action (World S) (GetMinterResponse S)
    pub get_allowance : Option Context → Bytes → Bytes → Action (World S) (GetAllowanceResponse S)
    pub get_all_allowances :
        Option Context
        → Bytes
        → Option Bytes
        → Option ℕ
        → Action (World S) (List (GetAllowanceResponse S))
    pub get_all_accounts : Option Context → Option Bytes → Option ℕ → Action (World S) (List Bytes)

  -- The interface `Token`.
  pub record TokenInterface : Type 1 where
    pub name : String
    pub symbol : String
    pub base : ContractInterface S
    pub executor : Executor
    pub executor_msg : ExecutorMsg
    pub querier : Querier

module _ (S : Sdk) (D : Targets S) (t : Token S) where
  -- `var _ Executor = (*token)(nil)`
  abbrev pub token_executor : Executor S
  token_executor = record {
    transfer = transfer S D t;
    transfer_from = transfer_from S D t;
    burn = burn S D t;
    burn_from = burn_from S D t;
    send = send S D t;
    send_from = send_from S D t;
    mint = mint S D t;
    increase_allowance = increase_allowance S D t;
    decrease_allowance = decrease_allowance S D t;
  }

  -- `var _ ExecutorMsg = (*token)(nil)`
  abbrev pub token_executor_msg : ExecutorMsg S
  token_executor_msg = record {
    transfer_msg = transfer_msg S t;
    transfer_from_msg = transfer_from_msg S t;
    burn_msg = burn_msg S t;
    burn_from_msg = burn_from_msg S t;
    send_msg = send_msg S t;
    send_from_msg = send_from_msg S t;
    mint_msg = mint_msg S t;
    increase_allowance_msg = increase_allowance_msg S t;
    decrease_allowance_msg = decrease_allowance_msg S t;
  }

  module _ (R : TokenTargets S) where
    -- `var _ Querier = (*token)(nil)`
    abbrev pub token_querier : Querier S
    token_querier = record {
      get_balance = get_balance S R t.contract;
      get_token_info = get_token_info S R t.contract;
      get_minter = get_minter S R t.contract;
      get_allowance = get_allowance S R t.contract;
      get_all_allowances = get_all_allowances S R t.contract;
      get_all_accounts = get_all_accounts S R t.contract;
    }

    -- A token as `NewTokenContract` returns it.
    abbrev pub token_interface : TokenInterface S
    token_interface = record {
      name = t.name;
      symbol = t.symbol;
      base = base_contract S D t.contract;
      executor = token_executor;
      executor_msg = token_executor_msg;
      querier = token_querier;
    }
