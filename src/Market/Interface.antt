-- ===== src/Market/Interface.antt =====
-- interface/anchor/money-market/market/: the interfaces of market.go, market_exec.go,
-- market_exec_msg.go and market_query.go, and the market as their implementation.
use Prim.Native.String.{String}
use terra_go.Base.{ℕ, Option, List, Outcome, Action}
use terra_go.Http.{Context}
use terra_go.Sdk.{Sdk, Bytes, Coin, Msg}
use terra_go.World.{World}
use terra_go.Service.Bodies.{Targets}
use terra_go.Account.{KeyedAccount, Session}
use terra_go.Bind.Interface.{ContractInterface, base_contract}
use terra_go.Cw20.Queries.{TokenTargets}
use terra_go.Cw20.Interface.{TokenInterface, token_interface}
use terra_go.Market.{
  Market, borrow_stable_msg, repay_stable_msg, deposit_stable_msg, redeem_stable_msg, borrow_stable,
  repay_stable, deposit_stable, redeem_stable,
}
use terra_go.Market.Queries.{
  GetConfigResponse, GetStateResponse, GetEpochStateResponse, GetBorrowerInfoResponse,
  MarketTargets, get_config, get_state, get_epoch_state, get_borrower_info, get_borrower_infos,
}

module _ (S : Sdk) where
  -- Executions act on the session of the account.
  pub record Executor : Type 0 where
    pub borrow_stable : Option Context → S.Int → Option Bytes → Action (Session S) S.TxResponse
    pub repay_stable : Option Context → Coin S.kinds → Action (Session S) S.TxResponse
    pub deposit_stable : Option Context → Coin S.kinds → Action (Session S) S.TxResponse
    pub redeem_stable : Option Context → S.Int → Action (Session S) S.TxResponse

  pub record ExecutorMsg : Type 0 where
    pub borrow_stable_msg : KeyedAccount S → S.Int → Option Bytes → Outcome (List (Msg S.kinds))
    pub repay_stable_msg : KeyedAccount S → Coin S.kinds → Outcome (List (Msg S.kinds))
    pub deposit_stable_msg : KeyedAccount S → Coin S.kinds → Outcome (List (Msg S.kinds))
    pub redeem_stable_msg : KeyedAccount S → S.Int → Outcome (List (Msg S.kinds))

  pub record Querier : Type 0 where
    pub get_config : Option Context → Action (World S) (GetConfigResponse S)
    pub get_state : Option Context → Action (World S) (GetStateResponse S)
    pub get_epoch_state : Option Context → Option ℕ → Action (World S) (GetEpochStateResponse S)
    pub get_borrower_info :
        Option Context → Bytes → Option ℕ → Action (World S) (GetBorrowerInfoResponse S)
    pub get_borrower_infos :
        Option Context
        → Option Bytes
        → Option ℕ
        → Action (World S) (List (GetBorrowerInfoResponse S))

  -- The interface `Market`.
  pub record MarketInterface : Type 1 where
    pub stable_denom : String
    pub anchored : TokenInterface S
    pub base : ContractInterface S
    pub executor : Executor
    pub executor_msg : ExecutorMsg
    pub querier : Querier

module _ (S : Sdk) (D : Targets S) (m : Market S) where
  -- `var _ Executor = (*market)(nil)`
  abbrev pub market_executor : Executor S
  market_executor = record {
    borrow_stable = borrow_stable S D m;
    repay_stable = repay_stable S D m;
    deposit_stable = deposit_stable S D m;
    redeem_stable = redeem_stable S D m;
  }

  -- `var _ ExecutorMsg = (*market)(nil)`
  abbrev pub market_executor_msg : ExecutorMsg S
  market_executor_msg = record {
    borrow_stable_msg = borrow_stable_msg S m;
    repay_stable_msg = repay_stable_msg S m;
    deposit_stable_msg = deposit_stable_msg S m;
    redeem_stable_msg = redeem_stable_msg S m;
  }

  module _ (R : MarketTargets S) (T : TokenTargets S) where
    -- `var _ Querier = (*market)(nil)`
    abbrev pub market_querier : Querier S
    market_querier = record {
      get_config = get_config S R m.contract;
      get_state = get_state S R m.contract;
      get_epoch_state = get_epoch_state S R m.contract;
      get_borrower_info = get_borrower_info S R m.contract;
      get_borrower_infos = get_borrower_infos S R m.contract;
    }

    -- A market as `NewContract` returns it.
    abbrev pub market_interface : MarketInterface S
    market_interface = record {
      stable_denom = m.stable_denom;
      anchored = token_interface S D m.anchored T;
      base = base_contract S D m.contract;
      executor = market_executor;
      executor_msg = market_executor_msg;
      querier = market_querier;
    }
