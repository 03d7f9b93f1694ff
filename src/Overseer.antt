-- ===== src/Overseer.antt =====
-- interface/anchor/money-market/overseer/: the overseer contract and its queries (overseer.go,
-- overseer_query.go); its files of messages and executions are empty.
pub mod Schema
pub mod Interface
pub mod Requests
use terra_go.Base.{ℕ, Option, Action, pure, ◌>>=◌}
use terra_go.Value.{Fields, end}
use terra_go.Http.{Context}
use terra_go.Sdk.{Sdk, Bytes, Target}
use terra_go.World.{World}
use terra_go.Service.Bodies.{Reply}
use terra_go.Client.{TerraClient}
use terra_go.Bind.{BaseContract, query}
use terra_go.Cw20.{address_field}
use terra_go.Cw20.Queries.{method_query, put_address, put_uint}
use terra_go.Overseer.Schema.{
  GetConfigResponse, GetEpochStateResponse, GetWhitelistResponse, GetCollateralsResponse,
  GetAllCollateralsResponse, GetDistributionParamsResponse, GetBorrowLimitResponse, OverseerTargets,
}

module _ (S : Sdk) where
  -- `NewContract`; the logger is left out.
  abbrev pub new_overseer : Bytes → TerraClient S → BaseContract S
  new_overseer addr client = record { addr = addr; client = client }

module _ (S : Sdk) (R : OverseerTargets S) (b : BaseContract S) (ctx : Option Context) where
  -- `resp.Result.Height = resp.Height`
  unfoldable pub get_config : Action (World S) (GetConfigResponse S)
  get_config = do
    resp ← query S b ctx (method_query S "config" end) R.config
    pure (record resp.result { height = resp.height })

  unfoldable pub get_epoch_state : Action (World S) (GetEpochStateResponse S)
  get_epoch_state = do
    resp ← query S b ctx (method_query S "epoch_state" end) R.epoch_state
    pure (record resp.result { height = resp.height })

  unfoldable pub get_whitelist :
      Option Bytes → Option Bytes → Option ℕ → Action (World S) (GetWhitelistResponse S)
  get_whitelist collateral start_after limit = do
    let fields =
        put_uint S "limit" limit (
          put_address S "start_after" start_after (put_address S "collateral_token" collateral end))
    resp ← query S b ctx (method_query S "whitelist" fields) R.whitelist
    pure (record resp.result { height = resp.height })

  unfoldable pub get_collaterals : Bytes → Action (World S) (GetCollateralsResponse S)
  get_collaterals borrower = do
    let fields = address_field S "borrower" borrower end
    resp ← query S b ctx (method_query S "collaterals" fields) R.collaterals
    pure (record resp.result { height = resp.height })

  unfoldable pub get_all_collaterals :
      Option Bytes → Option ℕ → Action (World S) (GetAllCollateralsResponse S)
  get_all_collaterals start_after limit = do
    let fields = put_uint S "limit" limit (put_address S "start_after" start_after end)
    resp ← query S b ctx (method_query S "all_collaterals" fields) R.all_collaterals
    pure (record resp.result { height = resp.height })

  unfoldable pub get_distribution_params : Action (World S) (GetDistributionParamsResponse S)
  get_distribution_params = do
    resp ← query S b ctx (method_query S "distribution_params" end) R.distribution_params
    pure (record resp.result { height = resp.height })

  unfoldable pub get_borrow_limit : Bytes → Option ℕ → Action (World S) (GetBorrowLimitResponse S)
  get_borrow_limit borrower block_time = do
    let fields = put_uint S "block_time" block_time (address_field S "borrower" borrower end)
    resp ← query S b ctx (method_query S "borrow_limit" fields) R.borrow_limit
    pure (record resp.result { height = resp.height })
