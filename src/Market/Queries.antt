-- ===== src/Market/Queries.antt =====
-- interface/anchor/money-market/market/market_query.go, market_schema.go, and NewContract (market.go).
use Prim.Native.String.{String}
use terra_go.Base.{ℕ, Option, List, Action, pure, wrapped, ◌>>=◌}
use terra_go.Value.{end}
use terra_go.Http.{Context}
use terra_go.Sdk.{Sdk, Bytes, Target}
use terra_go.World.{World}
use terra_go.Service.Bodies.{Reply}
use terra_go.Client.{TerraClient}
use terra_go.Bind.{BaseContract, query}
use terra_go.Cw20.{address_field}
use terra_go.Cw20.Queries.{TokenTargets, method_query, put_address, put_uint, new_token_contract}
use terra_go.Market.{Market}

module _ (S : Sdk) where
  pub record GetConfigResponse : Type 0 where
    pub owner_addr : Bytes
    pub a_terra_contract : Bytes
    pub interest_model : Bytes
    pub distribution_model : Bytes
    pub overseer_contract : Bytes
    pub collector_contract : Bytes
    pub faucet_contract : Bytes
    pub stable_denom : String
    pub reserve_factor : S.Decimal
    pub max_borrow_factor : S.Decimal

  pub record GetStateResponse : Type 0 where
    pub total_liabilities : S.Decimal
    pub total_reserves : S.Decimal
    pub last_interest_updated : ℕ
    pub last_reward_updated : ℕ
    pub global_interest_index : S.Decimal
    pub global_reward_index : S.Decimal
    pub anc_emission_rate : S.Decimal

  pub record GetEpochStateResponse : Type 0 where
    pub exchange_rate : S.Decimal
    pub a_token_supply : S.Int

  pub record GetBorrowerInfoResponse : Type 0 where
    pub borrower : Bytes
    pub interest_index : S.Decimal
    pub reward_index : S.Decimal
    pub loan_amount : S.Int
    pub pending_rewards : S.Decimal

  pub record GetBorrowerInfosResponse : Type 0 where
    pub borrower_infos : List GetBorrowerInfoResponse

  -- The structs that the market's replies are decoded into.
  pub record MarketTargets : Type 0 where
    pub config : Target S.Codec (Reply S.Uint GetConfigResponse)
    pub state : Target S.Codec (Reply S.Uint GetStateResponse)
    pub epoch_state : Target S.Codec (Reply S.Uint GetEpochStateResponse)
    pub borrower_info : Target S.Codec (Reply S.Uint GetBorrowerInfoResponse)
    pub borrower_infos : Target S.Codec (Reply S.Uint GetBorrowerInfosResponse)

module _ (S : Sdk) (R : MarketTargets S) (b : BaseContract S) (ctx : Option Context) where
  unfoldable pub get_config : Action (World S) (GetConfigResponse S)
  get_config = do resp ← query S b ctx (method_query S "config" end) R.config; pure resp.result

  unfoldable pub get_state : Action (World S) (GetStateResponse S)
  get_state = do resp ← query S b ctx (method_query S "state" end) R.state; pure resp.result

  unfoldable pub get_epoch_state : Option ℕ → Action (World S) (GetEpochStateResponse S)
  get_epoch_state height = do
    let fields = put_uint S "block_height" height end
    resp ← query S b ctx (method_query S "epoch_state" fields) R.epoch_state
    pure resp.result

  unfoldable pub get_borrower_info : Bytes → Option ℕ → Action (World S) (GetBorrowerInfoResponse S)
  get_borrower_info borrower height = do
    let fields = put_uint S "block_height" height (address_field S "borrower" borrower end)
    resp ← query S b ctx (method_query S "borrower_info" fields) R.borrower_info
    pure resp.result

  unfoldable pub get_borrower_infos :
      Option Bytes → Option ℕ → Action (World S) (List (GetBorrowerInfoResponse S))
  get_borrower_infos start_after limit = do
    let fields = put_uint S "limit" limit (put_address S "start_after" start_after end)
    resp ← query S b ctx (method_query S "borrower_infos" fields) R.borrower_infos
    pure resp.result.borrower_infos

module _ (S : Sdk) (R : MarketTargets S) (T : TokenTargets S) where
  -- `NewContract`
  unfoldable pub new_market : Option Context → Bytes → TerraClient S → Action (World S) (Market S)
  new_market ctx addr client = do
    let b : BaseContract S = record { addr = addr; client = client }
    config ← wrapped "fetch market contract config" (get_config S R b ctx)
    anchored ←
        wrapped "new cw20 token contract"
          (new_token_contract S T ctx config.a_terra_contract client)
    pure (record { stable_denom = config.stable_denom; anchored = anchored; contract = b })
