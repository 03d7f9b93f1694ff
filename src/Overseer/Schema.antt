-- ===== src/Overseer/Schema.antt =====
-- interface/anchor/money-market/overseer/overseer_schema.go: the structs of replies.
use Prim.Native.String.{String}
use terra_go.Base.{List}
use terra_go.Sdk.{Sdk, Bytes, Target}
use terra_go.Service.Bodies.{Reply}
use terra_go.Types.Tokens.{TokensHuman}

module _ (S : Sdk) where
  pub record GetConfigResponse : Type 0 where
    pub height : S.Uint
    pub owner_addr : Bytes
    pub oracle_contract : Bytes
    pub market_contract : Bytes
    pub liquidation_contract : Bytes
    pub collector_contract : Bytes
    pub distribution_threshold : S.Decimal
    pub target_deposit_rate : S.Decimal
    pub buffer_distribution_rate : S.Decimal
    pub anc_purchase_factor : S.Decimal
    pub stable_denom : String
    pub epoch_period : S.Uint
    pub price_time_frame : S.Uint

  pub record GetEpochStateResponse : Type 0 where
    pub height : S.Uint
    pub deposit_rate : S.Decimal
    pub prev_a_terra_supply : S.Uint
    pub prev_exchange_rate : S.Decimal
    pub last_executed_height : S.Uint

  pub record GetWhitelistResponse : Type 0 where
    pub height : S.Uint
    pub name : String
    pub symbol : String
    pub max_ltv : S.Decimal
    pub custody_contract : Bytes
    pub collateral_token : Bytes

  pub record GetCollateralsResponse : Type 0 where
    pub height : S.Uint
    pub borrower : Bytes
    pub collaterals : List (TokensHuman S)

  pub record BorrowerCollaterals : Type 0 where
    pub borrower : Bytes
    pub collaterals : List (TokensHuman S)

  pub record GetAllCollateralsResponse : Type 0 where
    pub height : S.Uint
    pub all_collaterals : List BorrowerCollaterals

  pub record GetDistributionParamsResponse : Type 0 where
    pub height : S.Uint
    pub deposit_rate : S.Decimal
    pub target_deposit_rate : S.Decimal
    pub threshold_deposit_rate : S.Decimal

  pub record GetBorrowLimitResponse : Type 0 where
    pub height : S.Uint
    pub borrower : Bytes
    pub borrow_limit : S.Int

  -- The structs that the overseer's replies are decoded into.
  pub record OverseerTargets : Type 0 where
    pub config : Target S.Codec (Reply S.Uint GetConfigResponse)
    pub epoch_state : Target S.Codec (Reply S.Uint GetEpochStateResponse)
    pub whitelist : Target S.Codec (Reply S.Uint GetWhitelistResponse)
    pub collaterals : Target S.Codec (Reply S.Uint GetCollateralsResponse)
    pub all_collaterals : Target S.Codec (Reply S.Uint GetAllCollateralsResponse)
    pub distribution_params : Target S.Codec (Reply S.Uint GetDistributionParamsResponse)
    pub borrow_limit : Target S.Codec (Reply S.Uint GetBorrowLimitResponse)
