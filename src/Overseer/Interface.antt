-- ===== src/Overseer/Interface.antt =====
-- interface/anchor/money-market/overseer/: the interface of overseer_query.go, and the overseer as its
-- implementation. The interface `Overseer` of overseer.go is the base contract alone.
use terra_go.Base.{ℕ, Option, Action}
use terra_go.Http.{Context}
use terra_go.Sdk.{Sdk, Bytes}
use terra_go.World.{World}
use terra_go.Bind.{BaseContract}
use terra_go.Overseer.Schema.{
  GetConfigResponse, GetEpochStateResponse, GetWhitelistResponse, GetCollateralsResponse,
  GetAllCollateralsResponse, GetDistributionParamsResponse, GetBorrowLimitResponse, OverseerTargets,
}
use terra_go.Overseer.{
  get_config, get_epoch_state, get_whitelist, get_collaterals, get_all_collaterals,
  get_distribution_params, get_borrow_limit,
}

module _ (S : Sdk) where
  pub record Querier : Type 0 where
    pub get_config : Option Context → Action (World S) (GetConfigResponse S)
    pub get_epoch_state : Option Context → Action (World S) (GetEpochStateResponse S)
    pub get_whitelist :
        Option Context
        → Option Bytes
        → Option Bytes
        → Option ℕ
        → Action (World S) (GetWhitelistResponse S)
    pub get_collaterals : Option Context → Bytes → Action (World S) (GetCollateralsResponse S)
    pub get_all_collaterals :
        Option Context → Option Bytes → Option ℕ → Action (World S) (GetAllCollateralsResponse S)
    pub get_distribution_params :
        Option Context → Action (World S) (GetDistributionParamsResponse S)
    pub get_borrow_limit :
        Option Context → Bytes → Option ℕ → Action (World S) (GetBorrowLimitResponse S)

  -- `var _ Querier = (*overseer)(nil)`
  abbrev pub overseer_querier : OverseerTargets S → BaseContract S → Querier
  overseer_querier R b = record {
    get_config = get_config S R b;
    get_epoch_state = get_epoch_state S R b;
    get_whitelist = get_whitelist S R b;
    get_collaterals = get_collaterals S R b;
    get_all_collaterals = get_all_collaterals S R b;
    get_distribution_params = get_distribution_params S R b;
    get_borrow_limit = get_borrow_limit S R b;
  }
