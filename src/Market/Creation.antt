-- ===== src/Market/Creation.antt =====
-- What `NewContract` (market.go) makes of the replies.
use terra_go.Base.{ok_value, ◌≡◌, ok, arith, Option}
use terra_go.Http.{Context}
use terra_go.Sdk.{Sdk, Bytes}
use terra_go.World.{World}
use terra_go.Client.{TerraClient}
use terra_go.Bind.{BaseContract}
use terra_go.Cw20.Queries.{TokenTargets, GetTokenInfoResponse, get_token_info, new_token_contract}
use terra_go.Market.{Market}
use terra_go.Market.Queries.{MarketTargets, GetConfigResponse, get_config, new_market}

module _ (S : Sdk) (R : MarketTargets S) (T : TokenTargets S) (ctx : Option Context) (addr : Bytes)
    (client : TerraClient S) (w : World S) where
  abbrev pub market_at : BaseContract S
  market_at = record { addr = addr; client = client }

  -- The market of a configuration, and of what its anchored token tells.
  abbrev pub market_of : GetConfigResponse S → GetTokenInfoResponse S → Market S
  market_of config info = record {
    stable_denom = config.stable_denom;
    anchored = record {
      name = info.name;
      symbol = info.symbol;
      contract = record market_at { addr = config.a_terra_contract };
    };
    contract = market_at;
  }

  -- A market that `NewContract` returns has the address and the client that it was given and the
  -- denomination of its configuration, and its anchored token has the address that the configuration
  -- names, the same client, and the name and the symbol that the token at that address tells.
  pub new_market_sound :
      {m : Market S}
      → (new_market S R T ctx addr client w).0 ≡ ok m
      → (config : GetConfigResponse S) × (info : GetTokenInfoResponse S) × ((get_config S R
            market_at ctx w).0
          ≡ ok config)
        × ((get_token_info S T
              (record market_at { addr = config.a_terra_contract })
              ctx
              (get_config S R market_at ctx w).1).0
            ≡ ok info)
        × (m ≡ market_of config info)
  unfolding new_market new_token_contract
  new_market_sound e =
      let (config, done) = ok_value (get_config S R market_at ctx w).0 (ground arith) in
      let token : BaseContract S = record market_at { addr = config.a_terra_contract } in
      let (info, told) =
        ok_value (get_token_info S T token ctx (get_config S R market_at ctx w).1).0
          (ground arith) in
      (config, info, done, told, ground arith)
