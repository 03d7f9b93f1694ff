-- ===== src/Tests/Markets.antt =====
-- A market over scripted replies.
use text.Mathlib.TextEquality.{eq_iff}
use terra_go.Base.{◌≡◌, refl, ◌≢◌, some, ok, [], ◌∷◌, arith}
use terra_go.Value.{marshal}
use terra_go.Sdk.{Coin}
use terra_go.HttpClient.{request_json, request, new_request, do_request, decoded}
use terra_go.Service.Contract.{query_contract_store}
use terra_go.Bind.{query}
use terra_go.Cw20.Texts.{call_of, entry, entries3}
use terra_go.Cw20.Queries.{GetTokenInfoResponse, get_token_info, new_token_contract}
use terra_go.Market.{Market, repay_stable, deposit_stable, redeem_stable_msg}
use terra_go.Market.Guards.{invalid_denom, stable_refused, redeem_stable_msg_text}
use terra_go.Market.Queries.{MarketTargets, GetConfigResponse, get_config, new_market}
use terra_go.Market.Creation.{market_of, new_market_sound}
use terra_go.Tests.Node.{test_sdk, test_kinds}
use terra_go.Tests.Replies.{test_targets, scripted, reply, reads}
use terra_go.Tests.Accounts.{session}
use terra_go.Tests.Tokens.{client, token, owner, token_targets}

abbrev pub test_market : Market test_sdk
test_market = record {
  stable_denom = "uusd";
  anchored = token;
  contract = record { addr = 2 ∷ []; client = client };
}

abbrev krw : Coin test_kinds
krw = record { denom = "ukrw"; amount = 20 }

abbrev pub usd : Coin test_kinds
usd = record { denom = "uusd"; amount = 20 }

krw_is_other : krw.denom ≢ "uusd"
krw_is_other e = absurd (ground (arith, eq_iff krw.denom "uusd"))

stable_refused_example :
    (repay_stable test_sdk test_targets test_market (some 0) krw session
      ≡ (invalid_denom test_sdk krw, session))
    × (deposit_stable test_sdk test_targets test_market (some 0) krw session
        ≡ (invalid_denom test_sdk krw, session))
stable_refused_example =
    stable_refused test_sdk test_market krw test_targets (some 0) session krw_is_other

redeem_stable_msg_text_example :
    redeem_stable_msg test_sdk test_market owner 20
    ≡ call_of test_sdk token owner "send" (
        entries3
          (entry "amount" "20")
          (entry "contract" "terra1x")
          (entry "msg" "{\"redeem_stable\":{}}"))
redeem_stable_msg_text_example = redeem_stable_msg_text test_sdk test_market owner 20

abbrev test_config : GetConfigResponse test_sdk
test_config = record {
  owner_addr = [];
  a_terra_contract = 3 ∷ [];
  interest_model = [];
  distribution_model = [];
  overseer_contract = [];
  collector_contract = [];
  faucet_contract = [];
  stable_denom = "uusd";
  reserve_factor = 0;
  max_borrow_factor = 0;
}

abbrev pub market_targets : MarketTargets test_sdk
market_targets = record {
  config = reads "config" (record { height = 1; result = test_config });
  state = reads "none" (record {
    height = 1;
    result = record {
      total_liabilities = 0;
      total_reserves = 0;
      last_interest_updated = 0;
      last_reward_updated = 0;
      global_interest_index = 0;
      global_reward_index = 0;
      anc_emission_rate = 0;
    };
  });
  epoch_state =
      reads "none"
        (record { height = 1; result = record { exchange_rate = 0; a_token_supply = 0 } });
  borrower_info = reads "none" (record {
    height = 1;
    result = record {
      borrower = [];
      interest_index = 0;
      reward_index = 0;
      loan_amount = 0;
      pending_rewards = 0;
    };
  });
  borrower_infos = reads "none" (record { height = 1; result = record { borrower_infos = [] } });
}

made :
    (new_market test_sdk market_targets token_targets
      (some 0)
      (2 ∷ [])
      client
      (scripted (reply "config" ∷ reply "info" ∷ []))).0
    ≡ ok test_market
unfolding new_market new_token_contract get_config get_token_info query query_contract_store marshal
    request_json request new_request do_request decoded
made = refl

new_market_sound_example :
    (config : GetConfigResponse test_sdk) × (info : GetTokenInfoResponse test_sdk) × ((get_config
        test_sdk market_targets test_market.contract
        (some 0)
        (scripted (reply "config" ∷ reply "info" ∷ []))).0
      ≡ ok config)
    × ((get_token_info test_sdk token_targets
          (record test_market.contract { addr = config.a_terra_contract })
          (some 0)
          (get_config test_sdk market_targets test_market.contract
            (some 0)
            (scripted (reply "config" ∷ reply "info" ∷ []))).1).0
        ≡ ok info)
    × (test_market
        ≡ market_of test_sdk market_targets token_targets
            (some 0)
            (2 ∷ [])
            client
            (scripted (reply "config" ∷ reply "info" ∷ []))
            config
            info)
new_market_sound_example =
    new_market_sound test_sdk market_targets token_targets (some 0) (2 ∷ []) client
      (scripted (reply "config" ∷ reply "info" ∷ [])) made
