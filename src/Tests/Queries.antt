-- ===== src/Tests/Queries.antt =====
-- The queries of a token, a market and an overseer at concrete arguments.
use terra_go.Base.{ℕ, String, ◌≡◌, refl, none, some, List, [], ◌∷◌, err, message}
use terra_go.Base.Text.{show_ℤ, ◌<>◌}
use terra_go.Base.Text.Paths.{is_plain-IsPlain}
use terra_go.Sdk.{Target}
use terra_go.World.{sent_requests}
use terra_go.Bind.Queries.{store_request}
use terra_go.Cw20.Interface.{token_querier}
use terra_go.Cw20.Requests.{token_after, token_after-sent, all_allowances_query}
use terra_go.Market.Interface.{market_querier}
use terra_go.Market.Requests.{market_after, market_after-sent, borrower_info_query}
use terra_go.Overseer.Schema.{OverseerTargets}
use terra_go.Overseer.Interface.{overseer_querier}
use terra_go.Overseer.Requests.{overseer_after, overseer_after-sent, whitelist_call}
use terra_go.Tests.Node.{test_sdk}
use terra_go.Tests.Replies.{test_targets, scripted, reply}
use terra_go.Tests.Clients.{node}
use terra_go.Tests.Transactions.{v1_IsBase}
use terra_go.Tests.Tokens.{token, token_targets}
use terra_go.Tests.Markets.{test_market, market_targets}
use terra_go.Bind.Entries.{method_text}
use terra_go.Value.{quote}

-- With a limit, and from the beginning.
token_after-sent_example :
    sent_requests
      (token_after test_sdk
        (token_querier test_sdk test_targets token token_targets)
        (some 0)
        (all_allowances_query [] none (some 20))
        (scripted (reply "none" ∷ []))).trace
    ≡ store_request 0 node ("v1" ∷ []) "terra1x" (
        method_text test_sdk "all_allowances"
          ((quote "limit" <> ":" <> "20") ∷ (quote "owner" <> ":" <> quote "terra1x") ∷ []))
      ∷ []
unfolding show_ℤ
token_after-sent_example =
    token_after-sent test_sdk test_targets token_targets token (scripted (reply "none" ∷ []))
      {u = node} 0 ("v1" ∷ []) (all_allowances_query [] none (some 20)) refl v1_IsBase
      (is_plain-IsPlain "terra1x" refl)

-- Without a height.
market_after-sent_example :
    sent_requests
      (market_after test_sdk
        (market_querier test_sdk test_targets test_market market_targets token_targets)
        (some 0)
        (borrower_info_query [] none)
        (scripted [])).trace
    ≡ store_request 0 node
        ("v1" ∷ [])
        "terra1x"
        (method_text test_sdk "borrower_info" ((quote "borrower" <> ":" <> quote "terra1x") ∷ []))
      ∷ []
market_after-sent_example =
    market_after-sent test_sdk test_targets market_targets token_targets test_market (scripted [])
      {u = node} 0 ("v1" ∷ []) (borrower_info_query [] none) refl v1_IsBase
      (is_plain-IsPlain "terra1x" refl)

-- A decoder that knows no text.
abbrev refuses : {A : Type 0} → Target (List (ℕ × String)) A
refuses = record {
  decode_json = λ s. err (message "invalid");
  unmarshal_json = λ _ s. err (message "invalid");
}

abbrev overseer_targets : OverseerTargets test_sdk
overseer_targets = record {
  config = refuses;
  epoch_state = refuses;
  whitelist = refuses;
  collaterals = refuses;
  all_collaterals = refuses;
  distribution_params = refuses;
  borrow_limit = refuses;
}

-- One token, and no more than 20 entries.
overseer_after-sent_example :
    sent_requests
      (overseer_after test_sdk
        (overseer_querier test_sdk overseer_targets test_market.contract)
        (some 0)
        (whitelist_call (some []) none (some 20))
        (scripted (reply "none" ∷ []))).trace
    ≡ store_request 0 node ("v1" ∷ []) "terra1x" (
        method_text test_sdk "whitelist" (
          (quote "collateral_token" <> ":" <> quote "terra1x")
          ∷ (quote "limit" <> ":" <> "20")
          ∷ []))
      ∷ []
unfolding show_ℤ
overseer_after-sent_example =
    overseer_after-sent test_sdk overseer_targets test_market.contract
      (scripted (reply "none" ∷ [])) {u = node} 0 ("v1" ∷ [])
      (whitelist_call (some []) none (some 20)) refl v1_IsBase (is_plain-IsPlain "terra1x" refl)
