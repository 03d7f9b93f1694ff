-- ===== src/Tests/Interfaces.antt =====
-- The calls of a token and of a market through their interfaces.
use terra_go.Base.{◌≡◌, List, [], ◌∷◌, refl}
use terra_go.Base.Text.{◌<>◌}
use terra_go.Sdk.{execute_contract, Msg}
use terra_go.Cw20.Texts.{entry, entries2, transfer_msgs_text}
use terra_go.Cw20.Calls.{IsCallOf, messages_of-IsCallOf, transfer_call}
use terra_go.Market.Guards.{stable_accepted}
use terra_go.Market.Calls.{market_messages-IsMessageFor, repay_call}
use terra_go.Tests.Node.{test_sdk, test_kinds}
use terra_go.Tests.Replies.{test_targets}
use terra_go.Tests.Tokens.{token, owner, token_targets}
use terra_go.Tests.Markets.{test_market, market_targets, usd}
use terra_go.Key.{acc_address}
use terra_go.Value.{quote}

abbrev transferring : List (Msg test_kinds)
transferring =
    execute_contract (record {
      sender = acc_address test_sdk owner.key;
      contract = 3 ∷ [];
      execute_msg =
          "{"
          <> (quote "transfer"
              <> ":"
              <> entries2 (entry "amount" "20") (entry "recipient" "terra1x"))
          <> "}";
      coins = [];
    })
    ∷ []

messages_of-IsCallOf_example :
    IsCallOf test_sdk
      (3 ∷ [])
      owner
      "transfer"
      (λ text. text ≡ entries2 (entry "amount" "20") (entry "recipient" "terra1x"))
      []
      transferring
messages_of-IsCallOf_example =
    messages_of-IsCallOf test_sdk test_targets token_targets token owner (transfer_call [] 20)
      transferring (transfer_msgs_text test_sdk token owner [] [] 20).0

abbrev repaying : List (Msg test_kinds)
repaying =
    execute_contract (record {
      sender = acc_address test_sdk owner.key;
      contract = 2 ∷ [];
      execute_msg = "{" <> (quote "repay_stable" <> ":" <> "{}") <> "}";
      coins = usd ∷ [];
    })
    ∷ []

market_messages-IsMessageFor_example :
    (usd.denom ≡ "uusd")
    × IsCallOf test_sdk (2 ∷ []) owner "repay_stable" (λ text. text ≡ "{}") (usd ∷ []) repaying
market_messages-IsMessageFor_example =
    market_messages-IsMessageFor test_sdk test_targets market_targets token_targets test_market
      owner (repay_call usd) repaying (stable_accepted test_sdk test_market usd owner refl).0
