-- ===== src/Tests/EndToEnd.antt =====
-- An execution from the account to the node's reply.
use terra_go.Base.{◌≡◌, refl, none, some, ok, [], ◌∷◌}
use terra_go.Account.Requests.{session_of}
use terra_go.Bind.{execute}
use terra_go.Bind.EndToEnd.{execute_end_to_end}
use terra_go.Client.{new_terra_client}
use terra_go.Tests.Node.{test_sdk}
use terra_go.Tests.Replies.{test_targets, test_client, scripted, reply, script-Answers}
use terra_go.Tests.Accounts.{paid, node-Tells}
use terra_go.Tests.Keys.{key_bytes, test_key}

execute_end_to_end_example :
    (execute test_sdk test_targets
      (record { addr = 2 ∷ []; client = new_terra_client test_sdk (test_client "node/v1") })
      (some 0)
      []
      none
      (some paid)
      (session_of test_sdk
        (test_client "node/v1")
        test_key
        "columbus-4"
        none
        (scripted (reply "account" ∷ reply "balance" ∷ reply "tx" ∷ [])))).0
    ≡ ok (0, "[]")
execute_end_to_end_example =
    execute_end_to_end test_sdk test_targets 0 (test_client "node/v1")
      (record { priv_key = key_bytes }) "columbus-4" none
      (scripted (reply "account" ∷ reply "balance" ∷ reply "tx" ∷ []))
      (node-Tells (reply "tx" ∷ [])) (2 ∷ []) [] none paid refl refl refl
      (script-Answers (test_client "node/v1") test_targets.tx_response _ _ "tx" [] _ refl) refl
