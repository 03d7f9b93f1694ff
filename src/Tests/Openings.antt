-- ===== src/Tests/Openings.antt =====
-- An account that is opened over scripted replies.
use terra_go.Base.{◌≡◌, refl, some, ok, [], ◌∷◌, String}
use terra_go.World.{World}
use terra_go.HttpClient.{request_json, request, new_request, do_request, decode_amino, decoded}
use terra_go.Service.Auth.{get_account_info}
use terra_go.Service.Tendermint.{get_node_info}
use terra_go.Tests.Node.{test_sdk}
use terra_go.Tests.Replies.{test_targets, scripted, reply}
use terra_go.Tests.Keys.{test_key}
use terra_go.Tests.Tokens.{client}
use terra_go.Account.{update, updated, KeyedAccount, new_account}
use terra_go.Key.{acc_address}
use terra_go.Account.Opening.{new_account_sound}

abbrev world : World test_sdk
world = scripted (reply "node" ∷ reply "account" ∷ [])

abbrev opened : KeyedAccount test_sdk
opened = record { key = test_key; client = client; chain_id = "columbus"; account = some (7, 5) }

opens : (new_account test_sdk test_targets (some 0) client test_key world).0 ≡ ok opened
unfolding new_account updated update get_node_info get_account_info request_json request new_request
    do_request decode_amino decoded
opens = refl

new_account_sound_example :
    (info : String) × ((get_node_info test_sdk test_targets client.tendermint (some 0) world).0
      ≡ ok info)
    × (test_key ≡ test_key)
    × (client ≡ client)
    × ("columbus" ≡ info)
    × ((get_account_info test_sdk test_targets client.auth
          (some 0)
          (acc_address test_sdk test_key)
          (get_node_info test_sdk test_targets client.tendermint (some 0) world).1).0
        ≡ ok (some (7, 5)))
new_account_sound_example =
    new_account_sound test_sdk test_targets (some 0) client test_key world opened opens
