-- ===== src/Tests/Contracts.antt =====
-- The execution of a contract over scripted replies.
use terra_go.Base.{
  ◌==◌, if◌then◌else◌, err, wrap, message, ◌≡◌, refl, none, some, ok, false, is_ok, [], ◌∷◌,
}
use terra_go.Base.Text.{show_ℤ}
use terra_go.Base.Int.{pos}
use terra_go.Value.{
  Value, obj, field, end, num, marshal, quote, join_entries, insert_sorted, escape_all,
}
use terra_go.HttpClient.{request_json, request, new_request, do_request, decode_amino, decoded}
use terra_go.Service.Auth.{get_account_info}
use terra_go.Service.Bank.{get_balance}
use terra_go.Key.{acc_address, sign_tx, raw_make_signature}
use terra_go.Account.{
  Session, update, create_tx, create_and_sign_tx, create_tx_with, with_defaults, choose_fee,
  unit_coins,
}
use terra_go.Account.Requests.{session_of}
use terra_go.Client.{new_terra_client}
use terra_go.Bind.{BaseContract, execute}
use terra_go.Bind.Execution.{execute_answered}
use terra_go.Tests.Node.{test_sdk}
use terra_go.Tests.Replies.{test_targets, test_client, scripted, reply, script-Answers}
use terra_go.Tests.Keys.{test_key, signed}
use terra_go.Tests.Accounts.{paid, paid_message}
use terra_go.Tests.Clients.{node}

abbrev contract : BaseContract test_sdk
contract = record { addr = 2 ∷ []; client = new_terra_client test_sdk (test_client "node/v1") }

abbrev answering : Session test_sdk
answering =
    session_of test_sdk (test_client "node/v1") test_key "columbus-4" none
      (scripted (reply "account" ∷ reply "balance" ∷ reply "tx" ∷ []))

abbrev silent : Session test_sdk
silent = session_of test_sdk (test_client "node/v1") test_key "columbus-4" none (scripted [])

signs :
    (create_and_sign_tx test_sdk test_targets (some 0) paid answering).0 ≡ ok (signed, paid_message)
unfolding create_and_sign_tx create_tx create_tx_with with_defaults choose_fee unit_coins update
    get_account_info get_balance sign_tx raw_make_signature acc_address request_json request
    new_request do_request decode_amino decoded
signs = refl

left :
    (create_and_sign_tx test_sdk test_targets (some 0) paid answering).1.world.net ≡ reply "tx" ∷ []
unfolding create_and_sign_tx create_tx create_tx_with with_defaults choose_fee unit_coins update
    get_account_info get_balance sign_tx raw_make_signature acc_address request_json request
    new_request do_request decode_amino decoded
left = refl

execute_answered_example :
    (execute test_sdk test_targets contract (some 0) [] none (some paid) answering).0
    ≡ (if 0 == 0 then ok (0, "[]") else err (wrap (message "[]") "broadcast tx"))
execute_answered_example =
    execute_answered test_sdk test_targets contract 0 [] none (some paid) answering {u = node}
      {raw = "block"} {n = []} {resp = (0, "[]")} (signed, paid_message) signs refl refl
      (rw left (script-Answers (test_client "node/v1") test_targets.tx_response _ _ "tx" [] _ refl))

unsigned : is_ok (create_and_sign_tx test_sdk test_targets (some 0) paid silent).0 ≡ false
unfolding create_and_sign_tx create_tx create_tx_with update get_account_info request_json request
    new_request do_request
unsigned = refl

abbrev transfer : Value
transfer = obj (field "amount" (num (pos 5)) end)

transfer_text : marshal transfer ≡ ok "{\"amount\":5}"
unfolding marshal quote escape_all join_entries insert_sorted show_ℤ
transfer_text = refl
