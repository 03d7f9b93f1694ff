-- ===== src/Tests/Accounts.antt =====
-- An account over scripted replies.
use terra_go.Base.{false, false, ℕ, ◌≡◌, refl, ◌⊎◌, none, some, ok, ap, is_ok, List, [], ◌∷◌}
use terra_go.Base.Text.Paths.{is_plain-IsPlain}
use terra_go.Http.{HttpResponse}
use terra_go.Sdk.{Coin, StdSignMsg}
use terra_go.World.{sent_requests}
use terra_go.Account.{Session, CreateTxOptions, update, create_tx, create_and_sign_tx, unit_coins}
use terra_go.Service.Auth.{get_account_info}
use terra_go.Account.Creation.{Describes, create_tx_sound}
use terra_go.Account.Updates.{update_atomic, create_tx-update}
use terra_go.Account.Requests.{
  Tells, session_of, create_tx_answered, create_tx_requests, account_request, balance_request,
}
use terra_go.Tests.Node.{test_sdk, test_kinds}
use terra_go.Tests.Replies.{test_targets, test_client, scripted, reply, script-Answers}
use terra_go.Tests.Clients.{node}
use terra_go.Tests.Transactions.{v1_IsBase}
use terra_go.Tests.Keys.{test_key}
use terra_go.Key.{acc_address}

abbrev pub told : List HttpResponse
told = reply "account" ∷ reply "balance" ∷ reply "fee" ∷ []

abbrev pub session : Session test_sdk
session = session_of test_sdk (test_client "node/v1") test_key "columbus-4" none (scripted told)

abbrev pub paid : CreateTxOptions test_sdk
paid = record {
  msgs = [];
  fee = some 9;
  gas_adjustment = 0;
  gas_prices = [];
  sequence = some 6;
  memo = "memo";
}

abbrev unpaid : CreateTxOptions test_sdk
unpaid = record paid { fee = none }

abbrev unit_coin : Coin test_kinds
unit_coin = record { denom = "uusd"; amount = 1 }

abbrev test_balance : List (Coin test_kinds)
test_balance = record { denom = "uusd"; amount = 20 } ∷ []

balance_units : unit_coins test_sdk test_balance ≡ some (unit_coin ∷ [])
unfolding unit_coins
balance_units = refl

pub node-Tells :
    (rest : List HttpResponse)
    → Tells test_sdk test_targets
        (test_client "node/v1")
        node
        0
        "terra1x"
        (reply "account" ∷ reply "balance" ∷ rest)
        rest
        (7, 5)
node-Tells rest = record {
  parsed = refl;
  between = reply "balance" ∷ rest;
  account = record { height = "1"; result = some (7, 5) };
  told_account =
      script-Answers (test_client "node/v1") test_targets.account_info _ _ "account" _ _ refl;
  is_account = refl;
  balance = record { height = 1; result = test_balance };
  told_balance = script-Answers (test_client "node/v1") test_targets.balance _ _ "balance" _ _ refl;
  height = 1;
  fits = refl;
  ones = unit_coin ∷ [];
  valid = balance_units;
}

abbrev pub paid_message : StdSignMsg test_kinds
paid_message = record {
  chain_id = "columbus-4";
  account_number = 7;
  sequence = 6;
  fee = 9;
  msgs = [];
  memo = "memo";
}

create_tx_answered_example :
    (create_tx test_sdk test_targets (some 0) paid session).0 ≡ ok paid_message
create_tx_answered_example =
    create_tx_answered test_sdk test_targets 0 (test_client "node/v1") test_key "columbus-4" none
      (scripted told) (node-Tells (reply "fee" ∷ [])) paid refl

create_tx_requests_example :
    sent_requests (create_tx test_sdk test_targets (some 0) paid session).1.world.trace
    ≡ balance_request test_sdk test_targets 0
        (test_client "node/v1")
        {u = node}
        test_key
        "columbus-4"
        none
        (scripted told)
        ("v1" ∷ [])
        refl
        v1_IsBase
        (is_plain-IsPlain "terra1x" refl)
      ∷ account_request test_sdk test_targets 0
          (test_client "node/v1")
          {u = node}
          test_key
          "columbus-4"
          none
          (scripted told)
          ("v1" ∷ [])
          refl
          v1_IsBase
          (is_plain-IsPlain "terra1x" refl)
      ∷ []
create_tx_requests_example =
    create_tx_requests test_sdk test_targets 0 (test_client "node/v1") {u = node} test_key
      "columbus-4" none (scripted told) ("v1" ∷ []) refl v1_IsBase (is_plain-IsPlain "terra1x" refl)
      paid refl (ap is_ok create_tx_answered_example)

create_tx_sound_example :
    (acc : ℕ × ℕ) × ((get_account_info test_sdk test_targets session.account.client.auth
        (some 0)
        (acc_address test_sdk session.account.key)
        session.world).0
      ≡ ok (some acc))
    × ((create_tx test_sdk test_targets (some 0) paid session).1.account.account ≡ some acc)
    × Describes test_sdk paid session.account paid_message acc
    × ((paid.fee ≡ none) ⊎ (paid.fee ≡ some 9))
create_tx_sound_example =
    create_tx_sound test_sdk test_targets (some 0) session paid create_tx_answered_example

create_tx-update_example :
    ((create_tx test_sdk test_targets (some 0) paid session).1.account
      ≡ (update test_sdk test_targets (some 0) session).1.account)
    × ((create_and_sign_tx test_sdk test_targets (some 0) paid session).1.account
        ≡ (update test_sdk test_targets (some 0) session).1.account)
create_tx-update_example = create_tx-update test_sdk test_targets (some 0) session paid

update_atomic_example :
    ((update test_sdk test_targets (some 0) session).0 ≡ ok tt
      × ((get_account_info test_sdk test_targets session.account.client.auth
            (some 0)
            (acc_address test_sdk session.account.key)
            session.world).0
          ≡ ok (update test_sdk test_targets (some 0) session).1.account.account))
    ⊎ ((is_ok (update test_sdk test_targets (some 0) session).0 ≡ false)
        × ((update test_sdk test_targets (some 0) session).1.account ≡ session.account))
update_atomic_example = update_atomic test_sdk test_targets (some 0) session
