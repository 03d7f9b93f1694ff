-- ===== src/Tests/Transactions.antt =====
-- Calls of the transaction service and of the auth service against scripted replies.
use terra_go.Base.{◌≡◌, refl, ◌⊎◌, inl, ◌≢◌, Option, none, some, ok, panic, [], ◌∷◌, Error, message}
use terra_go.Base.Int.{pos}
use terra_go.Base.Text.{◌<>◌, join_slash}
use terra_go.Base.Text.Paths.{is_plain-IsPlain, IsBase}
use terra_go.Value.{Fields, field, end, str}
use terra_go.Http.{Url}
use terra_go.World.{sent_requests, slept}
use terra_go.HttpClient.{request_json, request, new_request, do_request, decode_amino, decoded}
use terra_go.Service.Transaction.{QueryTxRequest, query_tx, get_tx_by_hash, broadcast_tx}
use terra_go.Service.Transaction.Queries.{query_tx_panics}
use terra_go.Service.Transaction.Broadcasts.{broadcast_tx_outcome, latest}
use terra_go.Service.Sending.{get_at, get_tx_by_hash_escapes}
use terra_go.Tests.Node.{test_sdk, TestTx}
use terra_go.Tests.Replies.{test_targets, test_client, scripted, reply}

abbrev bare_node : Url
bare_node = record { origin = "node"; path = ""; query = λ _. [] }

pub v1_IsBase : IsBase "/v1" ("v1" ∷ [])
unfolding join_slash
v1_IsBase = ((is_plain-IsPlain "v1" refl, tt), inl refl)

get_tx_by_hash_escapes_example :
    sent_requests
      (get_tx_by_hash test_sdk test_targets
        (test_client "node")
        (some 0)
        ("../" <> join_slash ("syncing" ∷ []))
        (scripted (reply "tx" ∷ []))).1.trace
    ≡ get_at 0 bare_node ("syncing" ∷ []) ∷ []
get_tx_by_hash_escapes_example =
    get_tx_by_hash_escapes test_sdk test_targets (test_client "node") {u = bare_node} 0 "syncing" []
      refl refl (is_plain-IsPlain "syncing" refl, tt) (scripted (reply "tx" ∷ []))

abbrev by_sender : Fields
by_sender = field "message.sender" (str "terra1x") end

abbrev paged_query : QueryTxRequest
paged_query = record { page = some (pos 2); limit = some (pos 5); query = some by_sender }

query_tx_panics_example :
    query_tx test_sdk test_targets
      (test_client "node")
      (some 0)
      (record { page = some (pos 2); limit = none; query = none })
      (scripted (reply "txs" ∷ []))
    ≡ (panic "assignment to entry in nil map", scripted (reply "txs" ∷ []))
query_tx_panics_example =
    query_tx_panics test_sdk test_targets (test_client "node") (some 0)
      (record { page = some (pos 2); limit = none; query = none }) (pos 2)
      (scripted (reply "txs" ∷ [])) refl (inl refl)

abbrev empty_tx : TestTx
empty_tx = record { msgs = []; fee = 9; signatures = []; memo = "" }

broadcast_done :
    (broadcast_tx test_sdk test_targets
      (test_client "node/v1")
      (some 0)
      empty_tx
      "sync"
      (scripted (reply "tx" ∷ []))).0
    ≡ ok ((0, "[]"), none)
unfolding broadcast_tx request_json request new_request do_request decode_amino decoded
broadcast_done = refl

abbrev accepted_error : Option Error
accepted_error = none

broadcast_tx_outcome_example :
    (((test_sdk.code (0, "[]") ≡ test_sdk.code_type_ok) × (accepted_error ≡ none))
      ⊎ ((test_sdk.code (0, "[]") ≢ test_sdk.code_type_ok)
          × (accepted_error ≡ some (message (test_sdk.raw_log (0, "[]"))))))
    × (latest
          (broadcast_tx test_sdk test_targets
            (test_client "node/v1")
            (some 0)
            empty_tx
            "sync"
            (scripted (reply "tx" ∷ []))).1.trace
        ≡ some (slept 1))
broadcast_tx_outcome_example =
    broadcast_tx_outcome test_sdk test_targets (test_client "node/v1") empty_tx "sync"
      (scripted (reply "tx" ∷ [])) (some 0) broadcast_done
