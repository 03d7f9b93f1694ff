-- ===== src/Tests/Clients.antt =====
-- Requests and calls of services against scripted replies.
use Prim.Native.String.{String}
use terra_go.Base.{wrap, err, ◌≡◌, refl, none, some, ok, arith, [], ◌∷◌, message}
use text.Mathlib.TextEquality.{eq_iff}
use terra_go.Base.Dict.{Dict, lookup}
use terra_go.Http.{HttpRequest, HttpResponse, Url}
use terra_go.HttpClient.{
  request_url, RequestPayload, request, request_json, new_request, do_request, decode_amino,
  decoded,
}
use terra_go.HttpClient.Requests.{request_order}
use terra_go.HttpClient.Replies.{request_of}
use terra_go.Service.Bodies.{get_payload}
use terra_go.Service.Answering.{get_payload-IsSendable}
use terra_go.Tests.Node.{test_sdk}
use terra_go.Tests.Replies.{test_targets, test_client, scripted, reply}
use terra_go.HttpClient.Outcomes.{request_json_refused}

abbrev pub node : Url
node = record { origin = "node/v1"; path = "/v1"; query = λ _. [] }

-- A reply of status 500 whose body breaks off.
abbrev broken : HttpResponse
broken = record {
  status = 500;
  body = record { content = "tx"; failure = some (message "unexpected EOF") };
}

abbrev plain_request : HttpRequest
plain_request = record { context = 0; method = "GET"; url = node; body = none }

abbrev paged : RequestPayload
paged = record {
  context = some 0;
  method = "GET";
  path = "/txs";
  query = ("page", "1") ∷ ("limit", "5") ∷ [];
  body = none;
}

abbrev page_first : Dict String
page_first = ("page", "1") ∷ ("limit", "5") ∷ []

abbrev limit_first : Dict String
limit_first = ("limit", "5") ∷ ("page", "1") ∷ []

same_lookup : (k : String) → lookup k page_first ≡ lookup k limit_first
same_lookup k = ground (arith, eq_iff k "page", eq_iff k "limit", eq_iff "page" "limit")

request_order_example :
    request test_sdk
      (test_client "node/v1")
      (record paged { query = page_first })
      (scripted (reply "txs" ∷ []))
    ≡ request test_sdk
        (test_client "node/v1")
        (record paged { query = limit_first })
        (scripted (reply "txs" ∷ []))
request_order_example =
    request_order test_sdk (test_client "node/v1") paged page_first limit_first (refl, (refl, tt))
      (refl, (refl, tt)) same_lookup (scripted (reply "txs" ∷ []))

abbrev hash_request : HttpRequest
hash_request = request_of 0 node (get_payload (some 0) "/txs/A1")

decoded_broken :
    (request_json test_sdk
      (test_client "node/v1")
      (get_payload (some 0) "/txs/A1")
      test_targets.tx_response
      (scripted (broken ∷ []))).0
    ≡ ok (0, "[]")
unfolding request_json request new_request do_request decode_amino decoded
decoded_broken = refl

-- A reply of status 404: its body is the error.
abbrev refused : HttpResponse
refused = record { status = 404; body = record { content = "not found"; failure = none } }

-- The same reply with a body that breaks off, and with status 200.
abbrev half : HttpResponse
half = record {
  status = 404;
  body = record { content = "not found"; failure = some (message "unexpected EOF") };
}

abbrev found : HttpResponse
found = record { status = 200; body = record { content = "not found"; failure = none } }

request_json_refused_example :
    ((request_json test_sdk
        (test_client "node/v1")
        (get_payload (some 0) "/txs/A1")
        test_targets.tx_response
        (scripted (refused ∷ []))).0
      ≡ err (wrap (wrap (message "not found") "Get \"node/v1\"") "request"))
    × ((request_json test_sdk
          (test_client "node/v1")
          (get_payload (some 0) "/txs/A1")
          test_targets.tx_response
          (scripted (half ∷ []))).0
        ≡ (request_json test_sdk
            (test_client "node/v1")
            (get_payload (some 0) "/txs/A1")
            test_targets.tx_response
            (scripted (found ∷ []))).0)
unfolding request_url
request_json_refused_example =
    request_json_refused test_sdk (test_client "node/v1") test_targets.tx_response
      (get_payload (some 0) "/txs/A1") (scripted (refused ∷ [])) (scripted (half ∷ []))
      (scripted (found ∷ [])) {u = node}
      (get_payload-IsSendable test_sdk (test_client "node/v1") 0 refl "/txs/A1") (omega arith)
      (omega arith) refl refl refl
