-- ===== src/Service/Transaction/Broadcasts.antt =====
-- What `BroadcastTx` sends and returns (service/transaction.go).
use Prim.Native.String.{String}
use terra_go.Base.{
  ◌≡◌, refl, ◌≢◌, Option, none, some, ok, arith, ◌⊎◌, Error, message, List, [], ◌∷◌, ◌++◌,
}
use terra_go.Base.Text.{join_slash}
use terra_go.Base.Text.Paths.{IsBase, rooted, is_plain-IsPlain, path_join-IsBase}
use terra_go.Types.{BroadcastMode}
use terra_go.Http.{Context, Url, HttpRequest}
use terra_go.Sdk.{Sdk}
use terra_go.World.{World, Event, slept, sent_requests}
use terra_go.HttpClient.{Client, request_url, set_all}
use terra_go.HttpClient.Requests.{request-sent}
use terra_go.HttpClient.Replies.{request_json-sent, request_json-answered}
use terra_go.Service.Answering.{AnswersPost, post_payload-IsSendable}
use terra_go.Service.Bodies.{Targets, post_payload}
use terra_go.Service.Transaction.{broadcast_tx, rejection}

abbrev pub latest : List Event → Option Event
latest [] = none
latest (e ∷ _) = some e

-- A POST of a body to the path with the given segments.
abbrev pub post_at : Context → Url → List String → String → HttpRequest
post_at x u segments body = record {
  context = x;
  method = "POST";
  url = record u { path = rooted segments };
  body = some body;
}

module _ (S : Sdk) (D : Targets S) (c : Client S) (tx : S.StdTx) (mode : BroadcastMode)
    (w : World S) where
  -- A reply comes back with no error if its code is OK, and with its raw log as the error if not;
  -- and in both cases the call has waited for a second behind the reply.
  pub broadcast_tx_outcome :
      (ctx : Option Context) {resp : S.TxResponse} {e : Option Error}
      → (broadcast_tx S D c ctx tx mode w).0 ≡ ok (resp, e)
      → (((S.code resp ≡ S.code_type_ok) × (e ≡ none))
          ⊎ ((S.code resp ≢ S.code_type_ok) × (e ≡ some (message (S.raw_log resp)))))
        × (latest (broadcast_tx S D c ctx tx mode w).1.trace ≡ some (slept 1))
  unfolding broadcast_tx
  broadcast_tx_outcome ctx h = (ground arith, ground arith)

  -- Whatever comes back, the broadcast is one POST to `txs` below the endpoint, with the encoding of
  -- the transaction and the mode as its body.
  pub broadcast_tx-sent :
      {u : Url} (x : Context) (bs : List String) {raw : String}
      → S.parse_url c.endpoint ≡ ok u
      → IsBase u.path bs
      → S.marshal_broadcast c.codec (record { tx = tx; mode = mode }) ≡ ok raw
      → sent_requests (broadcast_tx S D c (some x) tx mode w).1.trace
        ≡ post_at x u (bs ++ "txs" ∷ []) raw ∷ sent_requests w.trace
  unfolding broadcast_tx join_slash request_url set_all
  broadcast_tx-sent {u} x bs {raw} parsed base marshalled =
      let payload = post_payload (some x) "/txs" raw in
      ground (
        arith,
        request_json-sent S c D.tx_response payload w,
        request-sent S c payload w parsed refl refl,
        path_join-IsBase u.path bs "txs" [] base (is_plain-IsPlain "txs" refl, tt),
      )

  -- What a reply of the node to the broadcast comes back as.
  pub broadcast_tx_answered :
      {u : Url} (x : Context) {raw : String} {n : S.Net} {resp : S.TxResponse}
      → S.parse_url c.endpoint ≡ ok u
      → S.marshal_broadcast c.codec (record { tx = tx; mode = mode }) ≡ ok raw
      → AnswersPost S c u x D.tx_response "/txs" raw w.net n resp
      → (broadcast_tx S D c (some x) tx mode w).0 ≡ ok (resp, rejection S resp)
  unfolding broadcast_tx
  broadcast_tx_answered x {raw} parsed marshalled ans = ground (
    arith,
    request_json-answered S c D.tx_response (post_payload (some x) "/txs" raw) w
        (post_payload-IsSendable S c x parsed _ _) ans,
  )
