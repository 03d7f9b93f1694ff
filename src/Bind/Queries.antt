-- ===== src/Bind/Queries.antt =====
-- What a query of a contract sends (bind/contract.go, service/contract.go).
use Prim.Native.String.{String}
use terra_go.Base.{◌≡◌, refl, Option, none, some, ok, err, Error, wrap, List, [], ◌∷◌, ◌++◌, arith}
use terra_go.Base.Text.{◌<>◌, join_slash}
use terra_go.Base.Text.Paths.{IsPlain, IsBase, is_plain-IsPlain, rooted, path_join-IsBase}
use terra_go.Value.{Q, q_value, marshal}
use terra_go.Http.{Context, Url, HttpRequest, set_value}
use terra_go.Sdk.{Sdk, Target}
use terra_go.World.{World, sent_requests}
use terra_go.HttpClient.{RequestPayload, request_url, set_all}
use terra_go.HttpClient.Requests.{request-sent}
use terra_go.HttpClient.Replies.{request_json-sent}
use terra_go.Service.Bodies.{get_payload}
use terra_go.Service.Contract.{query_contract_store}
use terra_go.Bind.{BaseContract, query}

-- The GET of a contract's store below an endpoint, with the query's JSON text under `query_msg`.
abbrev pub store_request : Context → Url → List String → String → String → HttpRequest
store_request x u bs addr text = record {
  context = x;
  method = "GET";
  url = record u {
    path = rooted (bs ++ "wasm" ∷ "contracts" ∷ addr ∷ "store" ∷ []);
    query = set_value u.query "query_msg" text;
  };
  body = none;
}

module _ (S : Sdk) (b : BaseContract S) {A : Type 0} (resp : Target S.Codec A) (q : Q)
    (w : World S) where
  -- A query with a JSON text is one GET of the contract's store below the endpoint, with that text
  -- under `query_msg`, whatever comes back.
  pub query-sent :
      {u : Url} (x : Context) (bs : List String) {text : String}
      → S.parse_url b.client.contract.endpoint ≡ ok u
      → IsBase u.path bs
      → IsPlain (S.address_string b.addr)
      → marshal (q_value q) ≡ ok text
      → sent_requests (query S b (some x) q resp w).1.trace
        ≡ store_request x u bs (S.address_string b.addr) text ∷ sent_requests w.trace
  unfolding query query_contract_store request_url set_all join_slash
  query-sent {u} x bs {text} parsed base plain encoded =
      let path = "/wasm/contracts/" <> S.address_string b.addr <> "/store" in
      let payload : RequestPayload = record (get_payload (some x) path) {
        query = ("query_msg", text) ∷ [];
      } in
      ground (
        arith,
        request_json-sent S b.client.contract resp payload w,
        request-sent S b.client.contract payload w parsed refl refl,
        path_join-IsBase u.path bs "wasm" ("contracts" ∷ S.address_string b.addr ∷ "store" ∷ [])
            base
            (
              is_plain-IsPlain "wasm" refl,
              (is_plain-IsPlain "contracts" refl, (plain, (is_plain-IsPlain "store" refl, tt))),
            ),
      )

  -- A query without a JSON text is an error, wrapped twice, and nothing is sent.
  pub query-eq-err :
      (ctx : Option Context) {e : Error}
      → marshal (q_value q) ≡ err e
      → query S b ctx q resp w
        ≡ (err (wrap (wrap e "marshal query message") "query contract store"), w)
  unfolding query query_contract_store
  query-eq-err ctx h = rw h refl
