-- ===== src/Service/Contract.antt =====
-- service/contract.go
use terra_go.Base.{ℕ, Option, [], ◌∷◌, Action, pure, lift, wrapped, ◌>>=◌}
use terra_go.Base.Text.{◌<>◌, show_ℕ}
use terra_go.Value.{Value, marshal}
use terra_go.Http.{Context}
use terra_go.Sdk.{Sdk, Bytes, Target}
use terra_go.World.{World}
use terra_go.HttpClient.{Client, request_json}
use terra_go.Service.Bodies.{Targets, get_payload}

module _ (S : Sdk) (D : Targets S) (c : Client S) where
  unfoldable pub get_code_id : Option Context → ℕ → Action (World S) S.CodeInfo
  get_code_id ctx code_id = do
    let payload = get_payload ctx ("/wasm/codes/" <> show_ℕ code_id)
    body ← wrapped "request json" (request_json S c payload D.code_info)
    pure body.result

  unfoldable pub get_contract_info : Option Context → Bytes → Action (World S) S.ContractInfo
  get_contract_info ctx addr = do
    let payload = get_payload ctx ("/wasm/contracts/" <> S.address_string addr)
    body ← wrapped "request json" (request_json S c payload D.contract_info)
    pure body.result

module _ (S : Sdk) (c : Client S) where
  -- The caller's `resp` is the target.
  unfoldable pub query_contract_store :
      {A : Type 0} → Option Context → Bytes → Value → Target S.Codec A → Action (World S) A
  query_contract_store ctx addr query resp = do
    json_query ← wrapped "marshal query message" (lift (marshal query))
    let path = "/wasm/contracts/" <> S.address_string addr <> "/store"
    let payload = record (get_payload ctx path) { query = ("query_msg", json_query) ∷ [] }
    wrapped "request json" (request_json S c payload resp)
