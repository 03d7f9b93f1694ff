-- ===== src/Service/Auth.antt =====
-- service/auth.go
use terra_go.Base.{Option, Action, pure, wrapped, ◌>>=◌}
use terra_go.Base.Text.{◌<>◌}
use terra_go.Http.{Context}
use terra_go.Sdk.{Sdk, Bytes}
use terra_go.World.{World}
use terra_go.HttpClient.{Client, request_json}
use terra_go.Service.Bodies.{Targets, get_payload}

module _ (S : Sdk) (D : Targets S) (c : Client S) where
  unfoldable pub get_account_info :
      Option Context → Bytes → Action (World S) (Option S.ChainAccount)
  get_account_info ctx addr = do
    let payload = get_payload ctx ("/auth/accounts/" <> S.address_string addr)
    body ← wrapped "request json" (request_json S c payload D.account_info)
    pure body.result
