-- ===== src/Service/Bank.antt =====
-- service/bank.go and service/bank_schema.go
use terra_go.Base.{ℕ, Option, List, Action, pure, wrapped, or_panic, ◌>>=◌}
use terra_go.Base.Text.{◌<>◌}
use terra_go.Http.{Context}
use terra_go.Sdk.{Sdk, Bytes, Coin}
use terra_go.World.{World}
use terra_go.HttpClient.{Client, request_json}
use terra_go.Service.Bodies.{Targets, get_payload}

pub record GetBalanceResponse (S : Sdk) : Type 0 where
  pub height : ℕ
  pub balance : List (Coin S.kinds)

module _ (S : Sdk) (D : Targets S) (c : Client S) where
  -- `Uint64` panics on a height that does not fit.
  unfoldable pub get_balance : Option Context → Bytes → Action (World S) (GetBalanceResponse S)
  get_balance ctx acc = do
    let payload = get_payload ctx ("/bank/balances/" <> S.address_string acc)
    body ← wrapped "request json" (request_json S c payload D.balance)
    height ← or_panic "Uint64" (S.to_uint64 body.height)
    pure (record { height = height; balance = body.result })
