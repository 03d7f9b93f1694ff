-- ===== src/Service/Treasury.antt =====
-- service/treasury.go and service/treasury_schema.go
pub mod Tax
use Prim.Native.String.{String}
use terra_go.Base.{ℕ, Option, Action, pure, wrapped, or_panic, ◌>>=◌, if◌then◌else◌}
use terra_go.Base.Text.{◌<>◌}
use terra_go.Http.{Context}
use terra_go.Sdk.{Sdk, Coin}
use terra_go.World.{World}
use terra_go.HttpClient.{Client, request_json}
use terra_go.Service.Bodies.{Targets, get_payload}

pub record GetTaxRateResponse (S : Sdk) : Type 0 where
  pub height : ℕ
  pub tax_rate : S.Decimal

pub record GetTaxCapResponse (S : Sdk) : Type 0 where
  pub height : ℕ
  pub tax_cap : S.Int

-- The arithmetic of `CalculateTax`: the rate's share of the amount, cut down to the cap.
unfoldable pub capped_tax : (S : Sdk) → S.Int → S.Decimal → S.Int → S.Int
capped_tax S amount tax_rate tax_cap =
    let tax = S.truncate_int (S.mul (S.new_dec_from_int amount) tax_rate) in
    if S.gt tax tax_cap then tax_cap else tax

module _ (S : Sdk) (D : Targets S) (c : Client S) where
  unfoldable pub get_tax_rate : Option Context → Action (World S) (GetTaxRateResponse S)
  get_tax_rate ctx = do
    let payload = get_payload ctx "/treasury/tax_rate"
    body ← wrapped "request json" (request_json S c payload D.tax_rate)
    height ← or_panic "Uint64" (S.to_uint64 body.height)
    pure (record { height = height; tax_rate = body.result })

  unfoldable pub get_tax_cap : Option Context → String → Action (World S) (GetTaxCapResponse S)
  get_tax_cap ctx denom = do
    let payload = get_payload ctx ("/treasury/tax_cap/" <> denom)
    body ← wrapped "request json" (request_json S c payload D.tax_cap)
    height ← or_panic "Uint64" (S.to_uint64 body.height)
    pure (record { height = height; tax_cap = body.result })

  unfoldable pub calculate_tax : Option Context → Coin S.kinds → Action (World S) S.Int
  calculate_tax ctx coin = do
    rate ← wrapped "fetch tax rate" (get_tax_rate ctx)
    cap ← wrapped ("fetch tax cap of " <> coin.denom) (get_tax_cap ctx coin.denom)
    pure (capped_tax S coin.amount rate.tax_rate cap.tax_cap)
