-- ===== src/Service/Treasury/Tax.antt =====
-- The arithmetic of `CalculateTax` (service/treasury.go), and the call against a node that answers.
use Prim.Native.Nat.{min}
use terra_go.Base.{
  Bool-cases, inl, inr, sym, ◌∙◌, Option, ok_value, false, ℕ, ◌*◌, ◌/◌, ◌≡◌, ap, ok, some, arith,
  String,
}
use terra_go.Base.Int.{pos, pos-*ℤ, ltb_ℤ, ltb_ℤ-irrefl}
use terra_go.Sdk.{Sdk, Coin}
use terra_go.Sdk.Laws.{NumberLaws, one}
use terra_go.World.{World}
use terra_go.Base.Text.{◌<>◌}
use terra_go.Http.{Context, Url}
use terra_go.HttpClient.{Client}
use terra_go.HttpClient.Replies.{request_json-answered}
use terra_go.Service.Bodies.{Targets, Reply, get_payload}
use terra_go.Service.Answering.{AnswersGet, get_payload-IsSendable}
use terra_go.Service.Treasury.{
  GetTaxRateResponse, GetTaxCapResponse, capped_tax, get_tax_rate, get_tax_cap, calculate_tax,
}

module _ (S : Sdk) (N : NumberLaws S) where
  open N use {value, units}

  -- The rate's share of an amount, rounded down.
  share_value :
      (amount : S.Int) (rate : S.Decimal) (a r : ℕ)
      → value amount ≡ pos a
      → units rate ≡ pos r
      → value (S.truncate_int (S.mul (S.new_dec_from_int amount) rate)) ≡ pos (a * r / one)
  share_value amount rate a r ha hr = N.value-truncate _ _ (
      N.units-mul _ rate (pos (a * r))
        (simp (N.units-from_int, ha, hr, pos-*ℤ) (ap pos (omega arith))))

  -- For an amount, a rate and a cap that are not negative, the tax is the smaller of the cap and the
  -- rate's share of the amount, which is rounded down to whole units.
  pub capped_tax_value :
      (amount : S.Int) (rate : S.Decimal) (cap : S.Int) (a r k : ℕ)
      → value amount ≡ pos a
      → units rate ≡ pos r
      → value cap ≡ pos k
      → value (capped_tax S amount rate cap) ≡ pos (min (a * r / one) k)
  unfolding capped_tax
  capped_tax_value amount rate cap a r k ha hr hk = ground (
    arith,
    share_value amount rate a r ha hr,
    N.gt_value (S.truncate_int (S.mul (S.new_dec_from_int amount) rate)) cap,
  )

  -- Whatever the node does: if `CalculateTax` returns a tax, both questions to the node were answered,
  -- the second behind the first, and the tax is not above the cap, by the numbers' order.
  pub calculate_tax_capped :
      (D : Targets S) (c : Client S) (ctx : Option Context) (coin : Coin S.kinds) (w : World S)
      (tax : S.Int)
      → (calculate_tax S D c ctx coin w).0 ≡ ok tax
      → (rate : GetTaxRateResponse S) × (cap : GetTaxCapResponse S) × ((get_tax_rate S D c ctx w).0
          ≡ ok rate)
        × ((get_tax_cap S D c ctx coin.denom (get_tax_rate S D c ctx w).1).0 ≡ ok cap)
        × (ltb_ℤ (value cap.tax_cap) (value tax) ≡ false)
  unfolding calculate_tax capped_tax
  calculate_tax_capped D c ctx coin w tax e =
      let (rate, rated) = ok_value (get_tax_rate S D c ctx w).0 (ground arith) in
      let w' = (get_tax_rate S D c ctx w).1 in
      let (cap, capped) = ok_value (get_tax_cap S D c ctx coin.denom w').0 (ground arith) in
      let share = S.truncate_int (S.mul (S.new_dec_from_int coin.amount) rate.tax_rate) in
      (
        rate,
        cap,
        rated,
        capped,
        elim (Bool-cases (S.gt share cap.tax_cap)) [
          | inl above ↦
              ap (λ v. ltb_ℤ (value cap.tax_cap) (value v)) {y = cap.tax_cap} (ground arith)
              ∙ ltb_ℤ-irrefl (value cap.tax_cap)
          | inr below ↦
              ap (λ v. ltb_ℤ (value cap.tax_cap) (value v)) {y = share} (ground arith)
              ∙ sym (N.gt_value share cap.tax_cap)
              ∙ below
        ],
      )

module _ (S : Sdk) (D : Targets S) (c : Client S) {u : Url} (x : Context) (w : World S)
    (parsed : S.parse_url c.endpoint ≡ ok u) where
  get_tax_rate_answered :
      {n : S.Net} {b : Reply S.Uint S.Decimal} {h : ℕ}
      → AnswersGet S c u x D.tax_rate "/treasury/tax_rate" w.net n b
      → S.to_uint64 b.height ≡ some h
      → ((get_tax_rate S D c (some x) w).0 ≡ ok (record { height = h; tax_rate = b.result }))
        × ((get_tax_rate S D c (some x) w).1.net ≡ n)
  unfolding get_tax_rate
  get_tax_rate_answered ans fits = ground (
    arith,
    request_json-answered S c D.tax_rate (get_payload (some x) "/treasury/tax_rate") w
        (get_payload-IsSendable S c x parsed _) ans,
  )

  get_tax_cap_answered :
      (denom : String) {n : S.Net} {b : Reply S.Uint S.Int} {h : ℕ}
      → AnswersGet S c u x D.tax_cap ("/treasury/tax_cap/" <> denom) w.net n b
      → S.to_uint64 b.height ≡ some h
      → (get_tax_cap S D c (some x) denom w).0 ≡ ok (record { height = h; tax_cap = b.result })
  unfolding get_tax_cap
  get_tax_cap_answered denom ans fits = ground (
    arith,
    request_json-answered S c D.tax_cap (get_payload (some x) ("/treasury/tax_cap/" <> denom)) w
        (get_payload-IsSendable S c x parsed _) ans,
  )

-- Against a node that answers the two questions with a rate and a cap that are not negative, for an
-- amount that is not, `CalculateTax` returns the smaller of the cap and the share, rounded down.
pub calculate_tax_answered :
    (S : Sdk) (N : NumberLaws S) (D : Targets S) (c : Client S) {u : Url} (x : Context)
    (w : World S) (coin : Coin S.kinds) {n m : S.Net} {rate : Reply S.Uint S.Decimal}
    {cap : Reply S.Uint S.Int} (a r k : ℕ) {h j : ℕ}
    → S.parse_url c.endpoint ≡ ok u
    → AnswersGet S c u x D.tax_rate "/treasury/tax_rate" w.net n rate
    → AnswersGet S c u x D.tax_cap ("/treasury/tax_cap/" <> coin.denom) n m cap
    → S.to_uint64 rate.height ≡ some h
    → S.to_uint64 cap.height ≡ some j
    → N.value coin.amount ≡ pos a
    → N.units rate.result ≡ pos r
    → N.value cap.result ≡ pos k
    → (tax : S.Int) × ((calculate_tax S D c (some x) coin w).0 ≡ ok tax)
      × (N.value tax ≡ pos (min (a * r / one) k))
unfolding calculate_tax
calculate_tax_answered S N D c x w coin {m} {rate} {cap} a r k parsed p q fit fit' ha hr hk =
    let (rated, left) = get_tax_rate_answered S D c x w parsed p fit in
    let w' = (get_tax_rate S D c (some x) w).1 in
    let capped =
      get_tax_cap_answered S D c x w' parsed coin.denom {n = m} {b = cap} (rw left q) fit' in
    (
      capped_tax S coin.amount rate.result cap.result,
      ground (arith, rated, capped),
      capped_tax_value S N coin.amount rate.result cap.result a r k ha hr hk,
    )
