-- ===== src/Tests/Numbers.antt =====
-- The tax of 1000 units at a rate of 0.5%, with a cap of 3 units.
use Prim.Native.Nat.{min}
use terra_go.Base.{ℕ, ◌*◌, ◌/◌, ◌≡◌, refl, some, ok, ltb, arith, [], ◌∷◌}
use terra_go.Base.Int.{ℤ, pos, negsuc, ◌*ℤ◌, ltb_ℤ}
use terra_go.Sdk.{Coin}
use terra_go.Sdk.Laws.{NumberLaws, one}
use terra_go.Service.Treasury.{get_tax_cap, get_tax_rate, capped_tax, calculate_tax}
use terra_go.Service.Treasury.Tax.{calculate_tax_answered}
use terra_go.Tests.Node.{test_sdk, test_kinds}
use terra_go.Tests.Replies.{test_targets, test_client, scripted, reply, script-Answers}
use terra_go.HttpClient.{decoded, decode_amino, do_request, new_request, request, request_json}

share_units : (a b : ℕ) (p : ℤ) → pos a *ℤ pos b ≡ p *ℤ pos one → pos (a * b / one) ≡ p
unfolding ◌*ℤ◌
share_units a b (pos n) h = ground arith
share_units a b (negsuc n) h = ground arith

from_int_units : (a : ℕ) → pos (a * one) ≡ pos a *ℤ pos one
unfolding ◌*ℤ◌
from_int_units a = ground arith

gt_units : (a b : ℕ) → ltb b a ≡ ltb_ℤ (pos b) (pos a)
gt_units a b = ground arith

whole_units : (d n : ℕ) → pos d ≡ pos n → pos (d / one) ≡ pos (n / one)
whole_units d n h = ground arith

abbrev test_NumberLaws : NumberLaws test_sdk
test_NumberLaws = record {
  value = pos;
  units = pos;
  gt_value = gt_units;
  units-from_int = from_int_units;
  units-mul = share_units;
  value-truncate = whole_units;
}

abbrev coin : Coin test_kinds
coin = record { denom = "uusd"; amount = 1000 }

calculate_tax_answered_example :
    (tax : ℕ) × ((calculate_tax test_sdk test_targets
        (test_client "node/v1")
        (some 0)
        coin
        (scripted (reply "rate" ∷ reply "cap" ∷ []))).0
      ≡ ok tax)
    × (pos tax ≡ pos (min (1000 * 5000000000000000 / one) 3))
calculate_tax_answered_example =
    calculate_tax_answered test_sdk test_NumberLaws test_targets (test_client "node/v1") 0
      (scripted (reply "rate" ∷ reply "cap" ∷ [])) coin 1000 5000000000000000 3 refl
      (script-Answers (test_client "node/v1") test_targets.tax_rate _ _ "rate" (reply "cap" ∷ []) _
        refl)
      (script-Answers (test_client "node/v1") test_targets.tax_cap _ _ "cap" [] _ refl) refl refl
      refl refl refl

taxed :
    (calculate_tax test_sdk test_targets
      (test_client "node/v1")
      (some 0)
      coin
      (scripted (reply "rate" ∷ reply "cap" ∷ []))).0
    ≡ ok 3
unfolding calculate_tax get_tax_rate get_tax_cap capped_tax request_json request new_request
    do_request decode_amino decoded
taxed = refl
