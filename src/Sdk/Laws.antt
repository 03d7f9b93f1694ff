-- ===== src/Sdk/Laws.antt =====
-- Documented behaviour of the third-party operations, for the theorems that rest on it.
use Prim.Native.String.{String}
use terra_go.Base.{ℕ, ◌/◌, ◌^◌, ◌≡◌, List}
use terra_go.Base.Int.{ℤ, pos, ◌*ℤ◌, ltb_ℤ}
use terra_go.Sdk.Structs.{Msg, StdSignature}
use terra_go.Sdk.Operations.{Sdk}

-- `NewStdTx` keeps its arguments.
pub record StdTxLaws (S : Sdk) : Type 0 where
  pub msgs :
      (ms : List (Msg S.kinds)) (f : S.StdFee) (ss : List (StdSignature S.kinds)) (memo : String)
      → S.tx_msgs (S.new_std_tx ms f ss memo) ≡ ms
  pub fee :
      (ms : List (Msg S.kinds)) (f : S.StdFee) (ss : List (StdSignature S.kinds)) (memo : String)
      → S.tx_fee (S.new_std_tx ms f ss memo) ≡ f
  pub signatures :
      (ms : List (Msg S.kinds)) (f : S.StdFee) (ss : List (StdSignature S.kinds)) (memo : String)
      → S.tx_signatures (S.new_std_tx ms f ss memo) ≡ ss
  pub memo_kept :
      (ms : List (Msg S.kinds)) (f : S.StdFee) (ss : List (StdSignature S.kinds)) (memo : String)
      → S.tx_memo (S.new_std_tx ms f ss memo) ≡ memo

-- A Dec is an integer of units of 10^-18.
abbrev pub one : ℕ
one = 10 ^ 18

-- Int is a signed integer, and Dec a fixed-point number whose product is exact where it is a whole
-- number of units, and whose truncation drops the fraction of what is not negative.
pub record NumberLaws (S : Sdk) : Type 0 where
  pub value : S.Int → ℤ
  pub units : S.Decimal → ℤ
  pub gt_value : (a b : S.Int) → S.gt a b ≡ ltb_ℤ (value b) (value a)
  pub units-from_int : (a : S.Int) → units (S.new_dec_from_int a) ≡ value a *ℤ pos one
  pub units-mul :
      (a b : S.Decimal) (p : ℤ) → units a *ℤ units b ≡ p *ℤ pos one → units (S.mul a b) ≡ p
  pub value-truncate :
      (d : S.Decimal) (n : ℕ) → units d ≡ pos n → value (S.truncate_int d) ≡ pos (n / one)
