-- ===== src/Market.antt =====
-- interface/anchor/money-market/market/: the market contract (market.go), its messages
-- (market_exec_msg.go) and their execution (market_exec.go).
pub mod Queries
pub mod Guards
pub mod Creation
pub mod Interface
pub mod Calls
pub mod Requests
use Prim.Native.String.{String}
use text.Mathlib.Text.{◌==◌ as str_eq}
use terra_go.Base.{
  Option, none, some, List, [], ◌∷◌, Outcome, err, message, wrap_outcome, Action, if◌then◌else◌,
}
use terra_go.Base.Text.{◌<>◌}
use terra_go.Value.{Value, null, str, obj, end, field, put_some}
use terra_go.Http.{Context}
use terra_go.Sdk.{Sdk, Bytes, Coin, Msg}
use terra_go.Service.Bodies.{Targets}
use terra_go.Account.{KeyedAccount, Session}
use terra_go.Bind.{BaseContract, make_message}
use terra_go.Cw20.{Token, send_msg}
use terra_go.Cw20.Execution.{execute_made}

module _ (S : Sdk) where
  pub record Market : Type 0 where
    pub stable_denom : String
    pub anchored : Token S
    pub contract : BaseContract S

  abbrev pub to_value : Option Bytes → Option Value
  to_value none = none
  to_value (some addr) = some (str (S.address_string addr))

  -- `types.Q{"redeem_stable": types.Q{}}`
  abbrev pub redeem_hook : Value
  redeem_hook = obj (field "redeem_stable" (obj end) end)

module _ (S : Sdk) (m : Market S) (acc : KeyedAccount S) where
  unfoldable pub borrow_stable_msg : S.Int → Option Bytes → Outcome (List (Msg S.kinds))
  borrow_stable_msg amount to =
      let payload =
        put_some "to" (to_value S to) (field "borrow_amount" (str (S.int_string amount)) end) in
      make_message S m.contract acc "borrow_stable" (obj payload) []

  -- A call with coins of the one denomination that is supported.
  abbrev pub uusd_msg : String → Coin S.kinds → Outcome (List (Msg S.kinds))
  uusd_msg method amount =
      if str_eq amount.denom S.micro_usd_denom
      then make_message S m.contract acc method null (amount ∷ [])
      else err (message ("invalid denom " <> amount.denom <> ". currently we support uusd only."))

  unfoldable pub repay_stable_msg : Coin S.kinds → Outcome (List (Msg S.kinds))
  repay_stable_msg amount = uusd_msg "repay_stable" amount

  unfoldable pub deposit_stable_msg : Coin S.kinds → Outcome (List (Msg S.kinds))
  deposit_stable_msg amount = uusd_msg "deposit_stable" amount

  -- Redeeming sends the anchored token to the market.
  unfoldable pub redeem_stable_msg : S.Int → Outcome (List (Msg S.kinds))
  redeem_stable_msg amount =
      wrap_outcome "make cw20 send message"
        (send_msg S m.anchored acc m.contract.addr amount (redeem_hook S))

module _ (S : Sdk) (D : Targets S) (m : Market S) (ctx : Option Context) where
  unfoldable pub borrow_stable : S.Int → Option Bytes → Action (Session S) S.TxResponse
  borrow_stable amount to s =
      execute_made S D m.contract ctx (borrow_stable_msg S m s.account amount to) s

  unfoldable pub repay_stable : Coin S.kinds → Action (Session S) S.TxResponse
  repay_stable amount s = execute_made S D m.contract ctx (repay_stable_msg S m s.account amount) s

  unfoldable pub deposit_stable : Coin S.kinds → Action (Session S) S.TxResponse
  deposit_stable amount s =
      execute_made S D m.contract ctx (deposit_stable_msg S m s.account amount) s

  unfoldable pub redeem_stable : S.Int → Action (Session S) S.TxResponse
  redeem_stable amount s =
      execute_made S D m.contract ctx (redeem_stable_msg S m s.account amount) s
