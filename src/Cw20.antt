-- ===== src/Cw20.antt =====
-- interface/standard/cw20/: a token contract (token.go) and its messages (token_exec_msg.go).
pub mod Execution
pub mod Queries
pub mod Texts
pub mod Interface
pub mod Calls
pub mod Requests
use Prim.Native.String.{String}
use terra_go.Base.{List, [], Outcome, ok, wrap_outcome}
use terra_go.Value.{Value, null, str, obj, Fields, end, field, set_field, marshal, and_then}
use terra_go.Sdk.{Sdk, Bytes, Msg}
use terra_go.Account.{KeyedAccount}
use terra_go.Bind.{BaseContract, make_message}

module _ (S : Sdk) where
  pub record Token : Type 0 where
    pub name : String
    pub symbol : String
    pub contract : BaseContract S

  abbrev pub address_field : String → Bytes → Fields → Fields
  address_field key addr rest = field key (str (S.address_string addr)) rest

  abbrev pub amount_field : S.Int → Fields → Fields
  amount_field amount rest = field "amount" (str (S.int_string amount)) rest

  -- `if hook != nil { ... payload["msg"] = Base64Bytes(rawHook) }`
  abbrev pub with_hook : Value → Fields → Outcome Fields
  with_hook null payload = ok payload
  with_hook hook payload =
      and_then (wrap_outcome "marshal hook message" (marshal hook))
        λ raw_hook. ok (set_field "msg" (str (S.base64 raw_hook)) payload)

module _ (S : Sdk) (t : Token S) (acc : KeyedAccount S) where
  -- A call of a method without coins.
  abbrev pub method_msg : String → Fields → Outcome (List (Msg S.kinds))
  method_msg method payload = make_message S t.contract acc method (obj payload) []

  unfoldable pub transfer_msg : Bytes → S.Int → Outcome (List (Msg S.kinds))
  transfer_msg recipient amount =
      method_msg "transfer" (address_field S "recipient" recipient (amount_field S amount end))

  unfoldable pub transfer_from_msg : Bytes → Bytes → S.Int → Outcome (List (Msg S.kinds))
  transfer_from_msg owner recipient amount = method_msg "transfer_from" (
      address_field S "owner" owner
        (address_field S "recipient" recipient (amount_field S amount end)))

  unfoldable pub burn_msg : S.Int → Outcome (List (Msg S.kinds))
  burn_msg amount = method_msg "burn" (amount_field S amount end)

  unfoldable pub burn_from_msg : Bytes → S.Int → Outcome (List (Msg S.kinds))
  burn_from_msg owner amount =
      method_msg "burn_from" (address_field S "owner" owner (amount_field S amount end))

  unfoldable pub send_msg : Bytes → S.Int → Value → Outcome (List (Msg S.kinds))
  send_msg contract amount hook =
      and_then (with_hook S hook (address_field S "contract" contract (amount_field S amount end)))
        λ payload. method_msg "send" payload

  unfoldable pub send_from_msg : Bytes → Bytes → S.Int → Value → Outcome (List (Msg S.kinds))
  send_from_msg owner contract amount hook =
      and_then
        (with_hook S hook (
          address_field S "owner" owner
            (address_field S "contract" contract (amount_field S amount end))))
        λ payload. method_msg "send_from" payload

  unfoldable pub mint_msg : Bytes → S.Int → Outcome (List (Msg S.kinds))
  mint_msg recipient amount =
      method_msg "mint" (address_field S "recipient" recipient (amount_field S amount end))

  -- A nil `expires` is sent as a null.
  unfoldable pub increase_allowance_msg : Bytes → S.Int → Value → Outcome (List (Msg S.kinds))
  increase_allowance_msg spender amount expires =
      method_msg "increase_allowance"
        (address_field S "spender" spender (amount_field S amount (field "expires" expires end)))

  unfoldable pub decrease_allowance_msg : Bytes → S.Int → Value → Outcome (List (Msg S.kinds))
  decrease_allowance_msg spender amount expires =
      method_msg "decrease_allowance"
        (address_field S "spender" spender (amount_field S amount (field "expires" expires end)))
