-- ===== src/Market/Guards.antt =====
-- Which messages the market makes, and of which contract (market_exec_msg.go).
use Prim.Native.String.{String}
use text.Mathlib.TextEquality.{eq_iff}
use terra_go.Base.{◌≡◌, refl, ◌≢◌, Option, List, [], ◌∷◌, Outcome, ok, err, message, arith}
use terra_go.Base.Text.{◌<>◌}
use terra_go.Value.{null, marshal, quote, join_entries, insert_sorted, escape_all}
use terra_go.Http.{Context}
use terra_go.Sdk.{Sdk, Coin, Msg, execute_contract}
use terra_go.Key.{acc_address}
use terra_go.Service.Bodies.{Targets}
use terra_go.Account.{KeyedAccount, Session}
use terra_go.Bind.Messages.{make_message-eq-ok}
use terra_go.Cw20.Execution.{execute_made}
use terra_go.Cw20.Texts.{call_of, entry, entries3, send_msgs_text}
use terra_go.Market.{
  Market, repay_stable_msg, deposit_stable_msg, redeem_stable_msg, redeem_hook, repay_stable,
  deposit_stable,
}

-- The error of the guard.
abbrev pub invalid_denom : (S : Sdk) {A : Type 0} → Coin S.kinds → Outcome A
invalid_denom S coin =
    err (message ("invalid denom " <> coin.denom <> ". currently we support uusd only."))

-- A call of a market's method without fields, with one coin.
abbrev pub paid_call :
    (S : Sdk) → Market S → KeyedAccount S → String → Coin S.kinds → Outcome (List (Msg S.kinds))
paid_call S m acc method coin = ok (
    execute_contract (record {
      sender = acc_address S acc.key;
      contract = m.contract.addr;
      execute_msg = "{" <> (quote method <> ":" <> "{}") <> "}";
      coins = coin ∷ [];
    })
    ∷ [])

module _ (S : Sdk) (m : Market S) (coin : Coin S.kinds) where
  -- Repaying or depositing coins of another denomination than uusd fails, and does nothing else: no
  -- request is sent, and the account is left as it was.
  pub stable_refused :
      (D : Targets S) (ctx : Option Context) (s : Session S)
      → coin.denom ≢ S.micro_usd_denom
      → (repay_stable S D m ctx coin s ≡ (invalid_denom S coin, s))
        × (deposit_stable S D m ctx coin s ≡ (invalid_denom S coin, s))
  unfolding repay_stable deposit_stable repay_stable_msg deposit_stable_msg execute_made
  stable_refused D ctx s h = ground (arith, eq_iff coin.denom S.micro_usd_denom)

  -- Repaying or depositing coins of uusd is one call of the market by the account, with an empty
  -- object and with exactly these coins.
  pub stable_accepted :
      (acc : KeyedAccount S)
      → coin.denom ≡ S.micro_usd_denom
      → (repay_stable_msg S m acc coin ≡ paid_call S m acc "repay_stable" coin)
        × (deposit_stable_msg S m acc coin ≡ paid_call S m acc "deposit_stable" coin)
  unfolding repay_stable_msg deposit_stable_msg marshal join_entries
  stable_accepted acc h = ground (
    arith,
    eq_iff coin.denom S.micro_usd_denom,
    make_message-eq-ok S m.contract acc "repay_stable" null (coin ∷ []) refl,
    make_message-eq-ok S m.contract acc "deposit_stable" null (coin ∷ []) refl,
  )

module _ (S : Sdk) (m : Market S) (acc : KeyedAccount S) (amount : S.Int) where
  hook_text : marshal (redeem_hook S) ≡ ok "{\"redeem_stable\":{}}"
  unfolding marshal join_entries insert_sorted quote escape_all
  hook_text = refl

  -- Redeeming is one call of the anchored token, and not of the market: a send of the amount to the
  -- market's address, with the redemption in base64 as its hook.
  pub redeem_stable_msg_text :
      redeem_stable_msg S m acc amount
      ≡ call_of S m.anchored acc "send" (
          entries3
            (entry "amount" (S.int_string amount))
            (entry "contract" (S.address_string m.contract.addr))
            (entry "msg" (S.base64 "{\"redeem_stable\":{}}")))
  unfolding redeem_stable_msg
  redeem_stable_msg_text =
      let sent =
        send_msgs_text S m.anchored acc m.contract.addr m.contract.addr amount (redeem_hook S)
          hook_text (λ e. absurd (ground arith)) in
      rw (sent.0) refl
