-- ===== src/Market/Calls.antt =====
-- All four messages of a market, through its interface (market_exec_msg.go).
use Prim.Native.String.{String}
use text.Mathlib.Text.{◌==◌ as str_eq}
use text.Mathlib.TextEquality.{eq_iff}
use terra_go.Base.{
  ◌≡◌, refl, Option, none, some, List, [], ◌∷◌, Outcome, ok, arith, inl, inr, Bool-cases,
}
use terra_go.Value.{null, str, obj, end, field, put_some, marshal, join_entries, insert_sorted}
use terra_go.Base.Text.{◌<>◌}
use terra_go.Bind.Messages.{make_message-eq-ok}
use terra_go.Cw20.Texts.{entry, entries2, entries3}
use terra_go.Market.Guards.{redeem_stable_msg_text}
use terra_go.Sdk.{Sdk, Bytes, Coin, Msg}
use terra_go.Service.Bodies.{Targets}
use terra_go.Account.{KeyedAccount}
use terra_go.Cw20.Queries.{TokenTargets}
use terra_go.Cw20.Calls.{IsCallOf, known_call}
use terra_go.Market.{
  to_value, uusd_msg, Market, borrow_stable_msg, repay_stable_msg, deposit_stable_msg,
}
use terra_go.Market.Queries.{MarketTargets}
use terra_go.Market.Interface.{ExecutorMsg, MarketInterface, market_interface}

module _ (S : Sdk) where
  -- A call of `Executor` or `ExecutorMsg` with its arguments.
  pub data MarketCall : Type 0 where
    borrow_call : S.Int → Option Bytes → MarketCall
    repay_call : Coin S.kinds → MarketCall
    deposit_call : Coin S.kinds → MarketCall
    redeem_call : S.Int → MarketCall

  abbrev pub market_messages :
      ExecutorMsg S → KeyedAccount S → MarketCall → Outcome (List (Msg S.kinds))
  market_messages e acc (borrow_call amount to) = e.borrow_stable_msg acc amount to
  market_messages e acc (repay_call coin) = e.repay_stable_msg acc coin
  market_messages e acc (deposit_call coin) = e.deposit_stable_msg acc coin
  market_messages e acc (redeem_call amount) = e.redeem_stable_msg acc amount

  -- What a list of messages has to be for a call: of which contract, which method, which arguments,
  -- which coins.
  abbrev pub IsMessageFor :
      MarketInterface S → KeyedAccount S → MarketCall → List (Msg S.kinds) → Type 0
  IsMessageFor m acc (borrow_call amount none) msgs =
      IsCallOf S m.base.get_address acc "borrow_stable"
        (λ text. text ≡ "{" <> entry "borrow_amount" (S.int_string amount) <> "}") [] msgs
  IsMessageFor m acc (borrow_call amount (some to)) msgs =
      IsCallOf S m.base.get_address acc "borrow_stable"
        (λ text.
          text
          ≡ entries2 (entry "borrow_amount" (S.int_string amount))
              (entry "to" (S.address_string to)))
        [] msgs
  IsMessageFor m acc (repay_call coin) msgs =
      (coin.denom ≡ S.micro_usd_denom)
      × IsCallOf S m.base.get_address acc "repay_stable" (λ text. text ≡ "{}") (coin ∷ []) msgs
  IsMessageFor m acc (deposit_call coin) msgs =
      (coin.denom ≡ S.micro_usd_denom)
      × IsCallOf S m.base.get_address acc "deposit_stable" (λ text. text ≡ "{}") (coin ∷ []) msgs
  IsMessageFor m acc (redeem_call amount) msgs =
      IsCallOf S m.anchored.base.get_address acc "send"
        (λ text.
          text
          ≡ entries3 (entry "amount" (S.int_string amount))
              (entry "contract" (S.address_string m.base.get_address))
              (entry "msg" (S.base64 "{\"redeem_stable\":{}}")))
        [] msgs

module _ (S : Sdk) (m : Market S) (acc : KeyedAccount S) where
  borrow_IsCallOf :
      (amount : S.Int) (to : Option Bytes) {text : String} {msgs : List (Msg S.kinds)}
      → marshal (
          obj
            (put_some "to" (to_value S to) (field "borrow_amount" (str (S.int_string amount)) end)))
        ≡ ok text
      → borrow_stable_msg S m acc amount to ≡ ok msgs
      → IsCallOf S m.contract.addr acc "borrow_stable" (λ t. t ≡ text) [] msgs
  unfolding borrow_stable_msg
  borrow_IsCallOf amount to {text} encoded e =
      let payload =
        obj
          (put_some "to" (to_value S to) (field "borrow_amount" (str (S.int_string amount)) end)) in
      (
        text,
        refl,
        ground (arith, make_message-eq-ok S m.contract acc "borrow_stable" payload [] encoded),
      )

  uusd_IsCallOf :
      (method : String) (coin : Coin S.kinds) (msgs : List (Msg S.kinds))
      → uusd_msg S m acc method coin ≡ ok msgs
      → (coin.denom ≡ S.micro_usd_denom)
        × IsCallOf S m.contract.addr acc method (λ text. text ≡ "{}") (coin ∷ []) msgs
  unfolding marshal join_entries
  uusd_IsCallOf method coin msgs e = elim (Bool-cases (str_eq coin.denom S.micro_usd_denom)) [
    | inl same ↦ (
      ground (arith, eq_iff coin.denom S.micro_usd_denom),
      (
        "{}",
        refl,
        ground (
          arith,
          same,
          make_message-eq-ok S m.contract acc method null (coin ∷ []) {t = "{}"} refl,
        ),
      ),
    )
    | inr different ↦ absurd (ground arith)
  ]

module _ (S : Sdk) (D : Targets S) (R : MarketTargets S) (T : TokenTargets S) (m : Market S) where
  -- The messages that a call of a market makes are one execution by the account, of one method, which is
  -- the only key of its text. Of a borrowing it is one of the market, without coins, with the amount
  -- and, where one is given, the address; of a repayment or a deposit one of the market, with an empty
  -- object and exactly the given coin, which is one of uusd; of a redemption a send of the anchored
  -- token to the market, without coins, with the amount and the redemption in base64.
  pub market_messages-IsMessageFor :
      (acc : KeyedAccount S) (k : MarketCall S) (msgs : List (Msg S.kinds))
      → market_messages S (market_interface S D m R T).executor_msg acc k ≡ ok msgs
      → IsMessageFor S (market_interface S D m R T) acc k msgs
  unfolding repay_stable_msg deposit_stable_msg marshal join_entries insert_sorted
  market_messages-IsMessageFor acc (borrow_call amount none) msgs e =
      borrow_IsCallOf S m acc amount none refl e
  market_messages-IsMessageFor acc (borrow_call amount (some to)) msgs e =
      borrow_IsCallOf S m acc amount (some to) refl e
  market_messages-IsMessageFor acc (repay_call coin) msgs e =
      uusd_IsCallOf S m acc "repay_stable" coin msgs e
  market_messages-IsMessageFor acc (deposit_call coin) msgs e =
      uusd_IsCallOf S m acc "deposit_stable" coin msgs e
  market_messages-IsMessageFor acc (redeem_call amount) msgs e =
      known_call S m.anchored acc "send" _
        (λ text.
          text
          ≡ entries3 (entry "amount" (S.int_string amount))
              (entry "contract" (S.address_string m.contract.addr))
              (entry "msg" (S.base64 "{\"redeem_stable\":{}}")))
        (redeem_stable_msg_text S m acc amount) refl e
