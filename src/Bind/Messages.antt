-- ===== src/Bind/Messages.antt =====
-- The message that `MakeMessage` makes (bind/contract.go, bind/utils.go).
use Prim.Native.String.{String}
use terra_go.Base.{◌≡◌, List, [], ◌∷◌, ok, err, Error, wrap, arith}
use terra_go.Base.Text.{◌<>◌}
use terra_go.Value.{Value, marshal, quote, join_entries, insert_sorted}
use terra_go.Sdk.{Sdk, Coin, execute_contract}
use terra_go.Key.{acc_address}
use terra_go.Account.{KeyedAccount}
use terra_go.Bind.{BaseContract, make_message, generate_execute_msg, or_empty}

module _ (S : Sdk) (b : BaseContract S) (acc : KeyedAccount S) (method : String) (payload : Value)
    (coins : List (Coin S.kinds)) where
  -- If the payload, or the empty map for a nil one, has a JSON text, the message is one execution of
  -- the contract by the account: an object with the method as its only key and that text behind it,
  -- and the coins.
  pub make_message-eq-ok :
      {t : String}
      → marshal (or_empty S payload) ≡ ok t
      → make_message S b acc method payload coins
        ≡ ok (
            execute_contract (record {
              sender = acc_address S acc.key;
              contract = b.addr;
              execute_msg = "{" <> (quote method <> ":" <> t) <> "}";
              coins = coins;
            })
            ∷ [])
  unfolding make_message generate_execute_msg marshal join_entries insert_sorted
  make_message-eq-ok h = ground arith

  -- If encoding the payload fails, its error comes back, wrapped twice.
  pub make_message-eq-err :
      {e : Error}
      → marshal (or_empty S payload) ≡ err e
      → make_message S b acc method payload coins
        ≡ err (wrap (wrap e "marshal execute message") "make message")
  unfolding make_message generate_execute_msg marshal
  make_message-eq-err h = ground arith
