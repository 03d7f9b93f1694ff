-- ===== src/Bind/Execution.antt =====
-- When a contract call is broadcast (bind/contract.go).
use Prim.Native.String.{[], String}
use terra_go.Service.Answering.{AnswersPost}
use terra_go.Service.Transaction.Broadcasts.{broadcast_tx_answered}
use terra_go.Base.{
  [], ◌==◌, err, wrap, message, if◌then◌else◌, some, ◌≡◌, Option, none, List, ok, arith, is_ok,
  false,
}
use terra_go.Types.{BroadcastMode}
use terra_go.Http.{Context, Url}
use terra_go.Sdk.{Sdk, Msg, StdSignMsg}
use terra_go.Service.Bodies.{Targets}
use terra_go.Account.{Session, CreateTxOptions, create_and_sign_tx}
use terra_go.Bind.{BaseContract, execute, options_or_default, mode_or_block}

-- What an execution asks for: with its own messages, and without options at a gas adjustment of 1.2
-- and with nothing else; and without a mode in block mode.
abbrev pub asked_options :
    (S : Sdk) → List (Msg S.kinds) → Option (CreateTxOptions S) → CreateTxOptions S
asked_options S msgs none = record {
  msgs = msgs;
  fee = none;
  gas_adjustment = S.float_literal 12 1;
  gas_prices = [];
  sequence = none;
  memo = "";
}
asked_options S msgs (some opts) = record opts { msgs = msgs }

abbrev pub mode_asked : Option BroadcastMode → BroadcastMode
mode_asked none = "block"
mode_asked (some mode) = mode

module _ (S : Sdk) (D : Targets S) (b : BaseContract S) (ctx : Option Context)
    (msgs : List (Msg S.kinds)) (mode : Option BroadcastMode) (opts : Option (CreateTxOptions S))
    (s : Session S) where
  -- The options that an execution signs with: those given or the defaults, with its own messages.
  abbrev pub signed_options : CreateTxOptions S
  signed_options = record (options_or_default S opts) { msgs = msgs }

  -- Nothing is broadcast unless signing succeeds: on a failure everything is left as signing left it.
  pub execute_unsigned :
      is_ok (create_and_sign_tx S D ctx signed_options s).0 ≡ false
      → ((execute S D b ctx msgs mode opts s).1 ≡ (create_and_sign_tx S D ctx signed_options s).1)
        × (is_ok (execute S D b ctx msgs mode opts s).0 ≡ false)
  unfolding execute
  execute_unsigned failed = ground arith

module _ (S : Sdk) (D : Targets S) (b : BaseContract S) (x : Context) (msgs : List (Msg S.kinds))
    (mode : Option BroadcastMode) (opts : Option (CreateTxOptions S)) (s : Session S) where
  -- Where signing succeeds and the node answers the broadcast of the signed transaction, an execution
  -- returns the node's reply if its code is OK, and otherwise the reply's raw log as the error.
  pub execute_answered :
      {u : Url} {raw : String} {n : S.Net} {resp : S.TxResponse}
      (signed : S.StdTx × StdSignMsg S.kinds)
      → (create_and_sign_tx S D (some x) (signed_options S D b (some x) msgs mode opts s) s).0
        ≡ ok signed
      → S.parse_url b.client.transaction.endpoint ≡ ok u
      → S.marshal_broadcast b.client.transaction.codec
          (record { tx = signed.0; mode = mode_or_block S mode })
        ≡ ok raw
      → AnswersPost S b.client.transaction u x D.tx_response "/txs" raw
          (create_and_sign_tx S D
            (some x)
            (signed_options S D b (some x) msgs mode opts s)
            s).1.world.net
          n
          resp
      → (execute S D b (some x) msgs mode opts s).0 ≡ (
          if S.code resp == S.code_type_ok
          then ok resp
          else err (wrap (message (S.raw_log resp)) "broadcast tx"))
  unfolding execute
  execute_answered signed done parsed marshalled ans = ground (
    arith,
    broadcast_tx_answered S D b.client.transaction signed.0 (mode_or_block S mode)
        (create_and_sign_tx S D (some x) (signed_options S D b (some x) msgs mode opts s) s).1.world
        x parsed marshalled ans,
  )
