-- ===== src/Types/Messages.antt =====
-- types/wasm.go: the methods of the execution message.
pub mod SignBytes
use Prim.Native.String.{String}
use terra_go.Base.{Option, List, [], Outcome, ok, err, panic, Error}
use terra_go.Value.{and_then}
use terra_go.Sdk.{Sdk, Bytes, MsgExecuteContract}
use terra_go.Sdk.Amino.{Amino, WasmExecuteContract}

module _ {S : Sdk} (A : Amino S) where
  -- terra's message with the same fields.
  abbrev pub to_wasm : MsgExecuteContract S.kinds → WasmExecuteContract S
  to_wasm w = record {
    sender = w.sender;
    contract = w.contract;
    execute_msg = w.execute_msg;
    coins = w.coins;
  }

  -- `wasm.MsgExecuteContract{}`
  abbrev pub zero_msg : WasmExecuteContract S
  zero_msg = record { sender = []; contract = []; execute_msg = ""; coins = [] }

  unfoldable pub route : MsgExecuteContract S.kinds → String
  route w = A.route zero_msg

  unfoldable pub msg_type : MsgExecuteContract S.kinds → String
  msg_type w = A.msg_type zero_msg

  unfoldable pub validate_basic : MsgExecuteContract S.kinds → Option Error
  validate_basic w = A.validate_basic (to_wasm w)

  unfoldable pub get_signers : MsgExecuteContract S.kinds → List Bytes
  get_signers w = A.get_signers (to_wasm w)

  -- The message in the JSON of a codec that knows nothing else, with its keys sorted.
  unfoldable pub get_sign_bytes : MsgExecuteContract S.kinds → Outcome String
  get_sign_bytes w =
      let (r, cdc) = A.register_concrete A.msg_execute_contract "wasm/MsgExecuteContract" A.new in
      elim r [
        | ok _ ↦ and_then (A.must_marshal_json cdc w) A.must_sort_json
        | err e ↦ err e
        | panic p ↦ panic p
      ]
