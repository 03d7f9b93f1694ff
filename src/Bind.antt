-- ===== src/Bind.antt =====
-- bind/: messages for a contract, and their execution by an account.
pub mod Messages
pub mod Execution
pub mod EndToEnd
pub mod Queries
pub mod Interface
pub mod Entries
use Prim.Native.String.{String}
use terra_go.Base.{
  Error, Option, none, some, List, [], ◌∷◌, Outcome, ok, Action, pure, lift, fail, wrap, wrapped,
  wrap_outcome, ◌>>=◌,
}
use terra_go.Types.{BroadcastMode, mode_block}
use terra_go.Value.{Value, null, obj, end, field, Q, q_value, marshal, and_then}
use terra_go.Http.{Context}
use terra_go.Sdk.{Sdk, Target, Bytes, Coin, Msg, execute_contract, MsgExecuteContract}
use terra_go.World.{World}
use terra_go.Service.Bodies.{Targets}
use terra_go.Service.Contract.{query_contract_store}
use terra_go.Service.Transaction.{broadcast_tx}
use terra_go.Client.{TerraClient}
use terra_go.Key.{acc_address}
use terra_go.Account.{KeyedAccount, Session, CreateTxOptions, remote, create_and_sign_tx}

module _ (S : Sdk) where
  pub record BaseContract : Type 0 where
    pub addr : Bytes
    pub client : TerraClient S

  unfoldable pub generate_execute_msg :
      Bytes → Bytes → Value → List (Coin S.kinds) → Outcome (MsgExecuteContract S.kinds)
  generate_execute_msg sender contract execute_msg coins =
      and_then (wrap_outcome "marshal execute message" (marshal execute_msg)) λ raw.
        ok (record { sender = sender; contract = contract; execute_msg = raw; coins = coins })

  -- `if payload == nil { payload = types.Q{} }`
  abbrev pub or_empty : Value → Value
  or_empty null = obj end
  or_empty v = v

  unfoldable pub make_message :
      BaseContract
      → KeyedAccount S
      → String
      → Value
      → List (Coin S.kinds)
      → Outcome (List (Msg S.kinds))
  make_message b acc method payload coins =
      and_then
        (wrap_outcome "make message" (
          generate_execute_msg (acc_address S acc.key) b.addr
            (obj (field method (or_empty payload) end)) coins))
        λ msg. ok (execute_contract msg ∷ [])

  -- The options of an execution that is given none.
  abbrev pub default_options : CreateTxOptions S
  default_options = record {
    msgs = [];
    fee = none;
    gas_adjustment = S.float_literal 12 1;
    gas_prices = [];
    sequence = none;
    memo = "";
  }

  abbrev pub options_or_default : Option (CreateTxOptions S) → CreateTxOptions S
  options_or_default none = default_options
  options_or_default (some opts) = opts

  abbrev pub mode_or_block : Option BroadcastMode → BroadcastMode
  mode_or_block none = mode_block
  mode_or_block (some mode) = mode

  -- A broadcast that comes back with an error beside its reply is an error.
  abbrev pub accepted : S.TxResponse × Option Error → Action (Session S) S.TxResponse
  accepted (resp, none) = pure resp
  accepted (resp, some e) = fail (wrap e "broadcast tx")

module _ (S : Sdk) (D : Targets S) where
  -- `Execute`; the account's own client signs, the contract's broadcasts.
  unfoldable pub execute :
      BaseContract S
      → Option Context
      → List (Msg S.kinds)
      → Option BroadcastMode
      → Option (CreateTxOptions S)
      → Action (Session S) S.TxResponse
  execute b ctx msgs mode opts = do
    let create_option = record (options_or_default S opts) { msgs = msgs }
    signed ← wrapped "sign tx" (create_and_sign_tx S D ctx create_option)
    result ←
        wrapped "broadcast tx"
          (remote S (broadcast_tx S D b.client.transaction ctx signed.0 (mode_or_block S mode)))
    accepted S result

module _ (S : Sdk) where
  unfoldable pub query :
      {A : Type 0} → BaseContract S → Option Context → Q → Target S.Codec A → Action (World S) A
  query b ctx q resp =
      wrapped "query contract store"
        (query_contract_store S b.client.contract ctx b.addr (q_value q) resp)
