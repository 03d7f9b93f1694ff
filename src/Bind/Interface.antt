-- ===== src/Bind/Interface.antt =====
-- bind/contract.go: the interface BaseContract, and baseContract as an implementation.
use Prim.Native.String.{String}
use terra_go.Base.{Option, List, Outcome, Action}
use terra_go.Types.{BroadcastMode}
use terra_go.Value.{Value, Q}
use terra_go.Http.{Context}
use terra_go.Sdk.{Sdk, Target, Bytes, Coin, Msg}
use terra_go.World.{World}
use terra_go.Service.Bodies.{Targets}
use terra_go.Client.{TerraClient}
use terra_go.Account.{KeyedAccount, Session, CreateTxOptions}
use terra_go.Bind.{BaseContract, make_message, execute, query}

-- The account of a message is an argument; that of an execution is the session's.
pub record ContractInterface (S : Sdk) : Type 1 where
  pub get_address : Bytes
  pub get_client : TerraClient S
  pub make_message :
      KeyedAccount S → String → Value → List (Coin S.kinds) → Outcome (List (Msg S.kinds))
  pub execute :
      Option Context
      → List (Msg S.kinds)
      → Option BroadcastMode
      → Option (CreateTxOptions S)
      → Action (Session S) S.TxResponse
  pub query : {A : Type 0} → Option Context → Q → Target S.Codec A → Action (World S) A

-- The struct as the interface.
abbrev pub base_contract : (S : Sdk) → Targets S → BaseContract S → ContractInterface S
base_contract S D b = record {
  get_address = b.addr;
  get_client = b.client;
  make_message = make_message S b;
  execute = execute S D b;
  query = λ ctx q resp. query S b ctx q resp;
}

-- `NewBaseContract`
abbrev pub new_base_contract : (S : Sdk) → Targets S → Bytes → TerraClient S → ContractInterface S
new_base_contract S D addr client = base_contract S D (record { addr = addr; client = client })
