-- ===== src/Sdk/Amino.antt =====
-- The codec, the modules and terra's wasm message that codec.go and types/wasm.go use: types and
-- operations of cosmos-sdk, go-amino and terra-project/core, and their documented behaviour.
use Prim.Native.String.{String}
use text.Mathlib.Text.{◌==◌ as str_eq}
use terra_go.Base.{
  ◌≡◌, ◌↔◌, Bool, true, Option, none, some, List, [], ◌∷◌, Outcome, ok, Error, Action, pure, ◌>>◌,
  is_ok, false, if◌then◌else◌,
}
use terra_go.Sdk.Structs.{Bytes, Coin, MsgExecuteContract}
use terra_go.Sdk.Operations.{Sdk}

-- `wasm.MsgExecuteContract` of terra-project/core.
pub record WasmExecuteContract (S : Sdk) : Type 0 where
  pub sender : Bytes
  pub contract : Bytes
  pub execute_msg : String
  pub coins : List (Coin S.kinds)

-- A codec is filled by mutation; registering panics where it is refused.
pub record Amino (S : Sdk) : Type 1 where
  -- a Go type, and a module's basics
  pub Concrete : Type 0
  pub AppModuleBasic : Type 0
  pub ProposalHandler : Type 0
  pub new : S.Codec
  pub register_concrete : Concrete → String → Action S.Codec (Unit {0})
  pub register_codec : AppModuleBasic → Action S.Codec (Unit {0})
  -- vesting.RegisterCodec, cosmostypes.RegisterCodec, codec.RegisterCrypto, codec.RegisterEvidences
  pub register_vesting : Action S.Codec (Unit {0})
  pub register_types : Action S.Codec (Unit {0})
  pub register_crypto : Action S.Codec (Unit {0})
  pub register_evidences : Action S.Codec (Unit {0})
  -- the types that are registered one by one; the third is the program's own
  pub msg_store_code : Concrete
  pub msg_instantiate_contract : Concrete
  pub msg_execute_contract : Concrete
  pub msg_migrate_contract : Concrete
  pub msg_update_contract_owner : Concrete
  -- the order in which `range` visits the manager's map
  pub visiting : List AppModuleBasic → List AppModuleBasic
  pub genutil : AppModuleBasic
  pub auth : AppModuleBasic
  pub bank : AppModuleBasic
  pub staking : AppModuleBasic
  pub mint : AppModuleBasic
  pub distribution : AppModuleBasic
  pub gov : List ProposalHandler → AppModuleBasic
  pub params : AppModuleBasic
  pub crisis : AppModuleBasic
  pub slashing : AppModuleBasic
  pub supply : AppModuleBasic
  pub evidence : AppModuleBasic
  pub upgrade : AppModuleBasic
  pub oracle : AppModuleBasic
  pub market : AppModuleBasic
  pub treasury : AppModuleBasic
  pub msgauth : AppModuleBasic
  pub params_proposal : ProposalHandler
  pub distribution_proposal : ProposalHandler
  pub upgrade_proposal : ProposalHandler
  pub tax_rate_update_proposal : ProposalHandler
  pub reward_weight_update_proposal : ProposalHandler
  -- MustMarshalJSON of an execution message, MustSortJSON
  pub must_marshal_json : S.Codec → MsgExecuteContract S.kinds → Outcome String
  pub must_sort_json : String → Outcome String
  -- the methods of terra's message
  pub route : WasmExecuteContract S → String
  pub msg_type : WasmExecuteContract S → String
  pub validate_basic : WasmExecuteContract S → Option Error
  pub get_signers : WasmExecuteContract S → List Bytes

module _ {S : Sdk} (A : Amino S) where
  -- What a registration function adds: types with their names, in order.
  abbrev pub Registrations : Type 0
  Registrations = List (A.Concrete × String)

  abbrev pub register_all : Registrations → Action S.Codec (Unit {0})
  register_all [] = pure tt
  register_all ((t, name) ∷ rs) = A.register_concrete t name >> register_all rs

-- A codec knows the name of each registered type and the type of each name. A new one knows none;
-- registering adds one pair if both are new, and panics otherwise. The other packages register lists
-- of types. The JSON of an execution message depends on the name of its type only.
pub record AminoLaws {S : Sdk} (A : Amino S) : Type 0 where
  pub name_of : S.Codec → A.Concrete → Option String
  pub concrete_of : S.Codec → String → Option A.Concrete
  pub same : A.Concrete → A.Concrete → Bool
  pub same_iff : (t u : A.Concrete) → (same t u ≡ true) ↔ (t ≡ u)
  pub name_of-new : (t : A.Concrete) → name_of A.new t ≡ none
  pub concrete_of-new : (name : String) → concrete_of A.new name ≡ none
  pub registered : A.Concrete → String → S.Codec → S.Codec
  pub register_fresh :
      (t : A.Concrete) (name : String) (c : S.Codec)
      → name_of c t ≡ none
      → concrete_of c name ≡ none
      → A.register_concrete t name c ≡ (ok tt, registered t name c)
  pub name_of-registered :
      (t : A.Concrete) (name : String) (c : S.Codec) (u : A.Concrete)
      → name_of (registered t name c) u ≡ (if same u t then some name else name_of c u)
  pub concrete_of-registered :
      (t : A.Concrete) (name : String) (c : S.Codec) (k : String)
      → concrete_of (registered t name c) k ≡ (if str_eq k name then some t else concrete_of c k)
  pub register_known :
      (t u : A.Concrete) (name : String) (c : S.Codec)
      → concrete_of c name ≡ some u
      → is_ok (A.register_concrete t name c).0 ≡ false
  pub module_registrations : A.AppModuleBasic → Registrations A
  pub register_codec-eq :
      (m : A.AppModuleBasic) (c : S.Codec)
      → A.register_codec m c ≡ register_all A (module_registrations m) c
  pub vesting_registrations : Registrations A
  pub register_vesting-eq :
      (c : S.Codec) → A.register_vesting c ≡ register_all A vesting_registrations c
  pub types_registrations : Registrations A
  pub register_types-eq : (c : S.Codec) → A.register_types c ≡ register_all A types_registrations c
  pub crypto_registrations : Registrations A
  pub register_crypto-eq :
      (c : S.Codec) → A.register_crypto c ≡ register_all A crypto_registrations c
  pub evidences_registrations : Registrations A
  pub register_evidences-eq :
      (c : S.Codec) → A.register_evidences c ≡ register_all A evidences_registrations c
  pub must_marshal_json-name :
      (c d : S.Codec) (w : MsgExecuteContract S.kinds)
      → name_of c A.msg_execute_contract ≡ name_of d A.msg_execute_contract
      → A.must_marshal_json c w ≡ A.must_marshal_json d w
