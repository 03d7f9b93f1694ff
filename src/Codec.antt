-- ===== src/Codec.antt =====
-- codec.go: the codec of the program's transactions.
pub mod Filling
pub mod Registrations
use terra_go.Base.{List, [], ◌∷◌, Outcome, ok, err, panic, Action, pure, ◌>>=◌, ◌>>◌}
use terra_go.Sdk.{Sdk}
use terra_go.Sdk.Amino.{Amino}

module _ {S : Sdk} (A : Amino S) where
  -- The modules of the manager, in the order of the source. terra's own wasm module is not among them.
  abbrev pub manager : List A.AppModuleBasic
  manager =
      A.genutil
      ∷ A.auth
      ∷ A.bank
      ∷ A.staking
      ∷ A.mint
      ∷ A.distribution
      ∷ A.gov (
          A.params_proposal ∷ A.distribution_proposal ∷ A.upgrade_proposal
          ∷ A.tax_rate_update_proposal ∷ A.reward_weight_update_proposal ∷ [])
      ∷ A.params
      ∷ A.crisis
      ∷ A.slashing
      ∷ A.supply
      ∷ A.evidence
      ∷ A.upgrade
      ∷ A.oracle
      ∷ A.market
      ∷ A.treasury
      ∷ A.msgauth
      ∷ []

  -- `BasicManager.RegisterCodec`: the modules are the values of a map.
  unfoldable pub register_manager : List A.AppModuleBasic → Action S.Codec (Unit {0})
  register_manager [] = pure tt
  register_manager (m ∷ ms) = A.register_codec m >> register_manager ms

  -- The five types that are registered one by one.
  unfoldable pub register_wasm : Action S.Codec (Unit {0})
  register_wasm = do
    A.register_concrete A.msg_store_code "wasm/MsgStoreCode"
    A.register_concrete A.msg_instantiate_contract "wasm/MsgInstantiateContract"
    A.register_concrete A.msg_execute_contract "wasm/MsgExecuteContract"
    A.register_concrete A.msg_migrate_contract "wasm/MsgMigrateContract"
    A.register_concrete A.msg_update_contract_owner "wasm/MsgUpdateContractOwner"

  unfoldable pub make_codec : Outcome S.Codec
  unfolding register_wasm
  make_codec =
      let (r, cdc) =
        (do
          register_wasm
          register_manager (A.visiting manager)
          A.register_vesting
          A.register_types
          A.register_crypto
          A.register_evidences)
          A.new in
      elim r [ ok _ ↦ ok cdc | err e ↦ err e | panic p ↦ panic p ]
