-- ===== src/Codec/Registrations.antt =====
-- What the codec of codec.go knows, whatever order the manager's modules are visited in.
use Prim.Native.String.{String}
use terra_go.Base.{
  ◌≡◌, refl, sym, ap, ◌∙◌, fun_ext, false, some, List, [], ◌∷◌, ◌++◌, ok, Action, ◌>>◌, is_ok,
  arith,
}
use terra_go.Sdk.{Sdk}
use terra_go.Sdk.Amino.{Amino, AminoLaws, Registrations, register_all}
use terra_go.Codec.{manager, register_manager, register_wasm, make_codec}
use terra_go.Codec.Filling.{
  name_in, type_in, Distinct, filled, Fresh-new, register_all-filled, register_all-append,
  known_type, known_name,
}

module _ {S : Sdk} (A : Amino S) (L : AminoLaws A) where
  -- What `MakeCodec` registers, in the order in which it visits the manager's modules.
  abbrev pub wasm_registrations : Registrations A
  wasm_registrations =
      (A.msg_store_code, "wasm/MsgStoreCode")
      ∷ (A.msg_instantiate_contract, "wasm/MsgInstantiateContract")
      ∷ (A.msg_execute_contract, "wasm/MsgExecuteContract")
      ∷ (A.msg_migrate_contract, "wasm/MsgMigrateContract")
      ∷ (A.msg_update_contract_owner, "wasm/MsgUpdateContractOwner")
      ∷ []

  abbrev pub manager_registrations : List A.AppModuleBasic → Registrations A
  manager_registrations [] = []
  manager_registrations (m ∷ ms) = L.module_registrations m ++ manager_registrations ms

  abbrev pub all_registrations : Registrations A
  all_registrations =
      wasm_registrations
      ++ (manager_registrations (A.visiting (manager A))
          ++ (L.vesting_registrations
              ++ (L.types_registrations ++ (L.crypto_registrations ++ L.evidences_registrations))))

  register_manager-eq :
      (ms : List A.AppModuleBasic) (c : S.Codec)
      → register_manager A ms c ≡ register_all A (manager_registrations ms) c
  unfolding register_manager
  register_manager-eq [] c = refl
  register_manager-eq (m ∷ ms) c = ground (
    arith,
    L.register_codec-eq m c,
    register_all-append A L (L.module_registrations m) (manager_registrations ms) c,
    register_manager-eq ms (A.register_codec m c).1,
  )

  register_wasm-eq : (c : S.Codec) → register_wasm A c ≡ register_all A wasm_registrations c
  unfolding register_wasm
  register_wasm-eq c = ground arith

  -- An action that registers a list, and then one that registers another.
  then_registers :
      {m k : Action S.Codec (Unit {0})} (rs qs : Registrations A)
      → m ≡ register_all A rs
      → k ≡ register_all A qs
      → (m >> k) ≡ register_all A (rs ++ qs)
  then_registers rs qs e e' = rw (e, e') (sym (fun_ext (register_all-append A L rs qs)))

  registering :
      (do
        register_wasm A
        register_manager A (A.visiting (manager A))
        A.register_vesting
        A.register_types
        A.register_crypto
        A.register_evidences)
      ≡ register_all A all_registrations
  registering = then_registers wasm_registrations _ (fun_ext register_wasm-eq) (
      then_registers (manager_registrations (A.visiting (manager A))) _
        (fun_ext (register_manager-eq (A.visiting (manager A))))
        (then_registers L.vesting_registrations _ (fun_ext L.register_vesting-eq) (
          then_registers L.types_registrations _ (fun_ext L.register_types-eq) (
            then_registers L.crypto_registrations _ (fun_ext L.register_crypto-eq)
              (fun_ext L.register_evidences-eq)))))

  -- `MakeCodec` does not panic.
  pub make_codec_lem :
      Distinct A L all_registrations → make_codec A ≡ ok (filled A L all_registrations A.new)
  unfolding make_codec
  make_codec_lem d = ground (
    arith,
    ap (λ (act : Action S.Codec (Unit {0})). act A.new) registering,
    register_all-filled A L all_registrations A.new d (Fresh-new A L all_registrations),
  )

  wasm_name :
      Distinct A L all_registrations
      → name_in A L all_registrations A.msg_execute_contract ≡ some "wasm/MsgExecuteContract"
  wasm_name d = ground (
    arith,
    L.same_iff A.msg_execute_contract A.msg_store_code,
    L.same_iff A.msg_execute_contract A.msg_instantiate_contract,
    L.same_iff A.msg_execute_contract A.msg_execute_contract,
    L.same_iff A.msg_store_code A.msg_execute_contract,
    L.same_iff A.msg_instantiate_contract A.msg_execute_contract,
  )

  -- Where no type and no name is registered twice, `MakeCodec` returns a codec, in whatever order the
  -- modules of the manager are visited. The codec reads "wasm/MsgExecuteContract" as the program's own
  -- message and writes the message under that name, it knows a name and a type exactly as the list of
  -- the registrations does, and registering any type under the name again, as terra's own wasm module
  -- would, panics.
  pub make_codec_sound :
      (t : A.Concrete) (name : String)
      → Distinct A L all_registrations
      → (c : S.Codec) × (make_codec A ≡ ok c)
        × ((L.concrete_of c "wasm/MsgExecuteContract" ≡ some A.msg_execute_contract)
            × (L.name_of c A.msg_execute_contract ≡ some "wasm/MsgExecuteContract")
            × (L.concrete_of c name ≡ type_in A L all_registrations name)
            × (L.name_of c t ≡ name_in A L all_registrations t)
            × (is_ok (A.register_concrete t "wasm/MsgExecuteContract" c).0 ≡ false))
  make_codec_sound t name d =
      let read = known_type A L all_registrations "wasm/MsgExecuteContract" d in
      (
        filled A L all_registrations A.new,
        make_codec_lem d,
        (
          read,
          known_name A L all_registrations A.msg_execute_contract d ∙ wasm_name d,
          known_type A L all_registrations name d,
          known_name A L all_registrations t d,
          L.register_known t A.msg_execute_contract "wasm/MsgExecuteContract"
              (filled A L all_registrations A.new) read,
        ),
      )
