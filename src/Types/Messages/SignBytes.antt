-- ===== src/Types/Messages/SignBytes.antt =====
-- What types/wasm.go signs, beside the JSON of the transactions' codec.
use terra_go.Base.{◌≡◌, ok, arith}
use terra_go.Value.{and_then}
use terra_go.Sdk.{Sdk, MsgExecuteContract}
use terra_go.Sdk.Amino.{Amino, AminoLaws}
use terra_go.Codec.{make_codec}
use terra_go.Codec.Filling.{Distinct}
use terra_go.Codec.Registrations.{all_registrations, make_codec_sound}
use terra_go.Types.Messages.{get_sign_bytes}

module _ {S : Sdk} (A : Amino S) (L : AminoLaws A) where
  -- Where the registrations of `MakeCodec` are distinct, `MakeCodec` returns a codec, and the sign bytes
  -- of an execution message, which a fresh codec with this one type writes, are the sorted JSON that the
  -- codec of `MakeCodec` writes for it, panics included.
  pub get_sign_bytes-codec :
      (w : MsgExecuteContract S.kinds)
      → Distinct A L (all_registrations A L)
      → (c : S.Codec) × (make_codec A ≡ ok c)
        × (get_sign_bytes A w ≡ and_then (A.must_marshal_json c w) A.must_sort_json)
  unfolding get_sign_bytes
  get_sign_bytes-codec w d =
      let (c, made, (_, named, _, _, _)) = make_codec_sound A L A.msg_execute_contract "" d in
      let fresh =
        L.register_fresh A.msg_execute_contract "wasm/MsgExecuteContract" A.new
          (L.name_of-new A.msg_execute_contract) (L.concrete_of-new "wasm/MsgExecuteContract") in
      let mine =
        L.name_of-registered A.msg_execute_contract "wasm/MsgExecuteContract" A.new
          A.msg_execute_contract in
      let same_json =
        L.must_marshal_json-name
          (L.registered A.msg_execute_contract "wasm/MsgExecuteContract" A.new) c w in
      (c, made, ground (arith, L.same_iff A.msg_execute_contract A.msg_execute_contract))
