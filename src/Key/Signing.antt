-- ===== src/Key/Signing.antt =====
-- What the two kinds of keys sign (key.go).
use terra_go.Base.{ok_value, ◌≡◌, ok, [], ◌∷◌, arith, List}
use terra_go.Sdk.{Sdk, StdSignMsg, StdSignature}
use terra_go.Sdk.Laws.{StdTxLaws}
use terra_go.World.{World}
use terra_go.Key.{
  Key, raw, wallet, make_signature, sign_tx, raw_make_signature, wallet_make_signature,
}

module _ (S : Sdk) where
  sign_tx-new_std_tx :
      (k : Key S) (msg : StdSignMsg S.kinds) (w w' : World S) (tx : S.StdTx)
      → sign_tx S k msg w ≡ (ok tx, w')
      → (sig : StdSignature S.kinds) × (make_signature S k msg w ≡ (ok sig, w'))
        × (tx ≡ S.new_std_tx msg.msgs msg.fee (sig ∷ []) msg.memo)
  unfolding sign_tx make_signature
  sign_tx-new_std_tx (raw r) msg w w' tx e =
      let (sig, made) = ok_value (raw_make_signature S r msg w).0 (ground arith) in
      (sig, ground arith, ground arith)
  sign_tx-new_std_tx (wallet k) msg w w' tx e =
      let (sig, made) = ok_value (wallet_make_signature S k msg w).0 (ground arith) in
      (sig, ground arith, ground arith)

  -- A transaction that either kind of key signs has the message's messages, fee and memo, and one
  -- signature, which is the key's own of that message.
  pub sign_tx_fields :
      StdTxLaws S
      → (k : Key S) (msg : StdSignMsg S.kinds) (w w' : World S) (tx : S.StdTx)
      → sign_tx S k msg w ≡ (ok tx, w')
      → (S.tx_msgs tx ≡ msg.msgs)
        × (S.tx_fee tx ≡ msg.fee)
        × (S.tx_memo tx ≡ msg.memo)
        × ((sig : StdSignature S.kinds) × (S.tx_signatures tx ≡ sig ∷ [])
            × (make_signature S k msg w ≡ (ok sig, w')))
  sign_tx_fields L k msg w w' tx e =
      let (sig, made, same) = sign_tx-new_std_tx k msg w w' tx e in
      let ss : List (StdSignature S.kinds) = sig ∷ [] in
      (
        rw same (L.msgs msg.msgs msg.fee ss msg.memo),
        rw same (L.fee msg.msgs msg.fee ss msg.memo),
        rw same (L.memo_kept msg.msgs msg.fee ss msg.memo),
        (sig, rw same (L.signatures msg.msgs msg.fee ss msg.memo), made),
      )
