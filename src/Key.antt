-- ===== src/Key.antt =====
-- key.go: keys that sign transactions, from raw bytes or from a keybase.
pub mod Hex
pub mod Raw
pub mod Bounds
pub mod Signing
use Prim.Native.String.{String}
use terra_go.Base.{
  Option, none, some, [], ◌∷◌, Outcome, ok, panic, Action, pure, lift, wrapped, ◌>>=◌,
}
use terra_go.Sdk.{Sdk, Bytes, StdSignMsg, StdSignature}
use terra_go.World.{World, outside}
use terra_go.Key.Hex.{hex_decode, zeros}

module _ (S : Sdk) where
  pub record RawKey : Type 0 where
    pub priv_key : Bytes

  pub record WalletKey : Type 0 where
    pub name : String
    pub passphrase : String
    pub info : S.KeyInfo
    pub wallet : S.Keybase

  -- The two implementations of the interface `Key`.
  pub data Key : Type 0 where
    raw : RawKey → Key
    wallet : WalletKey → Key

  -- The decoder's error is dropped.
  unfoldable pub new_raw_key : Bytes → Outcome Key
  new_raw_key hexed = elim (hex_decode (zeros 32) hexed) [
    | none ↦ panic "index out of range"
    | some k ↦ ok (raw (record { priv_key = k }))
  ]

  unfoldable pub new_wallet_key : String → String → S.Keybase → Action (World S) Key
  new_wallet_key name passphrase base = do
    info ← wrapped "get account info from keybase" (outside (S.keybase_get base name))
    pure (wallet (record { name = name; passphrase = passphrase; info = info; wallet = base }))

  unfoldable pub acc_address : Key → Bytes
  acc_address (raw r) = S.address_of (S.pub_key_of r.priv_key)
  acc_address (wallet w) = S.info_address w.info

  unfoldable pub val_address : Key → Bytes
  val_address (raw r) = S.address_of (S.pub_key_of r.priv_key)
  val_address (wallet w) = S.info_address w.info

  unfoldable pub pub_key : Key → S.PubKey
  pub_key (raw r) = S.pub_key_of r.priv_key
  pub_key (wallet w) = S.info_pub_key w.info

  unfoldable pub raw_make_signature :
      RawKey → StdSignMsg S.kinds → Action (World S) (StdSignature S.kinds)
  raw_make_signature r msg = do
    sign ← wrapped "sign with terra key" (lift (S.sign r.priv_key (S.sign_bytes msg)))
    pure (record { pub_key = S.pub_key_of r.priv_key; signature = sign })

  unfoldable pub wallet_make_signature :
      WalletKey → StdSignMsg S.kinds → Action (World S) (StdSignature S.kinds)
  wallet_make_signature w msg = outside (S.make_signature w.wallet w.name w.passphrase msg)

  unfoldable pub raw_sign_tx : RawKey → StdSignMsg S.kinds → Action (World S) S.StdTx
  raw_sign_tx r msg = do
    sign ← wrapped "make signature" (raw_make_signature r msg)
    pure (S.new_std_tx msg.msgs msg.fee (sign ∷ []) msg.memo)

  unfoldable pub wallet_sign_tx : WalletKey → StdSignMsg S.kinds → Action (World S) S.StdTx
  wallet_sign_tx w msg = do
    sign ← wrapped "make signature" (wallet_make_signature w msg)
    pure (S.new_std_tx msg.msgs msg.fee (sign ∷ []) msg.memo)

  -- The interface's methods.
  unfoldable pub make_signature : Key → StdSignMsg S.kinds → Action (World S) (StdSignature S.kinds)
  make_signature (raw r) msg = raw_make_signature r msg
  make_signature (wallet w) msg = wallet_make_signature w msg

  unfoldable pub sign_tx : Key → StdSignMsg S.kinds → Action (World S) S.StdTx
  unfolding raw_sign_tx wallet_sign_tx
  sign_tx (raw r) msg = raw_sign_tx r msg
  sign_tx (wallet w) msg = wallet_sign_tx w msg
