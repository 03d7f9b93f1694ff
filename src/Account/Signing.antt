-- ===== src/Account/Signing.antt =====
-- What `CreateAndSignTx` returns, with a raw key, if the node answers (account.go).
use Prim.Native.String.{String}
use terra_go.Base.{◌≡◌, Option, some, ok, [], ◌∷◌, arith}
use terra_go.Http.{Context, Url}
use terra_go.Sdk.{Sdk, Bytes, StdSignature}
use terra_go.World.{World}
use terra_go.HttpClient.{Client}
use terra_go.Service.Bodies.{Targets}
use terra_go.Key.{RawKey, raw, acc_address, sign_tx, raw_make_signature}
use terra_go.Account.{CreateTxOptions, create_and_sign_tx}
use terra_go.Account.Requests.{Tells, message_of, session_of, create_tx_answered, create_tx_left}

-- The signature of a raw key.
abbrev pub signature_of : (S : Sdk) → RawKey S → Bytes → StdSignature S.kinds
signature_of S r sig = record { pub_key = S.pub_key_of r.priv_key; signature = sig }

module _ (S : Sdk) (D : Targets S) (x : Context) (c : Client S) {u : Url} (r : RawKey S)
    (id : String) (old : Option S.ChainAccount) (w : World S) {n : S.Net} {acc : S.ChainAccount}
    (tells : Tells S D c u x (S.address_string (acc_address S (raw r))) w.net n acc) where
  -- Over a node that tells the account and a valid balance, `CreateAndSignTx` with a fee in its options
  -- and a raw key that signs returns the account's message, and the transaction with the messages, the
  -- fee and the memo of the options and the key's one signature of that message.
  pub create_and_sign_tx_answered :
      (opts : CreateTxOptions S) {fee : S.StdFee} {sig : Bytes}
      → opts.fee ≡ some fee
      → S.sign r.priv_key
          (S.sign_bytes (message_of S (session_of S c (raw r) id old w).account opts acc fee))
        ≡ ok sig
      → ((create_and_sign_tx S D (some x) opts (session_of S c (raw r) id old w)).0
          ≡ ok (
            S.new_std_tx opts.msgs fee (signature_of S r sig ∷ []) opts.memo,
            message_of S (session_of S c (raw r) id old w).account opts acc fee,
          ))
        × ((create_and_sign_tx S D (some x) opts (session_of S c (raw r) id old w)).1.world.net ≡ n)
  unfolding create_and_sign_tx sign_tx raw_make_signature
  create_and_sign_tx_answered opts given signs = ground (
    arith,
    create_tx_answered S D x c (raw r) id old w tells opts given,
    create_tx_left S D x c (raw r) id old w tells opts given,
  )
