-- ===== src/Bind/EndToEnd.antt =====
-- An execution from the account to the node's reply (bind/contract.go, account.go, key.go).
use Prim.Native.String.{String}
use terra_go.Base.{List, ◌≡◌, ◌∙◌, Option, some, ok, [], ◌∷◌, arith}
use terra_go.Http.{Context, Url}
use terra_go.Types.{BroadcastMode}
use terra_go.Sdk.{Sdk, Bytes, Msg}
use terra_go.World.{World}
use terra_go.HttpClient.{Client}
use terra_go.Service.Bodies.{Targets}
use terra_go.Service.Answering.{AnswersPost}
use terra_go.Client.{new_terra_client}
use terra_go.Key.{RawKey, raw, acc_address}
use terra_go.Account.{CreateTxOptions}
use terra_go.Account.Requests.{Tells, message_of, session_of}
use terra_go.Account.Signing.{signature_of, create_and_sign_tx_answered}
use terra_go.Bind.{BaseContract, execute, mode_or_block}
use terra_go.Bind.Execution.{execute_answered}

module _ (S : Sdk) (D : Targets S) (x : Context) (c : Client S) {u : Url} (r : RawKey S)
    (id : String) (old : Option S.ChainAccount) (w : World S) {n : S.Net} {acc : S.ChainAccount}
    (tells : Tells S D c u x (S.address_string (acc_address S (raw r))) w.net n acc) (addr : Bytes)
    (msgs : List (Msg S.kinds)) (mode : Option BroadcastMode) (opts : CreateTxOptions S) where
  -- The contract at an address, behind the account's client, and the options that it signs with.
  abbrev pub contract_at : BaseContract S
  contract_at = record { addr = addr; client = new_terra_client S c }

  abbrev pub signing_options : CreateTxOptions S
  signing_options = record opts { msgs = msgs }

  -- From the account to the node: over a node that tells the account and a valid balance, with a raw
  -- key that signs the account's message for these messages and the fee of the options, and a node
  -- that answers the broadcast of the transaction with this one signature with a reply of code OK,
  -- an execution returns that reply.
  pub execute_end_to_end :
      {fee : S.StdFee} {sig : Bytes} {text : String} {m : S.Net} {resp : S.TxResponse}
      → opts.fee ≡ some fee
      → S.sign r.priv_key (
          S.sign_bytes
            (message_of S (session_of S c (raw r) id old w).account signing_options acc fee))
        ≡ ok sig
      → S.marshal_broadcast c.codec (record {
        tx = S.new_std_tx msgs fee (signature_of S r sig ∷ []) opts.memo;
        mode = mode_or_block S mode;
      })
        ≡ ok text
      → AnswersPost S c u x D.tx_response "/txs" text n m resp
      → S.code resp ≡ S.code_type_ok
      → (execute S D contract_at (some x) msgs mode (some opts) (session_of S c (raw r) id old w)).0
        ≡ ok resp
  execute_end_to_end {fee} {sig} {m = m} {resp = resp} given signs marshalled ans accepted =
      let (done, left) =
        create_and_sign_tx_answered S D x c r id old w tells signing_options given signs in
      execute_answered S D contract_at x msgs mode (some opts) (session_of S c (raw r) id old w)
        {n = m} {resp = resp}
        (
          S.new_std_tx msgs fee (signature_of S r sig ∷ []) opts.memo,
          message_of S (session_of S c (raw r) id old w).account signing_options acc fee,
        )
        done tells.parsed marshalled (rw left ans)
      ∙ ground arith
