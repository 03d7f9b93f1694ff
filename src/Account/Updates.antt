-- ===== src/Account/Updates.antt =====
-- What the methods of an account change in it, on every outcome (account.go).
use terra_go.Base.{◌≡◌, Option, ok, arith, is_ok, false, ◌⊎◌}
use terra_go.Http.{Context}
use terra_go.Sdk.{Sdk}
use terra_go.Service.Bodies.{Targets}
use terra_go.Service.Auth.{get_account_info}
use terra_go.Key.{acc_address}
use terra_go.Account.{
  KeyedAccount, Session, CreateTxOptions, update, create_tx, create_tx_with, with_defaults,
  create_and_sign_tx,
}

-- Two states of one account: the key, the client and the chain are the same.
pub record SameIdentity (S : Sdk) (a b : KeyedAccount S) : Type 0 where
  pub key : b.key ≡ a.key
  pub client : b.client ≡ a.client
  pub chain_id : b.chain_id ≡ a.chain_id

module _ (S : Sdk) (D : Targets S) (ctx : Option Context) (s : Session S) where
  pub update-SameIdentity : SameIdentity S s.account (update S D ctx s).1.account
  unfolding update
  update-SameIdentity = ground arith

  -- `Update` is atomic: it stores what the node reports of the key's address, or it fails and leaves
  -- the account as it was.
  pub update_atomic :
      ((update S D ctx s).0 ≡ ok tt
        × ((get_account_info S D s.account.client.auth ctx (acc_address S s.account.key) s.world).0
            ≡ ok (update S D ctx s).1.account.account))
      ⊎ ((is_ok (update S D ctx s).0 ≡ false) × ((update S D ctx s).1.account ≡ s.account))
  unfolding update
  update_atomic = ground arith

  create_tx_with-account :
      (opts : CreateTxOptions S)
      → (create_tx_with S D ctx opts s).1.account ≡ (update S D ctx s).1.account
  unfolding create_tx_with
  create_tx_with-account opts = ground arith

  -- Whatever the outcome, `CreateTx` and `CreateAndSignTx` leave the account as one `Update` does:
  -- the later steps, and a failure of any of them, change nothing in it.
  pub create_tx-update :
      (opts : CreateTxOptions S)
      → ((create_tx S D ctx opts s).1.account ≡ (update S D ctx s).1.account)
        × ((create_and_sign_tx S D ctx opts s).1.account ≡ (update S D ctx s).1.account)
  unfolding create_tx create_and_sign_tx
  create_tx-update opts = ground (arith, create_tx_with-account (with_defaults S opts))
