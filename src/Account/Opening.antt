-- ===== src/Account/Opening.antt =====
-- What `NewAccount` (account.go) makes of the node's replies.
use terra_go.Base.{◌≡◌, Option, ok, err, ok_value, arith, Error, wrap}
use terra_go.Http.{Context}
use terra_go.Sdk.{Sdk}
use terra_go.World.{World}
use terra_go.Service.Bodies.{Targets}
use terra_go.Service.Auth.{get_account_info}
use terra_go.Service.Tendermint.{get_node_info}
use terra_go.Client.{TerraClient}
use terra_go.Key.{Key, acc_address}
use terra_go.Account.{KeyedAccount, update, updated, new_account}

module _ (S : Sdk) (D : Targets S) (ctx : Option Context) (client : TerraClient S) (key : Key S)
    (w : World S) where
  -- An account that `NewAccount` returns holds the given key and client, the network that the node
  -- names as its chain, and what the node, asked behind that, tells of the key's address.
  pub new_account_sound :
      (acc : KeyedAccount S)
      → (new_account S D ctx client key w).0 ≡ ok acc
      → (info : S.NodeInfo) × ((get_node_info S D client.tendermint ctx w).0 ≡ ok info)
        × (acc.key ≡ key)
        × (acc.client ≡ client)
        × (acc.chain_id ≡ S.network info)
        × ((get_account_info S D client.auth ctx
              (acc_address S key)
              (get_node_info S D client.tendermint ctx w).1).0
            ≡ ok acc.account)
  unfolding new_account updated update
  new_account_sound acc e =
      let (info, told) = ok_value (get_node_info S D client.tendermint ctx w).0 (ground arith) in
      let w' = (get_node_info S D client.tendermint ctx w).1 in
      let (account, answered) =
        ok_value (get_account_info S D client.auth ctx (acc_address S key) w').0 (ground arith) in
      (info, told, ground arith, ground arith, ground arith, ground arith)

  -- A node that does not tell its network: the error comes back, and nothing else is done.
  pub new_account_refused :
      {e : Error}
      → (get_node_info S D client.tendermint ctx w).0 ≡ err e
      → new_account S D ctx client key w
        ≡ (err (wrap e "fetch node info"), (get_node_info S D client.tendermint ctx w).1)
  unfolding new_account
  new_account_refused h = ground arith
