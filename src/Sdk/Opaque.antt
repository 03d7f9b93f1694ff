-- ===== src/Sdk/Opaque.antt =====
-- The types of third-party packages whose values the program only passes on.
pub record Kinds : Type 1 where
  -- everything outside the process: the node, the network, a keybase's storage
  pub Net : Type 0
  pub Codec : Type 0
  pub Float : Type 0
  -- cosmostypes.Int, Uint, Dec
  pub Int : Type 0
  pub Uint : Type 0
  pub Decimal : Type 0
  -- cosmosauth.Account, p2p.DefaultNodeInfo, cosmosrpc.SyncingResponse, tdmttypes.BlockID, Block
  pub ChainAccount : Type 0
  pub NodeInfo : Type 0
  pub SyncingResponse : Type 0
  pub BlockId : Type 0
  pub Block : Type 0
  -- terrawasm.CodeInfo, terrawasm.ContractInfo, cosmostypes.TxResponse
  pub CodeInfo : Type 0
  pub ContractInfo : Type 0
  pub TxResponse : Type 0
  -- crypto.PubKey, terraauth.StdFee, terraauth.StdTx, keys.Keybase, keys.Info
  pub PubKey : Type 0
  pub StdFee : Type 0
  pub StdTx : Type 0
  pub Keybase : Type 0
  pub KeyInfo : Type 0
  -- the messages of other packages, such as bank.MsgSend
  pub OtherMsg : Type 0
