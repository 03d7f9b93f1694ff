-- ===== src/Account/Interface.antt =====
-- account.go: the interface Account, and keyedAccount as its implementation.
use Prim.Native.String.{String}
use terra_go.Base.{Option, Action}
use terra_go.Http.{Context}
use terra_go.Sdk.{Sdk, Bytes, StdSignMsg}
use terra_go.Service.Bodies.{Targets}
use terra_go.Client.{TerraClient}
use terra_go.Key.{acc_address, pub_key}
use terra_go.Account.{KeyedAccount, Session, CreateTxOptions, update, create_tx, create_and_sign_tx}

-- The embedded account of cosmos-sdk is nil until the first update; the calls act on the session of
-- the account.
pub record AccountInterface (S : Sdk) : Type 0 where
  pub get_address : Bytes
  pub get_pub_key : S.PubKey
  pub get_client : TerraClient S
  pub get_chain_id : String
  pub update : Option Context → Action (Session S) (Unit {0})
  pub create_tx : Option Context → CreateTxOptions S → Action (Session S) (StdSignMsg S.kinds)
  pub create_and_sign_tx :
      Option Context → CreateTxOptions S → Action (Session S) (S.StdTx × StdSignMsg S.kinds)
  pub account : Option S.ChainAccount

abbrev pub keyed_account : (S : Sdk) → Targets S → KeyedAccount S → AccountInterface S
keyed_account S D a = record {
  get_address = acc_address S a.key;
  get_pub_key = pub_key S a.key;
  get_client = a.client;
  get_chain_id = a.chain_id;
  update = update S D;
  create_tx = create_tx S D;
  create_and_sign_tx = create_and_sign_tx S D;
  account = a.account;
}
