-- ===== src/Account.antt =====
-- account.go: an account with a key, kept up to date from the node, that makes transactions.
pub mod Updates
pub mod Creation
mod Answers
pub mod Requests
pub mod Concurrent
pub mod Signing
pub mod Interface
pub mod Opening
use Prim.Native.String.{String}
use terra_go.Base.{
  ℕ, Option, none, some, List, [], ◌∷◌, Outcome, ok, err, panic, Action, pure, lift, wrapped,
  or_panic, ◌>>=◌, ◌>>◌, ltb, if◌then◌else◌,
}
use terra_go.Base.Text.{◌<>◌}
use terra_go.Http.{Context}
use terra_go.Sdk.{Sdk, Coin, DecCoin, Msg, StdSignMsg}
use terra_go.World.{World}
use terra_go.Service.Bodies.{Targets}
use terra_go.Service.Auth.{get_account_info}
use terra_go.Service.Bank.{get_balance}
use terra_go.Service.Tendermint.{get_node_info}
use terra_go.Service.Transaction.{estimate_fee}
use terra_go.Key.{Key, acc_address, sign_tx}
use terra_go.Client.{TerraClient}

module _ (S : Sdk) where
  -- The embedded account is nil until the first update.
  pub record KeyedAccount : Type 0 where
    pub key : Key S
    pub client : TerraClient S
    pub chain_id : String
    pub account : Option S.ChainAccount

  -- What a method of the account acts on.
  pub record Session : Type 0 where
    pub account : KeyedAccount
    pub world : World S

  pub record CreateTxOptions : Type 0 where
    pub msgs : List (Msg S.kinds)
    pub fee : Option S.StdFee
    pub gas_adjustment : S.Float
    pub gas_prices : List (DecCoin S.kinds)
    pub sequence : Option ℕ
    pub memo : String

  -- A call that leaves the account alone.
  abbrev pub remote {ℓ} : {A : Type ℓ} → Action (World S) A → Action Session A
  remote m s = let (r, w) = m s.world in (r, record s { world = w })

  abbrev pub store_account : Option S.ChainAccount → Action Session (Unit {0})
  store_account info s = (ok tt, record s { account = record s.account { account = info } })

  -- A read of the embedded account, which panics on nil.
  abbrev pub of_account : {A : Type 0} → (S.ChainAccount → A) → Action Session A
  of_account f s = elim s.account.account [
    | none ↦ (panic "nil pointer dereference", s)
    | some a ↦ (ok (f a), s)
  ]

  abbrev pub default_gas_adjustment : S.Float
  default_gas_adjustment = S.float_literal 12 1

  abbrev pub default_gas_price : List (DecCoin S.kinds)
  default_gas_price =
      record { denom = S.micro_luna_denom; amount = S.new_dec_with_prec 150000 6 } ∷ []

  abbrev pub or_default {ℓ} : {A : Type ℓ} → List A → List A → List A
  or_default [] default = default
  or_default (x ∷ xs) default = x ∷ xs

  -- The first two tests of `CreateTx`.
  unfoldable pub with_defaults : CreateTxOptions → CreateTxOptions
  with_defaults opts = record opts {
    gas_adjustment =
        if S.is_zero opts.gas_adjustment then default_gas_adjustment else opts.gas_adjustment;
    gas_prices = or_default opts.gas_prices default_gas_price;
  }

  -- The loop over the balance: every coin becomes one unit of its denomination.
  unfoldable pub unit_coins : List (Coin S.kinds) → Option (List (Coin S.kinds))
  unit_coins [] = some []
  unit_coins (coin ∷ coins) = elim (S.new_coin coin.denom (S.new_int 1)) [
    | none ↦ none
    | some one ↦ elim (unit_coins coins) [ none ↦ none | some ones ↦ some (one ∷ ones) ]
  ]

  -- The sequence number of the account, or that of the options if it is higher.
  abbrev pub next_sequence : ℕ → Option ℕ → ℕ
  next_sequence sequence none = sequence
  next_sequence sequence (some wanted) = if ltb sequence wanted then wanted else sequence

module _ (S : Sdk) (D : Targets S) where
  -- `Update`; the mutex is held from the call of the node to the write.
  unfoldable pub update : Option Context → Action (Session S) (Unit {0})
  update ctx s =
      (do
        let a = s.account
        info ←
            wrapped "fetch account info"
              (remote S (get_account_info S D a.client.auth ctx (acc_address S a.key)))
        store_account S info)
        s

  -- The fee of the options, or the node's estimate for the message without a fee.
  unfoldable pub choose_fee :
      Option Context
      → KeyedAccount S
      → CreateTxOptions S
      → StdSignMsg S.kinds
      → Action (World S) S.StdFee
  choose_fee ctx a opts msg = elim opts.fee [
    | some fee ↦ pure fee
    | none ↦ wrapped "estimate fee" (
        estimate_fee S D a.client.transaction ctx (S.address_string (acc_address S a.key)) msg
          (S.format_float opts.gas_adjustment) opts.gas_prices)
  ]

  -- `CreateTx` behind its tests for defaults.
  unfoldable pub create_tx_with :
      Option Context → CreateTxOptions S → Action (Session S) (StdSignMsg S.kinds)
  create_tx_with ctx opts s =
      (do
        let a = s.account
        let addr = acc_address S a.key
        wrapped "update account" (update ctx)
        resp ←
            wrapped ("get balance of " <> S.address_string addr)
              (remote S (get_balance S D a.client.bank ctx addr))
        or_panic "NewCoin" (unit_coins S resp.balance)
        current ← of_account S S.get_sequence
        number ← of_account S S.get_account_number
        let msg : StdSignMsg S.kinds = record {
          chain_id = a.chain_id;
          account_number = number;
          sequence = next_sequence S current opts.sequence;
          fee = S.zero_fee;
          msgs = opts.msgs;
          memo = opts.memo;
        }
        fee ← remote S (choose_fee ctx a opts msg)
        pure (record msg { fee = fee }))
        s

  unfoldable pub create_tx :
      Option Context → CreateTxOptions S → Action (Session S) (StdSignMsg S.kinds)
  create_tx ctx opts = create_tx_with ctx (with_defaults S opts)

  unfoldable pub create_and_sign_tx :
      Option Context → CreateTxOptions S → Action (Session S) (S.StdTx × StdSignMsg S.kinds)
  create_and_sign_tx ctx opts s =
      (do
        msg ← wrapped "create tx" (create_tx ctx opts)
        tx ← wrapped "sign tx" (remote S (sign_tx S s.account.key msg))
        pure (tx, msg))
        s

  -- `NewAccount`: the account that was updated, or no account.
  unfoldable pub updated : Option Context → KeyedAccount S → Action (World S) (KeyedAccount S)
  updated ctx acc w =
      let (r, s) = wrapped "update account" (update ctx) (record { account = acc; world = w }) in
      elim r [
        | ok _ ↦ (ok s.account, s.world)
        | err e ↦ (err e, s.world)
        | panic p ↦ (panic p, s.world)
      ]

  unfoldable pub new_account :
      Option Context → TerraClient S → Key S → Action (World S) (KeyedAccount S)
  new_account ctx client key = do
    info ← wrapped "fetch node info" (get_node_info S D client.tendermint ctx)
    updated ctx (record { key = key; client = client; chain_id = S.network info; account = none })
