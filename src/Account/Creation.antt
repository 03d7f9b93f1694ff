-- ===== src/Account/Creation.antt =====
-- The message that `CreateTx` makes (account.go).
use Prim.Native.Nat.{max}
use terra_go.Base.{ℕ, ◌≡◌, Option, none, some, ok, arith, inl, inr, ◌⊎◌, Option-cases}
use terra_go.Http.{Context}
use terra_go.Sdk.{Sdk, StdSignMsg}
use terra_go.Service.Bodies.{Targets}
use terra_go.Account.{
  acc_address, get_account_info, KeyedAccount, Session, CreateTxOptions, create_tx, create_tx_with,
  create_and_sign_tx, update, with_defaults, choose_fee,
}

abbrev pub wanted : Option ℕ → ℕ
wanted none = 0
wanted (some n) = n

-- The parts of a message that do not depend on the fee.
pub record Describes (S : Sdk) (opts : CreateTxOptions S) (a : KeyedAccount S)
    (msg : StdSignMsg S.kinds) (acc : S.ChainAccount) : Type 0 where
  pub chain_id : msg.chain_id ≡ a.chain_id
  pub account_number : msg.account_number ≡ S.get_account_number acc
  pub sequence : msg.sequence ≡ max (S.get_sequence acc) (wanted opts.sequence)
  pub msgs : msg.msgs ≡ opts.msgs
  pub memo : msg.memo ≡ opts.memo

module _ (S : Sdk) (D : Targets S) (ctx : Option Context) (s : Session S) where
  create_tx_with_sound :
      (opts : CreateTxOptions S) {msg : StdSignMsg S.kinds}
      → (create_tx_with S D ctx opts s).0 ≡ ok msg
      → (acc : S.ChainAccount) × ((get_account_info S D s.account.client.auth ctx
            (acc_address S s.account.key)
            s.world).0
          ≡ ok (some acc))
        × ((create_tx_with S D ctx opts s).1.account.account ≡ some acc)
        × Describes S opts s.account msg acc
        × ((opts.fee ≡ none) ⊎ (opts.fee ≡ some msg.fee))
  unfolding create_tx_with choose_fee update
  create_tx_with_sound opts e =
      elim (Option-cases (create_tx_with S D ctx opts s).1.account.account) [
        | inl missing ↦ absurd (ground arith)
        | inr (acc, found) ↦ (acc, ground arith, found, ground arith, ground arith)
      ]

  -- A message that `CreateTx` returns describes the account that its first call, a fetch of the account
  -- of the key's address, has returned, and that account is stored: the chain, the account's number, the account's sequence number or the wanted one if that is higher, and the
  -- messages and the memo of the options; and a fee of the options is its fee.
  pub create_tx_sound :
      (opts : CreateTxOptions S) {msg : StdSignMsg S.kinds}
      → (create_tx S D ctx opts s).0 ≡ ok msg
      → (acc : S.ChainAccount) × ((get_account_info S D s.account.client.auth ctx
            (acc_address S s.account.key)
            s.world).0
          ≡ ok (some acc))
        × ((create_tx S D ctx opts s).1.account.account ≡ some acc)
        × Describes S opts s.account msg acc
        × ((opts.fee ≡ none) ⊎ (opts.fee ≡ some msg.fee))
  unfolding create_tx with_defaults
  create_tx_sound opts e =
      let (acc, fetched, found, d, fee) = create_tx_with_sound (with_defaults S opts) e in
      (
        acc,
        fetched,
        found,
        record {
          chain_id = d.chain_id;
          account_number = d.account_number;
          sequence = d.sequence;
          msgs = d.msgs;
          memo = d.memo;
        },
        fee,
      )

  -- The message beside a signed transaction is one of `CreateTx`.
  pub create_and_sign_tx-create_tx :
      (opts : CreateTxOptions S) {signed : S.StdTx × StdSignMsg S.kinds}
      → (create_and_sign_tx S D ctx opts s).0 ≡ ok signed
      → (create_tx S D ctx opts s).0 ≡ ok signed.1
  unfolding create_and_sign_tx
  create_and_sign_tx-create_tx opts e = ground arith
