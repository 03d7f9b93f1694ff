-- ===== src/Sdk/Structs.antt =====
-- Structs of third-party packages that the source builds and reads field by field, and the
-- message type of types/wasm.go that stands among them.
use Prim.Native.String.{String}
use terra_go.Base.{ℕ, Bool, List}
use terra_go.Sdk.Opaque.{Kinds}

-- AccAddress, ValAddress and key material are byte slices.
abbrev pub Bytes : Type 0
Bytes = List ℕ

module _ (K : Kinds) where
  open K use {Int, Decimal, PubKey, StdFee, StdTx, OtherMsg}

  pub record Coin : Type 0 where
    pub denom : String
    pub amount : Int

  pub record DecCoin : Type 0 where
    pub denom : String
    pub amount : Decimal

  -- `types.MsgExecuteContract`; `execute_msg` is raw JSON. A nil `Coins` is the empty list.
  pub record MsgExecuteContract : Type 0 where
    pub sender : Bytes
    pub contract : Bytes
    pub execute_msg : String
    pub coins : List Coin

  -- cosmostypes.Msg
  pub data Msg : Type 0 where
    execute_contract : MsgExecuteContract → Msg
    other : OtherMsg → Msg

  pub record StdSignMsg : Type 0 where
    pub chain_id : String
    pub account_number : ℕ
    pub sequence : ℕ
    pub fee : StdFee
    pub msgs : List Msg
    pub memo : String

  pub record StdSignature : Type 0 where
    pub pub_key : PubKey
    pub signature : Bytes

  -- cosmosauthrest.BroadcastReq
  pub record BroadcastReq : Type 0 where
    pub tx : StdTx
    pub mode : String

  -- rest.BaseReq
  pub record BaseReq : Type 0 where
    pub from : String
    pub memo : String
    pub chain_id : String
    pub account_number : ℕ
    pub sequence : ℕ
    pub gas_prices : List DecCoin
    pub gas : String
    pub gas_adjustment : String
    pub simulate : Bool

  -- the request struct of `EstimateFee`
  pub record EstimateReq : Type 0 where
    pub base_req : BaseReq
    pub msgs : List Msg
