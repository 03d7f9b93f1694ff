-- ===== src/Cw20/Queries.antt =====
-- interface/standard/cw20/token_query.go, token_schema.go, and NewTokenContract (token.go).
use Prim.Native.String.{String}
use terra_go.Base.{ℕ, Option, none, some, List, Action, pure, wrapped, or_panic, ◌>>=◌}
use terra_go.Base.Int.{ℤ, pos}
use terra_go.Value.{num, str, obj, Fields, end, field, Q, put_some}
use terra_go.Http.{Context}
use terra_go.Sdk.{Sdk, Bytes, Target}
use terra_go.World.{World}
use terra_go.Service.Bodies.{Reply}
use terra_go.Client.{TerraClient}
use terra_go.Bind.{BaseContract, query}
use terra_go.Cw20.{Token, address_field}

module _ (S : Sdk) where
  pub record GetTokenBalanceResponse : Type 0 where
    pub height : ℕ
    pub balance : S.Int

  pub record GetTokenInfoResponse : Type 0 where
    pub decimals : ℤ
    pub name : String
    pub symbol : String
    pub total_supply : S.Int

  pub record GetMinterResponse : Type 0 where
    pub cap : Option S.Int
    pub minter : Bytes

  pub record GetAllowanceResponse : Type 0 where
    pub allowance : S.Int
    pub expires : Q

  -- The structs that the token's replies are decoded into.
  pub record TokenTargets : Type 0 where
    pub balance : Target S.Codec (Reply S.Uint S.Int)
    pub token_info : Target S.Codec (Reply S.Uint GetTokenInfoResponse)
    pub minter : Target S.Codec (Reply S.Uint GetMinterResponse)
    pub allowance : Target S.Codec (Reply S.Uint GetAllowanceResponse)
    pub all_allowances : Target S.Codec (Reply S.Uint (List GetAllowanceResponse))
    pub all_accounts : Target S.Codec (Reply String (List Bytes))

  -- A query of one method.
  abbrev pub method_query : String → Fields → Q
  method_query method fields = some (field method (obj fields) end)

  -- An optional address, and an optional number, under a key.
  abbrev pub put_address : String → Option Bytes → Fields → Fields
  put_address key none fs = fs
  put_address key (some addr) fs = put_some key (some (str (S.address_string addr))) fs

  abbrev pub put_uint : String → Option ℕ → Fields → Fields
  put_uint key none fs = fs
  put_uint key (some n) fs = put_some key (some (num (pos n))) fs

module _ (S : Sdk) (R : TokenTargets S) (b : BaseContract S) (ctx : Option Context) where
  unfoldable pub get_balance : Bytes → Action (World S) (GetTokenBalanceResponse S)
  get_balance owner = do
    resp ← query S b ctx (method_query S "balance" (address_field S "address" owner end)) R.balance
    height ← or_panic "Uint64" (S.to_uint64 resp.height)
    pure (record { height = height; balance = resp.result })

  unfoldable pub get_token_info : Action (World S) (GetTokenInfoResponse S)
  get_token_info = do
    resp ← query S b ctx (method_query S "token_info" end) R.token_info
    pure resp.result

  unfoldable pub get_minter : Action (World S) (GetMinterResponse S)
  get_minter = do resp ← query S b ctx (method_query S "minter" end) R.minter; pure resp.result

  unfoldable pub get_allowance : Bytes → Bytes → Action (World S) (GetAllowanceResponse S)
  get_allowance owner spender = do
    let fields = address_field S "owner" owner (address_field S "spender" spender end)
    resp ← query S b ctx (method_query S "allowance" fields) R.allowance
    pure resp.result

  unfoldable pub get_all_allowances :
      Bytes → Option Bytes → Option ℕ → Action (World S) (List (GetAllowanceResponse S))
  get_all_allowances owner start_after limit = do
    let fields =
        put_uint S "limit" limit
          (put_address S "start_after" start_after (address_field S "owner" owner end))
    resp ← query S b ctx (method_query S "all_allowances" fields) R.all_allowances
    pure resp.result

  unfoldable pub get_all_accounts : Option Bytes → Option ℕ → Action (World S) (List Bytes)
  get_all_accounts start_after limit = do
    let fields = put_uint S "limit" limit (put_address S "start_after" start_after end)
    resp ← query S b ctx (method_query S "all_accounts" fields) R.all_accounts
    pure resp.result

module _ (S : Sdk) (R : TokenTargets S) where
  unfoldable pub new_token_contract :
      Option Context → Bytes → TerraClient S → Action (World S) (Token S)
  new_token_contract ctx addr client = do
    let b : BaseContract S = record { addr = addr; client = client }
    info ← wrapped "fetch token info" (get_token_info S R b ctx)
    pure (record { name = info.name; symbol = info.symbol; contract = b })
