-- ===== src/Cw20/Requests.antt =====
-- All six queries of a token, through its interface: what each sends (token_query.go).
use Prim.Native.String.{String}
use terra_go.Base.{ℕ, ◌≡◌, refl, Option, none, some, List, [], ◌∷◌, ◌++◌, ok, arith}
use terra_go.Base.Text.Paths.{IsPlain, IsBase}
use terra_go.Value.{q_value, end, marshal, join_entries, insert_sorted}
use terra_go.Http.{Context, Url}
use terra_go.Sdk.{Sdk, Bytes}
use terra_go.World.{World, sent_requests}
use terra_go.Service.Bodies.{Targets}
use terra_go.Bind.Entries.{address_entry, if_address, if_number, method_text}
use terra_go.Bind.Queries.{query-sent, store_request}
use terra_go.Cw20.{address_field}
use terra_go.Cw20.Queries.{method_query, put_address, put_uint}
use terra_go.Cw20.Queries.{
  TokenTargets, get_balance, get_token_info, get_minter, get_allowance, get_all_allowances,
  get_all_accounts,
}
use terra_go.Cw20.Interface.{Querier, token_querier}
use terra_go.Cw20.{Token}

-- A call of `Querier` with its arguments.
pub data TokenQuery : Type 0 where
  balance_query : Bytes → TokenQuery
  token_info_query : TokenQuery
  minter_query : TokenQuery
  allowance_query : Bytes → Bytes → TokenQuery
  all_allowances_query : Bytes → Option Bytes → Option ℕ → TokenQuery
  all_accounts_query : Option Bytes → Option ℕ → TokenQuery

module _ (S : Sdk) where
  -- The world behind a call, whatever it returns.
  abbrev pub token_after : Querier S → Option Context → TokenQuery → World S → World S
  token_after q ctx (balance_query owner) w = (q.get_balance ctx owner w).1
  token_after q ctx token_info_query w = (q.get_token_info ctx w).1
  token_after q ctx minter_query w = (q.get_minter ctx w).1
  token_after q ctx (allowance_query owner spender) w = (q.get_allowance ctx owner spender w).1
  token_after q ctx (all_allowances_query owner start_after limit) w =
      (q.get_all_allowances ctx owner start_after limit w).1
  token_after q ctx (all_accounts_query start_after limit) w =
      (q.get_all_accounts ctx start_after limit w).1

  -- The JSON text of a call's query.
  abbrev pub token_text : TokenQuery → String
  token_text (balance_query owner) = method_text S "balance" (address_entry S "address" owner ∷ [])
  token_text token_info_query = method_text S "token_info" ([])
  token_text minter_query = method_text S "minter" ([])
  token_text (allowance_query owner spender) =
      method_text S "allowance"
        (address_entry S "owner" owner ∷ address_entry S "spender" spender ∷ [])
  token_text (all_allowances_query owner start_after limit) = method_text S "all_allowances" (
      if_number S "limit" limit
      ++ (address_entry S "owner" owner ∷ if_address S "start_after" start_after))
  token_text (all_accounts_query start_after limit) =
      method_text S "all_accounts"
        (if_number S "limit" limit ++ if_address S "start_after" start_after)

  token_text-balance_query :
      (owner : Bytes)
      → marshal (q_value (method_query S "balance" (address_field S "address" owner end)))
        ≡ ok (token_text (balance_query owner))
  unfolding marshal join_entries insert_sorted
  token_text-balance_query owner = refl

  token_text-token_info_query :
      marshal (q_value (method_query S "token_info" (end))) ≡ ok (token_text token_info_query)
  unfolding marshal join_entries insert_sorted
  token_text-token_info_query = refl

  token_text-minter_query :
      marshal (q_value (method_query S "minter" (end))) ≡ ok (token_text minter_query)
  unfolding marshal join_entries insert_sorted
  token_text-minter_query = refl

  token_text-allowance_query :
      (owner : Bytes) (spender : Bytes)
      → marshal (
          q_value (
            method_query S "allowance"
              (address_field S "owner" owner (address_field S "spender" spender end))))
        ≡ ok (token_text (allowance_query owner spender))
  unfolding marshal join_entries insert_sorted
  token_text-allowance_query owner spender = refl

  token_text-all_allowances_query :
      (owner : Bytes) (start_after : Option Bytes) (limit : Option ℕ)
      → marshal (
          q_value (
            method_query S "all_allowances" (
              put_uint S "limit" limit
                (put_address S "start_after" start_after (address_field S "owner" owner end)))))
        ≡ ok (token_text (all_allowances_query owner start_after limit))
  unfolding marshal join_entries insert_sorted
  token_text-all_allowances_query owner none none = refl
  token_text-all_allowances_query owner none (some limit) = refl
  token_text-all_allowances_query owner (some start_after) none = refl
  token_text-all_allowances_query owner (some start_after) (some limit) = refl

  token_text-all_accounts_query :
      (start_after : Option Bytes) (limit : Option ℕ)
      → marshal (
          q_value (
            method_query S "all_accounts"
              (put_uint S "limit" limit (put_address S "start_after" start_after end))))
        ≡ ok (token_text (all_accounts_query start_after limit))
  unfolding marshal join_entries insert_sorted
  token_text-all_accounts_query none none = refl
  token_text-all_accounts_query none (some limit) = refl
  token_text-all_accounts_query (some start_after) none = refl
  token_text-all_accounts_query (some start_after) (some limit) = refl

module _ (S : Sdk) (D : Targets S) (R : TokenTargets S) (t : Token S) (w : World S) where
  -- Each of the six queries of a token is one GET of the contract's store below the endpoint, whatever
  -- comes back, with the call's JSON text under `query_msg`: an object with the method, and in it one
  -- entry for each argument that is given, in the order of the keys, and none for the others.
  pub token_after-sent :
      {u : Url} (x : Context) (bs : List String) (k : TokenQuery)
      → S.parse_url t.contract.client.contract.endpoint ≡ ok u
      → IsBase u.path bs
      → IsPlain (S.address_string t.contract.addr)
      → sent_requests (token_after S (token_querier S D t R) (some x) k w).trace
        ≡ store_request x u bs (S.address_string t.contract.addr) (token_text S k)
          ∷ sent_requests w.trace
  unfolding get_balance get_token_info get_minter get_allowance get_all_allowances get_all_accounts
  token_after-sent x bs (balance_query owner) parsed base plain = ground (
    arith,
    query-sent S t.contract R.balance
        (method_query S "balance" (address_field S "address" owner end)) w x bs parsed base plain
        (token_text-balance_query S owner),
  )
  token_after-sent x bs token_info_query parsed base plain = ground (
    arith,
    query-sent S t.contract R.token_info (method_query S "token_info" (end)) w x bs parsed base
        plain (token_text-token_info_query S),
  )
  token_after-sent x bs minter_query parsed base plain = ground (
    arith,
    query-sent S t.contract R.minter (method_query S "minter" (end)) w x bs parsed base plain
        (token_text-minter_query S),
  )
  token_after-sent x bs (allowance_query owner spender) parsed base plain = ground (
    arith,
    query-sent S t.contract R.allowance
        (method_query S "allowance"
          (address_field S "owner" owner (address_field S "spender" spender end)))
        w x bs parsed base plain (token_text-allowance_query S owner spender),
  )
  token_after-sent x bs (all_allowances_query owner start_after limit) parsed base plain = ground (
    arith,
    query-sent S t.contract R.all_allowances
        (method_query S "all_allowances" (
          put_uint S "limit" limit
            (put_address S "start_after" start_after (address_field S "owner" owner end))))
        w x bs parsed base plain (token_text-all_allowances_query S owner start_after limit),
  )
  token_after-sent x bs (all_accounts_query start_after limit) parsed base plain = ground (
    arith,
    query-sent S t.contract R.all_accounts
        (method_query S "all_accounts"
          (put_uint S "limit" limit (put_address S "start_after" start_after end)))
        w x bs parsed base plain (token_text-all_accounts_query S start_after limit),
  )
