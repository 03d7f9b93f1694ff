-- ===== src/Market/Requests.antt =====
-- All five queries of a market, through its interface: what each sends (market_query.go).
use Prim.Native.String.{String}
use terra_go.Base.{ℕ, ◌≡◌, refl, Option, none, some, List, [], ◌∷◌, ◌++◌, ok, arith}
use terra_go.Base.Text.Paths.{IsPlain, IsBase}
use terra_go.Value.{q_value, end, marshal, join_entries, insert_sorted}
use terra_go.Http.{Context, Url}
use terra_go.Sdk.{Sdk, Bytes}
use terra_go.World.{World, sent_requests}
use terra_go.Service.Bodies.{Targets}
use terra_go.Bind.Entries.{address_entry, if_address, if_number, method_text}
use terra_go.Bind.Queries.{query-sent, store_request}
use terra_go.Cw20.{address_field}
use terra_go.Cw20.Queries.{method_query, put_address, put_uint}
use terra_go.Market.Queries.{
  MarketTargets, get_config, get_state, get_epoch_state, get_borrower_info, get_borrower_infos,
}
use terra_go.Market.Interface.{Querier, market_querier}
use terra_go.Market.{Market}
use terra_go.Cw20.Queries.{TokenTargets}

-- A call of `Querier` with its arguments.
pub data MarketQuery : Type 0 where
  config_query : MarketQuery
  state_query : MarketQuery
  epoch_state_query : Option ℕ → MarketQuery
  borrower_info_query : Bytes → Option ℕ → MarketQuery
  borrower_infos_query : Option Bytes → Option ℕ → MarketQuery

module _ (S : Sdk) where
  -- The world behind a call, whatever it returns.
  abbrev pub market_after : Querier S → Option Context → MarketQuery → World S → World S
  market_after q ctx config_query w = (q.get_config ctx w).1
  market_after q ctx state_query w = (q.get_state ctx w).1
  market_after q ctx (epoch_state_query height) w = (q.get_epoch_state ctx height w).1
  market_after q ctx (borrower_info_query borrower height) w =
      (q.get_borrower_info ctx borrower height w).1
  market_after q ctx (borrower_infos_query start_after limit) w =
      (q.get_borrower_infos ctx start_after limit w).1

  -- The JSON text of a call's query.
  abbrev pub market_text : MarketQuery → String
  market_text config_query = method_text S "config" ([])
  market_text state_query = method_text S "state" ([])
  market_text (epoch_state_query height) =
      method_text S "epoch_state" (if_number S "block_height" height)
  market_text (borrower_info_query borrower height) =
      method_text S "borrower_info"
        (if_number S "block_height" height ++ address_entry S "borrower" borrower ∷ [])
  market_text (borrower_infos_query start_after limit) =
      method_text S "borrower_infos"
        (if_number S "limit" limit ++ if_address S "start_after" start_after)

  market_text-config_query :
      marshal (q_value (method_query S "config" (end))) ≡ ok (market_text config_query)
  unfolding marshal join_entries insert_sorted
  market_text-config_query = refl

  market_text-state_query :
      marshal (q_value (method_query S "state" (end))) ≡ ok (market_text state_query)
  unfolding marshal join_entries insert_sorted
  market_text-state_query = refl

  market_text-epoch_state_query :
      (height : Option ℕ)
      → marshal (q_value (method_query S "epoch_state" (put_uint S "block_height" height end)))
        ≡ ok (market_text (epoch_state_query height))
  unfolding marshal join_entries insert_sorted
  market_text-epoch_state_query none = refl
  market_text-epoch_state_query (some height) = refl

  market_text-borrower_info_query :
      (borrower : Bytes) (height : Option ℕ)
      → marshal (
          q_value (
            method_query S "borrower_info"
              (put_uint S "block_height" height (address_field S "borrower" borrower end))))
        ≡ ok (market_text (borrower_info_query borrower height))
  unfolding marshal join_entries insert_sorted
  market_text-borrower_info_query borrower none = refl
  market_text-borrower_info_query borrower (some height) = refl

  market_text-borrower_infos_query :
      (start_after : Option Bytes) (limit : Option ℕ)
      → marshal (
          q_value (
            method_query S "borrower_infos"
              (put_uint S "limit" limit (put_address S "start_after" start_after end))))
        ≡ ok (market_text (borrower_infos_query start_after limit))
  unfolding marshal join_entries insert_sorted
  market_text-borrower_infos_query none none = refl
  market_text-borrower_infos_query none (some limit) = refl
  market_text-borrower_infos_query (some start_after) none = refl
  market_text-borrower_infos_query (some start_after) (some limit) = refl

module _ (S : Sdk) (D : Targets S) (R : MarketTargets S) (T : TokenTargets S) (m : Market S)
    (w : World S) where
  -- Each of the five queries of a market is one GET of the contract's store below the endpoint, whatever
  -- comes back, with the call's JSON text under `query_msg`: an object with the method, and in it one
  -- entry for each argument that is given, in the order of the keys, and none for the others.
  pub market_after-sent :
      {u : Url} (x : Context) (bs : List String) (k : MarketQuery)
      → S.parse_url m.contract.client.contract.endpoint ≡ ok u
      → IsBase u.path bs
      → IsPlain (S.address_string m.contract.addr)
      → sent_requests (market_after S (market_querier S D m R T) (some x) k w).trace
        ≡ store_request x u bs (S.address_string m.contract.addr) (market_text S k)
          ∷ sent_requests w.trace
  unfolding get_config get_state get_epoch_state get_borrower_info get_borrower_infos
  market_after-sent x bs config_query parsed base plain = ground (
    arith,
    query-sent S m.contract R.config (method_query S "config" (end)) w x bs parsed base plain
        (market_text-config_query S),
  )
  market_after-sent x bs state_query parsed base plain = ground (
    arith,
    query-sent S m.contract R.state (method_query S "state" (end)) w x bs parsed base plain
        (market_text-state_query S),
  )
  market_after-sent x bs (epoch_state_query height) parsed base plain = ground (
    arith,
    query-sent S m.contract R.epoch_state
        (method_query S "epoch_state" (put_uint S "block_height" height end)) w x bs parsed base
        plain (market_text-epoch_state_query S height),
  )
  market_after-sent x bs (borrower_info_query borrower height) parsed base plain = ground (
    arith,
    query-sent S m.contract R.borrower_info
        (method_query S "borrower_info"
          (put_uint S "block_height" height (address_field S "borrower" borrower end)))
        w x bs parsed base plain (market_text-borrower_info_query S borrower height),
  )
  market_after-sent x bs (borrower_infos_query start_after limit) parsed base plain = ground (
    arith,
    query-sent S m.contract R.borrower_infos
        (method_query S "borrower_infos"
          (put_uint S "limit" limit (put_address S "start_after" start_after end)))
        w x bs parsed base plain (market_text-borrower_infos_query S start_after limit),
  )
