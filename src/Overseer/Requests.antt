-- ===== src/Overseer/Requests.antt =====
-- All seven queries of an overseer, through its interface: what each sends (overseer_query.go).
use Prim.Native.String.{String}
use terra_go.Base.{ℕ, ◌≡◌, refl, Option, none, some, List, [], ◌∷◌, ◌++◌, ok, arith}
use terra_go.Base.Text.Paths.{IsPlain, IsBase}
use terra_go.Value.{q_value, end, marshal, join_entries, insert_sorted}
use terra_go.Http.{Context, Url}
use terra_go.Sdk.{Sdk, Bytes}
use terra_go.World.{World, sent_requests}
use terra_go.Bind.{BaseContract}
use terra_go.Bind.Entries.{address_entry, if_address, if_number, method_text}
use terra_go.Bind.Queries.{query-sent, store_request}
use terra_go.Cw20.{address_field}
use terra_go.Cw20.Queries.{method_query, put_address, put_uint}
use terra_go.Overseer.Schema.{OverseerTargets}
use terra_go.Overseer.{
  get_config, get_epoch_state, get_whitelist, get_collaterals, get_all_collaterals,
  get_distribution_params, get_borrow_limit,
}
use terra_go.Overseer.Interface.{Querier, overseer_querier}

-- A call of `Querier` with its arguments.
pub data OverseerCall : Type 0 where
  config_call : OverseerCall
  epoch_state_call : OverseerCall
  whitelist_call : Option Bytes → Option Bytes → Option ℕ → OverseerCall
  collaterals_call : Bytes → OverseerCall
  all_collaterals_call : Option Bytes → Option ℕ → OverseerCall
  distribution_params_call : OverseerCall
  borrow_limit_call : Bytes → Option ℕ → OverseerCall

module _ (S : Sdk) where
  -- The world behind a call, whatever it returns.
  abbrev pub overseer_after : Querier S → Option Context → OverseerCall → World S → World S
  overseer_after q ctx config_call w = (q.get_config ctx w).1
  overseer_after q ctx epoch_state_call w = (q.get_epoch_state ctx w).1
  overseer_after q ctx (whitelist_call collateral start_after limit) w =
      (q.get_whitelist ctx collateral start_after limit w).1
  overseer_after q ctx (collaterals_call borrower) w = (q.get_collaterals ctx borrower w).1
  overseer_after q ctx (all_collaterals_call start_after limit) w =
      (q.get_all_collaterals ctx start_after limit w).1
  overseer_after q ctx distribution_params_call w = (q.get_distribution_params ctx w).1
  overseer_after q ctx (borrow_limit_call borrower block_time) w =
      (q.get_borrow_limit ctx borrower block_time w).1

  -- The JSON text of a call's query.
  abbrev pub text_of : OverseerCall → String
  text_of config_call = method_text S "config" []
  text_of epoch_state_call = method_text S "epoch_state" []
  text_of (whitelist_call collateral start_after limit) = method_text S "whitelist" (
      if_address S "collateral_token" collateral
      ++ (if_number S "limit" limit ++ if_address S "start_after" start_after))
  text_of (collaterals_call borrower) =
      method_text S "collaterals" (address_entry S "borrower" borrower ∷ [])
  text_of (all_collaterals_call start_after limit) =
      method_text S "all_collaterals"
        (if_number S "limit" limit ++ if_address S "start_after" start_after)
  text_of distribution_params_call = method_text S "distribution_params" []
  text_of (borrow_limit_call borrower block_time) =
      method_text S "borrow_limit"
        (if_number S "block_time" block_time ++ address_entry S "borrower" borrower ∷ [])

  empty_text :
      (method : String)
      → marshal (q_value (method_query S method end)) ≡ ok (method_text S method [])
  unfolding marshal join_entries insert_sorted
  empty_text method = refl

  borrower_text :
      (method : String) (borrower : Bytes)
      → marshal (q_value (method_query S method (address_field S "borrower" borrower end)))
        ≡ ok (method_text S method (address_entry S "borrower" borrower ∷ []))
  unfolding marshal join_entries insert_sorted
  borrower_text method borrower = refl

  borrow_limit_text :
      (borrower : Bytes) (n : Option ℕ)
      → marshal (
          q_value (
            method_query S "borrow_limit"
              (put_uint S "block_time" n (address_field S "borrower" borrower end))))
        ≡ ok (text_of (borrow_limit_call borrower n))
  unfolding marshal join_entries insert_sorted
  borrow_limit_text borrower none = refl
  borrow_limit_text borrower (some n) = refl

  all_collaterals_text :
      (start_after : Option Bytes) (limit : Option ℕ)
      → marshal (
          q_value (
            method_query S "all_collaterals"
              (put_uint S "limit" limit (put_address S "start_after" start_after end))))
        ≡ ok (text_of (all_collaterals_call start_after limit))
  unfolding marshal join_entries insert_sorted
  all_collaterals_text none none = refl
  all_collaterals_text none (some n) = refl
  all_collaterals_text (some a) none = refl
  all_collaterals_text (some a) (some n) = refl

  whitelist_text :
      (collateral start_after : Option Bytes) (limit : Option ℕ)
      → marshal (
          q_value (
            method_query S "whitelist" (
              put_uint S "limit" limit (
                put_address S "start_after" start_after
                  (put_address S "collateral_token" collateral end)))))
        ≡ ok (text_of (whitelist_call collateral start_after limit))
  unfolding marshal join_entries insert_sorted
  whitelist_text none none none = refl
  whitelist_text none none (some n) = refl
  whitelist_text none (some a) none = refl
  whitelist_text none (some a) (some n) = refl
  whitelist_text (some c) none none = refl
  whitelist_text (some c) none (some n) = refl
  whitelist_text (some c) (some a) none = refl
  whitelist_text (some c) (some a) (some n) = refl

module _ (S : Sdk) (R : OverseerTargets S) (b : BaseContract S) (w : World S) where
  -- Each of the seven queries of an overseer is one GET of the contract's store below the endpoint,
  -- whatever comes back, with the call's JSON text under `query_msg`: an object with the method, and in
  -- it one entry for each argument that is given, in the order of the keys, and none for the others.
  pub overseer_after-sent :
      {u : Url} (x : Context) (bs : List String) (k : OverseerCall)
      → S.parse_url b.client.contract.endpoint ≡ ok u
      → IsBase u.path bs
      → IsPlain (S.address_string b.addr)
      → sent_requests (overseer_after S (overseer_querier S R b) (some x) k w).trace
        ≡ store_request x u bs (S.address_string b.addr) (text_of S k) ∷ sent_requests w.trace
  unfolding get_config get_epoch_state get_whitelist get_collaterals get_all_collaterals
      get_distribution_params get_borrow_limit
  overseer_after-sent x bs config_call parsed base plain = ground (
    arith,
    query-sent S b R.config (method_query S "config" end) w x bs parsed base plain
        (empty_text S "config"),
  )
  overseer_after-sent x bs epoch_state_call parsed base plain = ground (
    arith,
    query-sent S b R.epoch_state (method_query S "epoch_state" end) w x bs parsed base plain
        (empty_text S "epoch_state"),
  )
  overseer_after-sent x bs (whitelist_call collateral start_after limit) parsed base plain =
      ground (
        arith,
        query-sent S b R.whitelist
            (method_query S "whitelist" (
              put_uint S "limit" limit (
                put_address S "start_after" start_after
                  (put_address S "collateral_token" collateral end))))
            w x bs parsed base plain (whitelist_text S collateral start_after limit),
      )
  overseer_after-sent x bs (collaterals_call borrower) parsed base plain = ground (
    arith,
    query-sent S b R.collaterals
        (method_query S "collaterals" (address_field S "borrower" borrower end)) w x bs parsed base
        plain (borrower_text S "collaterals" borrower),
  )
  overseer_after-sent x bs (all_collaterals_call start_after limit) parsed base plain = ground (
    arith,
    query-sent S b R.all_collaterals
        (method_query S "all_collaterals"
          (put_uint S "limit" limit (put_address S "start_after" start_after end)))
        w x bs parsed base plain (all_collaterals_text S start_after limit),
  )
  overseer_after-sent x bs distribution_params_call parsed base plain = ground (
    arith,
    query-sent S b R.distribution_params (method_query S "distribution_params" end) w x bs parsed
        base plain (empty_text S "distribution_params"),
  )
  overseer_after-sent x bs (borrow_limit_call borrower n) parsed base plain = ground (
    arith,
    query-sent S b R.borrow_limit
        (method_query S "borrow_limit"
          (put_uint S "block_time" n (address_field S "borrower" borrower end)))
        w x bs parsed base plain (borrow_limit_text S borrower n),
  )
