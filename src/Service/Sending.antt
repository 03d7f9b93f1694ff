-- ===== src/Service/Sending.antt =====
-- The one request that each reading call of service/ sends, and its path.
use Prim.Native.String.{String}
use terra_go.Base.{◌≡◌, refl, ◌∙◌, none, some, ok, arith, true, List, [], ◌∷◌, ◌++◌, Action}
use terra_go.Base.Text.{◌<>◌, join_slash, path_join}
use terra_go.Base.Text.Paths.{
  IsPlain, is_plain, is_plain-IsPlain, AllPlain, IsBase, rooted, path_join-IsBase,
  path_join-txs_parent,
}
use terra_go.Http.{Context, Url, HttpRequest}
use terra_go.Sdk.{Sdk, Bytes, Target}
use terra_go.World.{World, sent_requests}
use terra_go.HttpClient.{Client, request_json, request_url, set_all}
use terra_go.HttpClient.Requests.{request-sent}
use terra_go.HttpClient.Replies.{request_json-sent}
use terra_go.Service.Bodies.{Targets, get_payload}
use terra_go.Service.Auth.{get_account_info}
use terra_go.Service.Bank.{get_balance}
use terra_go.Service.Contract.{get_contract_info}
use terra_go.Service.Tendermint.{get_node_info, get_sync_status}
use terra_go.Service.Treasury.{get_tax_rate, get_tax_cap}
use terra_go.Service.Transaction.{get_tx_by_hash}

-- A GET of the path with the given segments, with the query of the endpoint's URL.
abbrev pub get_at : Context → Url → List String → HttpRequest
get_at x u segments = record {
  context = x;
  method = "GET";
  url = record u { path = rooted segments };
  body = none;
}

-- A known segment is plain if the test says so.
lit : (w : String) → is_plain w ≡ true → IsPlain w
lit = is_plain-IsPlain

-- The call sends the GET of these segments, and nothing else.
abbrev pub Sends :
    (S : Sdk) → Context → Url → List String → {A : Type 0} → Action (World S) A → Type 0
Sends S x u segments m =
    (w : World S) → sent_requests (m w).1.trace ≡ get_at x u segments ∷ sent_requests w.trace

-- An endpoint whose path has the segments `bs`, and a context.
module _ (S : Sdk) (D : Targets S) (c : Client S) {u : Url} (x : Context) (bs : List String)
    (parsed : S.parse_url c.endpoint ≡ ok u) (base : IsBase u.path bs) where
  get_payload-url :
      (p : String) (ps : List String)
      → AllPlain (p ∷ ps)
      → request_url u (get_payload (some x) (rooted (p ∷ ps)))
        ≡ record u { path = rooted (bs ++ p ∷ ps) }
  unfolding request_url set_all
  get_payload-url p ps h = cc (path_join-IsBase u.path bs p ps base h)

  request_json-Sends :
      {A : Type 0} (t : Target S.Codec A) (p : String) (ps : List String) (path : String)
      → path ≡ rooted (p ∷ ps)
      → AllPlain (p ∷ ps)
      → Sends S x u (bs ++ p ∷ ps) (request_json S c (get_payload (some x) path) t)
  request_json-Sends t p ps path e h w = rw e (
      request_json-sent S c t (get_payload (some x) (rooted (p ∷ ps))) w
      ∙ request-sent S c (get_payload (some x) (rooted (p ∷ ps))) w parsed refl refl
      ∙ cc (get_payload-url p ps h))

  -- The account of an address, whose text is a plain segment, is asked for by one GET of
  -- `auth/accounts/<address>` below the endpoint, whatever comes back.
  pub get_account_info-Sends :
      (a : Bytes)
      → IsPlain (S.address_string a)
      → Sends S x u
          (bs ++ "auth" ∷ "accounts" ∷ S.address_string a ∷ [])
          (get_account_info S D c (some x) a)
  unfolding get_account_info join_slash
  get_account_info-Sends a h w = ground (
    arith,
    request_json-Sends D.account_info "auth" ("accounts" ∷ S.address_string a ∷ []) _ refl
        (lit "auth" refl, (lit "accounts" refl, (h, tt))) w,
  )

  -- Its balance by one GET of `bank/balances/<address>`.
  pub get_balance-Sends :
      (a : Bytes)
      → IsPlain (S.address_string a)
      → Sends S x u
          (bs ++ "bank" ∷ "balances" ∷ S.address_string a ∷ [])
          (get_balance S D c (some x) a)
  unfolding get_balance join_slash
  get_balance-Sends a h w = ground (
    arith,
    request_json-Sends D.balance "bank" ("balances" ∷ S.address_string a ∷ []) _ refl
        (lit "bank" refl, (lit "balances" refl, (h, tt))) w,
  )

  -- The contract at an address by one GET of `wasm/contracts/<address>`.
  pub get_contract_info-Sends :
      (a : Bytes)
      → IsPlain (S.address_string a)
      → Sends S x u
          (bs ++ "wasm" ∷ "contracts" ∷ S.address_string a ∷ [])
          (get_contract_info S D c (some x) a)
  unfolding get_contract_info join_slash
  get_contract_info-Sends a h w = ground (
    arith,
    request_json-Sends D.contract_info "wasm" ("contracts" ∷ S.address_string a ∷ []) _ refl
        (lit "wasm" refl, (lit "contracts" refl, (h, tt))) w,
  )

  -- The node's description by one GET of `node_info`.
  pub get_node_info-Sends : Sends S x u (bs ++ "node_info" ∷ []) (get_node_info S D c (some x))
  unfolding get_node_info join_slash
  get_node_info-Sends w =
      ground
        (arith, request_json-Sends D.node_info "node_info" [] _ refl (lit "node_info" refl, tt) w)

  -- Whether it is syncing by one GET of `syncing`.
  pub get_sync_status-Sends : Sends S x u (bs ++ "syncing" ∷ []) (get_sync_status S D c (some x))
  unfolding get_sync_status join_slash
  get_sync_status-Sends w =
      ground
        (arith, request_json-Sends D.sync_status "syncing" [] _ refl (lit "syncing" refl, tt) w)

  -- The tax rate by one GET of `treasury/tax_rate`.
  pub get_tax_rate-Sends :
      Sends S x u (bs ++ "treasury" ∷ "tax_rate" ∷ []) (get_tax_rate S D c (some x))
  unfolding get_tax_rate join_slash
  get_tax_rate-Sends w = ground (
    arith,
    request_json-Sends D.tax_rate "treasury" ("tax_rate" ∷ []) _ refl
        (lit "treasury" refl, (lit "tax_rate" refl, tt)) w,
  )

  -- The tax cap of a denomination that is a plain segment by one GET of `treasury/tax_cap/<denom>`.
  pub get_tax_cap-Sends :
      (d : String)
      → IsPlain d
      → Sends S x u (bs ++ "treasury" ∷ "tax_cap" ∷ d ∷ []) (get_tax_cap S D c (some x) d)
  unfolding get_tax_cap join_slash
  get_tax_cap-Sends d h w = ground (
    arith,
    request_json-Sends D.tax_cap "treasury" ("tax_cap" ∷ d ∷ []) _ refl
        (lit "treasury" refl, (lit "tax_cap" refl, (h, tt))) w,
  )

  -- The transaction of a hash that is a plain segment is asked for by one GET of `txs/<hash>` below
  -- the endpoint, whatever comes back.
  pub get_tx_by_hash-Sends :
      (d : String)
      → IsPlain d
      → Sends S x u (bs ++ "txs" ∷ d ∷ []) (get_tx_by_hash S D c (some x) d)
  unfolding get_tx_by_hash join_slash
  get_tx_by_hash-Sends d h w =
      ground
        (arith, request_json-Sends D.tx_response "txs" (d ∷ []) _ refl (lit "txs" refl, (h, tt)) w)

-- A hash that begins with `../` is not escaped: at an endpoint without a path, the call asks for
-- the path behind it, of any plain segments, and not for a transaction.
pub get_tx_by_hash_escapes :
    (S : Sdk) (D : Targets S) (c : Client S) {u : Url} (x : Context) (p : String) (ps : List String)
    → S.parse_url c.endpoint ≡ ok u
    → u.path ≡ ""
    → AllPlain (p ∷ ps)
    → Sends S x u (p ∷ ps) (get_tx_by_hash S D c (some x) ("../" <> join_slash (p ∷ ps)))
unfolding get_tx_by_hash request_url set_all
get_tx_by_hash_escapes S D c {u} x p ps parsed bare h w =
    let payload = get_payload (some x) ("/txs/../" <> join_slash (p ∷ ps)) in
    let joined : path_join u.path payload.path ≡ rooted (p ∷ ps) =
      rw bare (path_join-txs_parent p ps h) in
    request_json-sent S c D.tx_response payload w
    ∙ request-sent S c payload w parsed refl refl
    ∙ cc joined
