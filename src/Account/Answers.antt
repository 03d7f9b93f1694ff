-- ===== src/Account/Answers.antt =====
-- What the calls that `CreateTx` makes return if the node answers them (account.go, service/).
use terra_go.Base.{ℕ, String, ◌≡◌, Option, some, ok, arith, List}
use terra_go.Base.Text.{◌<>◌}
use terra_go.Http.{Context, Url}
use terra_go.Sdk.{Sdk, StdSignMsg, DecCoin, Coin}
use terra_go.World.{World}
use terra_go.HttpClient.Replies.{request_json-answered}
use terra_go.HttpClient.{Client}
use terra_go.Service.Bodies.{Targets, Reply, FeeBody, post_payload}
use terra_go.Service.Auth.{get_account_info}
use terra_go.Service.Bank.{get_balance}
use terra_go.Service.Answering.{
  AnswersGet, AnswersPost, get_payload-IsSendable, post_payload-IsSendable,
}
use terra_go.Service.Transaction.{estimate_fee, estimate_request}
use terra_go.Key.{acc_address}
use terra_go.Account.{Session, update}

module _ (S : Sdk) (D : Targets S) (x : Context) where
  pub get_account_info_answered :
      (c : Client S) {u : Url} (addr : List ℕ) (w : World S) {n : S.Net}
      {b : Reply String (Option S.ChainAccount)}
      → S.parse_url c.endpoint ≡ ok u
      → AnswersGet S c u x D.account_info ("/auth/accounts/" <> S.address_string addr) w.net n b
      → ((get_account_info S D c (some x) addr w).0 ≡ ok b.result)
        × ((get_account_info S D c (some x) addr w).1.net ≡ n)
  unfolding get_account_info
  get_account_info_answered c addr w parsed ans = ground (
    arith,
    request_json-answered S c D.account_info _ w (get_payload-IsSendable S c x parsed _) ans,
  )

  pub get_balance_answered :
      (c : Client S) {u : Url} (addr : List ℕ) (w : World S) {n : S.Net}
      {b : Reply S.Uint (List (Coin S.kinds))} {h : ℕ}
      → S.parse_url c.endpoint ≡ ok u
      → AnswersGet S c u x D.balance ("/bank/balances/" <> S.address_string addr) w.net n b
      → S.to_uint64 b.height ≡ some h
      → ((get_balance S D c (some x) addr w).0 ≡ ok (record { height = h; balance = b.result }))
        × ((get_balance S D c (some x) addr w).1.net ≡ n)
  unfolding get_balance
  get_balance_answered c addr w parsed ans fits =
      ground
        (arith, request_json-answered S c D.balance _ w (get_payload-IsSendable S c x parsed _) ans)

  pub update_answered :
      (s : Session S) {u : Url} {n : S.Net} {b : Reply String (Option S.ChainAccount)}
      → S.parse_url s.account.client.auth.endpoint ≡ ok u
      → AnswersGet S s.account.client.auth u x D.account_info
          ("/auth/accounts/" <> S.address_string (acc_address S s.account.key))
          s.world.net
          n
          b
      → (update S D (some x) s).0 ≡ ok tt
        × ((update S D (some x) s).1.account ≡ record s.account { account = b.result })
        × ((update S D (some x) s).1.world.net ≡ n)
  unfolding update
  update_answered s parsed ans = ground (
    arith,
    get_account_info_answered s.account.client.auth (acc_address S s.account.key) s.world parsed
        ans,
  )

  pub estimate_fee_answered :
      (c : Client S) {u : Url} (from : String) (msg : StdSignMsg S.kinds) (adjustment : String)
      (prices : List (DecCoin S.kinds)) (w : World S) {raw : String} {n : S.Net}
      {b : Reply String (FeeBody S)}
      → S.parse_url c.endpoint ≡ ok u
      → S.marshal_estimate c.codec (estimate_request S from msg adjustment prices) ≡ ok raw
      → AnswersPost S c u x D.estimate_fee "/txs/estimate_fee" raw w.net n b
      → (estimate_fee S D c (some x) from msg adjustment prices w).0 ≡ ok b.result.fee
  unfolding estimate_fee
  estimate_fee_answered c from msg adjustment prices w {raw} parsed marshalled ans = ground (
    arith,
    request_json-answered S c D.estimate_fee (post_payload (some x) "/txs/estimate_fee" raw) w
        (post_payload-IsSendable S c x parsed _ _) ans,
  )
