-- ===== src/HttpClient/Transport.antt =====
-- When the transport passes a reply on (httpclient/transport.go).
use terra_go.Base.{
  ◌<◌, ◌≤◌, ◌≡◌, ◌≢◌, ◌↔◌, ◌⊎◌, none, some, Error, message, ok, err, arith, true, is_ok, ◌∷◌,
}
use terra_go.Http.{HttpRequest, HttpResponse}
use terra_go.Sdk.{Sdk}
use terra_go.World.{World, sent, logged_reply, logged_unread}
use terra_go.HttpClient.{round_trip}

module _ (S : Sdk) (req : HttpRequest) (w : World S) {resp : HttpResponse} {n : S.Net} where
  -- Where the network replies, the transport returns a reply exactly if the status is below 400 or
  -- the body of the reply cannot be read to its end.
  pub round_trip-ok_iff :
      S.round_trip req w.net ≡ (ok resp, n)
      → (is_ok (round_trip S req w).0 ≡ true) ↔ ((resp.status < 400) ⊎ (resp.body.failure ≢ none))
  unfolding round_trip
  round_trip-ok_iff h = ground arith

  -- Where the network replies, every outcome of the transport: below 400 the reply as it is; from
  -- 400 on the body as the error, or, where the body breaks off, the reply with what was read.
  pub round_trip_lem :
      S.round_trip req w.net ≡ (ok resp, n)
      → let w' : World S = record {
        net = n;
        trace = logged_reply resp.status req ∷ sent req ∷ w.trace;
      } in
        (resp.status < 400 → round_trip S req w ≡ (ok resp, w'))
        × (400 ≤ resp.status
            → resp.body.failure ≡ none
            → round_trip S req w ≡ (err (message resp.body.content), w'))
        × ((e : Error)
            → 400 ≤ resp.status
            → resp.body.failure ≡ some e
            → round_trip S req w ≡ (
              ok (record resp { body = record { content = resp.body.content; failure = none } }),
              record w' { trace = logged_unread e ∷ w'.trace },
            ))
  unfolding round_trip
  round_trip_lem h = (λ lt. ground arith, λ ge e. ground arith, λ x ge e. ground arith)
