-- ===== src/HttpClient/Replies.antt =====
-- What `RequestJSON` makes of a reply (httpclient/client.go, lines 77 to 108).
use terra_go.Base.{
  ok_value, Bool, String, ◌<◌, ◌≤◌, ◌≡◌, ◌≢◌, refl, ◌⊎◌, none, some, ok, err, arith, true, false,
  ◌∷◌, Outcome, leb, panic, if◌then◌else◌,
}
use terra_go.Base.Text.{has_prefix}
use terra_go.Http.{Context, Url, HttpRequest, HttpResponse, Stream}
use terra_go.Sdk.{Sdk, Target}
use terra_go.World.{World, sent, logged_reply, sent_requests}
use terra_go.HttpClient.{
  RequestPayload, request_url, new_request, all_tokens, default_get, Client, do_request, request,
  request_json, decoded, decode_amino,
}

-- The request of a payload at a URL.
abbrev pub request_of : Context → Url → RequestPayload → HttpRequest
request_of x u p = record {
  context = x;
  method = default_get p.method;
  url = request_url u p;
  body = p.body;
}

-- What the two decoders make of a reply to a payload: `encoding/json` reads the stream of a contract
-- reply, amino the whole body of any other.
abbrev pub decode_reply :
    (S : Sdk) (c : Client S) {A : Type 0} → Target S.Codec A → Bool → Stream → Outcome A
decode_reply S c t true body = t.decode_json body
decode_reply S c t false body = t.unmarshal_json c.codec body.content

-- The body that a reply is decoded from: from status 400 on a copy of what could be read.
abbrev pub received : HttpResponse → Stream
received r =
    if leb 400 r.status then record { content = r.body.content; failure = none } else r.body

-- The payload is sent: the endpoint parses, the context is not nil and the method is a token.
pub record IsSendable (S : Sdk) (c : Client S) (u : Url) (x : Context) (p : RequestPayload)
    : Type 0 where
  pub endpoint : S.parse_url c.endpoint ≡ ok u
  pub context : p.context ≡ some x
  pub method : all_tokens (default_get p.method) ≡ true

-- The network answers a request with a value: a whole reply of a status below 400 that decodes to it.
pub record Answers (S : Sdk) (c : Client S) {A : Type 0} (t : Target S.Codec A) (p : RequestPayload)
    (req : HttpRequest) (n n' : S.Net) (a : A) : Type 0 where
  pub reply : HttpResponse
  pub replied : S.round_trip req n ≡ (ok reply, n')
  pub below : reply.status < 400
  pub whole : reply.body.failure ≡ none
  pub decodes : decode_reply S c t (has_prefix p.path "/wasm/contracts/") reply.body ≡ ok a

module _ (S : Sdk) (c : Client S) {A : Type 0} (t : Target S.Codec A) where
  decoded-sent :
      (text : String) (r : Outcome A) (w : World S)
      → sent_requests (decoded S text r w).1.trace ≡ sent_requests w.trace
  unfolding decoded
  decoded-sent text (ok a) w = refl
  decoded-sent text (err e) w = refl
  decoded-sent text (panic e) w = refl

  pub request_json-sent :
      (p : RequestPayload) (w : World S)
      → sent_requests (request_json S c p t w).1.trace ≡ sent_requests (request S c p w).1.trace
  unfolding request_json decode_amino
  request_json-sent p w = grind (arith, decoded-sent)

  do_request-answered :
      (req : HttpRequest) (w : World S) {resp : HttpResponse} {n : S.Net}
      → S.round_trip req w.net ≡ (ok resp, n)
      → resp.status < 400
      → do_request S req w
        ≡ (ok resp, record { net = n; trace = logged_reply resp.status req ∷ sent req ∷ w.trace })
  unfolding do_request
  do_request-answered req w h lt = ground arith

  pub request-eq-do_request :
      (p : RequestPayload) (w : World S) {u : Url} {x : Context}
      → IsSendable S c u x p
      → request S c p w ≡ do_request S (request_of x u p) w
  unfolding request new_request
  request-eq-do_request p w h = rw (h.endpoint, h.context, h.method) (ground arith)

  -- Where the payload is sent and the network answers it with a value, `RequestJSON` returns that
  -- value, and the network is left as the answer left it.
  pub request_json-answered :
      (p : RequestPayload) (w : World S) {u : Url} {x : Context} {n : S.Net} {a : A}
      → IsSendable S c u x p
      → Answers S c t p (request_of x u p) w.net n a
      → ((request_json S c p t w).0 ≡ ok a) × ((request_json S c p t w).1.net ≡ n)
  unfolding request_json decode_amino decoded
  request_json-answered p w {u} {x} h ans = ground (
    arith,
    request-eq-do_request p w h,
    do_request-answered (request_of x u p) w ans.replied ans.below,
  )

  -- A value that `RequestJSON` returns for a payload that is sent was decoded from the network's
  -- reply to that payload's request: a reply of a status below 400, or one from 400 on whose body
  -- broke off; and where the payload is no contract's, the former was read to its end.
  pub request_json_sound :
      (p : RequestPayload) (w : World S) {u : Url} {x : Context} {a : A}
      → IsSendable S c u x p
      → (request_json S c p t w).0 ≡ ok a
      → (resp : HttpResponse) × ((S.round_trip (request_of x u p) w.net).0 ≡ ok resp)
        × (decode_reply S c t (has_prefix p.path "/wasm/contracts/") (received resp) ≡ ok a)
        × ((resp.status < 400) ⊎ (resp.body.failure ≢ none))
        × ((has_prefix p.path "/wasm/contracts/" ≡ true)
            ⊎ (400 ≤ resp.status)
            ⊎ (resp.body.failure ≡ none))
  unfolding request_json decode_amino decoded do_request
  request_json_sound p w {u} {x} h e =
      let same = request-eq-do_request p w h in
      let (resp, r) = ok_value (S.round_trip (request_of x u p) w.net).0 (ground (arith, same)) in
      (resp, r, ground (arith, same), ground (arith, same), ground (arith, same))
