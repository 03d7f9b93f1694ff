-- ===== src/HttpClient/Requests.antt =====
-- The URL and the number of the requests that a client sends (httpclient/client.go).
use Prim.Native.String.{String}
use text.Mathlib.TextEquality.{eq_iff}
use terra_go.Base.{
  ◌≡◌, refl, fun_ext, inl, inr, Option, none, some, ok, arith, true, List, [], ◌∷◌, Outcome-cases,
}
use terra_go.Base.Dict.{Dict, lookup, NodupKeys}
use terra_go.Http.{Context, Values, set_value, Url, HttpRequest}
use terra_go.Sdk.{Sdk}
use terra_go.World.{World, sent_requests}
use terra_go.HttpClient.{
  RequestPayload, set_all, request_url, new_request, all_tokens, default_get, Client, do_request,
  request,
}

-- The values of a key after a query map is set on a URL's: those of the map, or else the URL's own.
abbrev pub overlay : Option String → List String → List String
overlay none old = old
overlay (some v) old = v ∷ []

set_all-overlay :
    (q : Values) (d : Dict String) (k : String)
    → NodupKeys d
    → set_all q d k ≡ overlay (lookup k d) (q k)
unfolding set_all
set_all-overlay q [] k h = refl
set_all-overlay q ((j, v) ∷ d) k (fresh, h) =
    ground (arith, set_all-overlay (set_value q j v) d k h, eq_iff k j)

-- Two listings of one map set the same query.
set_all_order :
    (q : Values) (d e : Dict String)
    → NodupKeys d
    → NodupKeys e
    → ((k : String) → lookup k d ≡ lookup k e)
    → set_all q d ≡ set_all q e
set_all_order q d e hd he same =
    fun_ext λ k. ground (arith, set_all-overlay q d k hd, set_all-overlay q e k he, same k)

request_url_order :
    (p : RequestPayload) (d e : Dict String)
    → NodupKeys d
    → NodupKeys e
    → ((k : String) → lookup k d ≡ lookup k e)
    → (u : Url) → request_url u (record p { query = d }) ≡ request_url u (record p { query = e })
unfolding request_url
request_url_order p d e hd he same u = cc (set_all_order u.query d e hd he same)

module _ (S : Sdk) (c : Client S) where
  -- The order in which the loop visits the query map makes no difference to a request: two listings
  -- of one map, neither with a key twice, give the same outcome and the same trace.
  pub request_order :
      (p : RequestPayload) (d e : Dict String)
      → NodupKeys d
      → NodupKeys e
      → ((k : String) → lookup k d ≡ lookup k e)
      → (w : World S)
      → request S c (record p { query = d }) w ≡ request S c (record p { query = e }) w
  unfolding request
  request_order p d e hd he same w = elim (Outcome-cases (S.parse_url c.endpoint)) [
    | inl (u, parsed) ↦ rw (parsed, request_url_order p d e hd he same u)
    | inr (inl (x, bad)) ↦ rw bad
    | inr (inr (x, bad)) ↦ rw bad
  ]

  -- The transport hands exactly one request to the network, whatever the reply.
  do_request-sent :
      (req : HttpRequest) (w : World S)
      → sent_requests (do_request S req w).1.trace ≡ req ∷ sent_requests w.trace
  unfolding do_request
  do_request-sent req w = ground arith

  -- Where the endpoint parses, the context is not nil and the method is a token, a request hands
  -- exactly one request to the network: the payload's, at the endpoint's URL joined with the
  -- payload's path and query.
  pub request-sent :
      (p : RequestPayload) (w : World S) {u : Url} {x : Context}
      → S.parse_url c.endpoint ≡ ok u
      → p.context ≡ some x
      → all_tokens (default_get p.method) ≡ true
      → sent_requests (request S c p w).1.trace
        ≡ record {
          context = x;
          method = default_get p.method;
          url = request_url u p;
          body = p.body;
        }
          ∷ sent_requests w.trace
  unfolding request new_request
  request-sent p w {u} {x} hu hx hm = ground (
    arith,
    do_request-sent
        (record {
          context = x;
          method = default_get p.method;
          url = request_url u p;
          body = p.body;
        })
        w,
  )
