-- ===== src/HttpClient.antt =====
-- httpclient/: a client that joins an endpoint and a payload, logs, and decodes the reply.
pub mod Transport
pub mod Requests
pub mod Replies
pub mod Outcomes
pub mod Interface
use Prim.Native.Char.{Char, code}
use Prim.Native.String.{String, [], ◌∷◌}
use terra_go.Base.{
  ℕ, zero, suc, ◌-◌, Bool, true, false, ◌&&◌, ◌||◌, Option, none, some, Outcome, ok, err, panic,
  Action, pure, lift, fail, wrapped, wrap, message, ◌>>=◌, ◌>>◌, leb, ◌==◌, if◌then◌else◌, List, [],
  ◌∷◌,
}
use terra_go.Base.Dict.{Dict}
use terra_go.Base.Text.{◌<>◌, has_prefix, path_join}
use terra_go.Http.{Context, Values, set_value, Url, HttpRequest, Stream, HttpResponse}
use terra_go.Sdk.{Sdk, Target}
use terra_go.World.{World, sent, logged_reply, logged_unread, logged_unparsed, happen, outside}

-- A nil context is `none`; the query is a map, in the order in which a loop visits it.
pub record RequestPayload : Type 0 where
  pub context : Option Context
  pub method : String
  pub path : String
  pub query : Dict String
  pub body : Option String

-- `for k, v := range payload.Query { q.Set(k, v) }`
unfoldable pub set_all : Values → Dict String → Values
set_all q [] = q
set_all q ((k, v) ∷ d) = set_all (set_value q k v) d

-- The URL of a request at an endpoint.
unfoldable pub request_url : Url → RequestPayload → Url
request_url u payload = record u {
  path = path_join u.path payload.path;
  query = set_all u.query payload.query;
}

abbrev is_letter : ℕ → Bool
is_letter c = leb b'a' c && leb c b'z' || leb b'A' c && leb c b'Z'

-- The characters of an HTTP token.
abbrev is_token : ℕ → Bool
is_token c =
    is_letter c
    || leb b'0' c && leb c b'9'
    || c == b'!'
    || c == b'#'
    || c == b'$'
    || c == b'%'
    || c == b'&'
    || c == 0x27
    || c == b'*'
    || c == b'+'
    || c == b'-'
    || c == b'.'
    || leb b'^' c && leb c b'`'
    || c == b'|'
    || c == b'~'

abbrev all_tokens : String → Bool
all_tokens [] = true
all_tokens (c ∷ s) = is_token (code c) && all_tokens s

abbrev default_get : String → String
default_get [] = "GET"
default_get (c ∷ s) = c ∷ s

-- `http.NewRequestWithContext`; the URL is well formed, since it comes from `url.Parse`.
unfoldable pub new_request : Option Context → String → Url → Option String → Outcome HttpRequest
new_request context method url body =
    if all_tokens (default_get method)
    then elim context [
      | none ↦ err (message "net/http: nil Context")
      | some c ↦ ok (record { context = c; method = default_get method; url = url; body = body })
    ]
    else err (message "net/http: invalid method")

-- `ascii.ToLower` of one character.
abbrev nth_char : ℕ → String → Char → Char
nth_char n [] other = other
nth_char zero (c ∷ s) other = c
nth_char (suc n) (c ∷ s) other = nth_char n s other

abbrev lower_char : Char → Char
lower_char c =
    let n = code c in
    if leb b'A' n && leb n b'Z' then nth_char (n - b'A') "abcdefghijklmnopqrstuvwxyz" c else c

abbrev lower_all : String → String
lower_all [] = []
lower_all (c ∷ s) = lower_char c ∷ lower_all s

-- The operation of a `url.Error`: "Get" for GET.
abbrev pub error_op : String → String
error_op [] = "Get"
error_op (c ∷ s) = c ∷ lower_all s

module _ (S : Sdk) where
  pub record Client : Type 0 where
    pub codec : S.Codec
    pub endpoint : String

  -- `New`
  abbrev pub new_client : Option S.Codec → String → Client
  new_client none endpoint = record { codec = S.make_codec; endpoint = endpoint }
  new_client (some codec) endpoint = record { codec = codec; endpoint = endpoint }

  -- `http.DefaultTransport.RoundTrip`
  unfoldable pub default_round_trip : HttpRequest → Action (World S) HttpResponse
  default_round_trip req = do happen (sent req); outside (S.round_trip req)

  -- A reply of status 400 or more: its body becomes the error, unless it cannot be read to the end;
  -- then what was read becomes the body, and the reply is returned.
  unfoldable pub error_reply : HttpResponse → Action (World S) HttpResponse
  error_reply resp = elim resp.body.failure [
    | none ↦ fail (message resp.body.content)
    | some e ↦
        happen (logged_unread e)
        >> pure (record resp { body = record { content = resp.body.content; failure = none } })
  ]

  -- `logTransport.RoundTrip`
  unfoldable pub round_trip : HttpRequest → Action (World S) HttpResponse
  unfolding default_round_trip error_reply
  round_trip req = do
    resp ← default_round_trip req
    happen (logged_reply resp.status req)
    if leb 400 resp.status then error_reply resp else pure resp

  -- The text of a `url.Error` in front of the error in it.
  abbrev pub url_error : HttpRequest → String
  url_error req = error_op req.method <> " " <> S.quoted_url req.url

  -- `http.Client.Do` for a reply that is no redirect. Its error is wrapped in a `url.Error`.
  unfoldable pub do_request : HttpRequest → Action (World S) HttpResponse
  unfolding round_trip
  do_request req = wrapped (url_error req) (round_trip req)

  unfoldable pub request : Client → RequestPayload → Action (World S) HttpResponse
  request c payload = do
    u ← wrapped "parse endpoint" (lift (S.parse_url c.endpoint))
    req ←
        wrapped "new request with context"
          (lift (new_request payload.context payload.method (request_url u payload) payload.body))
    do_request req

  -- What follows a decoder: its error is logged and wrapped.
  unfoldable pub decoded : {A : Type 0} → String → Outcome A → Action (World S) A
  decoded where_ (ok a) = pure a
  decoded where_ (err e) = happen logged_unparsed >> fail (wrap e where_)
  decoded where_ (panic p) = lift (panic p)

  unfoldable pub decode_amino :
      {A : Type 0} → Client → Target S.Codec A → Stream → Action (World S) A
  decode_amino c t body = elim body.failure [
    | some e ↦ fail (wrap e "read raw body")
    | none ↦ decoded "parse response body with codec" (t.unmarshal_json c.codec body.content)
  ]

  unfoldable pub request_json :
      {A : Type 0} → Client → RequestPayload → Target S.Codec A → Action (World S) A
  request_json c payload t = do
    resp ← wrapped "request" (request c payload)
    if has_prefix payload.path "/wasm/contracts/"
        then decoded "parse response body with json" (t.decode_json resp.body)
        else decode_amino c t resp.body
