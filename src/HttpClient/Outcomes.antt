-- ===== src/HttpClient/Outcomes.antt =====
-- A closed form of what `RequestJSON` returns (httpclient/client.go, lines 77 to 108).
use terra_go.Base.{
  sym, ap, ◌∙◌, ◌<◌, ◌≤◌, Error, ℕ, Bool, String, ◌≡◌, true, false, none, some, ok, err, panic,
  wrap, message, Outcome, leb, if◌then◌else◌, arith, refl, Option-cases, Outcome-cases, Bool-cases,
  inl, inr, wrap_outcome,
}
use terra_go.Base.Text.{has_prefix}
use terra_go.Http.{Context, Url, HttpRequest, HttpResponse, Stream}
use terra_go.Sdk.{Sdk, Target}
use terra_go.World.{World}
use terra_go.HttpClient.{
  RequestPayload, Client, url_error, do_request, request_json, decoded, decode_amino,
}
use terra_go.HttpClient.Replies.{request_of, IsSendable, request-eq-do_request}

-- The reply that the decoder gets, with what could be read, or the error of the request: that of the network, or the whole body
-- of a reply of status 400 or more.
abbrev pub passed_on : Outcome HttpResponse → Outcome HttpResponse
passed_on (panic text) = panic text
passed_on (err e) = err e
passed_on (ok r) =
    if leb 400 r.status
    then elim r.body.failure [
      | none ↦ err (message r.body.content)
      | some e ↦ ok (record r { body = record { content = r.body.content; failure = none } })
    ]
    else ok r

-- The value of a body: of a contract's by `encoding/json`, of any other by amino, all of which must be
-- readable.
abbrev pub value_of :
    (S : Sdk) (c : Client S) {A : Type 0} → Target S.Codec A → Bool → Stream → Outcome A
value_of S c t true body = wrap_outcome "parse response body with json" (t.decode_json body)
value_of S c t false body = elim body.failure [
  | some e ↦ err (wrap e "read raw body")
  | none ↦ wrap_outcome "parse response body with codec" (t.unmarshal_json c.codec body.content)
]

abbrev pub reference_json :
    (S : Sdk) (c : Client S) {A : Type 0}
    → Target S.Codec A
    → RequestPayload
    → String
    → Outcome HttpResponse
    → Outcome A
reference_json S c t p text r = elim (wrap_outcome "request" (wrap_outcome text (passed_on r))) [
  | panic reason ↦ panic reason
  | err e ↦ err e
  | ok reply ↦ value_of S c t (has_prefix p.path "/wasm/contracts/") reply.body
]

module _ (S : Sdk) (c : Client S) {A : Type 0} (t : Target S.Codec A) where
  do_request-outcome :
      (req : HttpRequest) (w : World S)
      → ((do_request S req w).0
          ≡ wrap_outcome (url_error S req) (passed_on (S.round_trip req w.net).0))
        × ((do_request S req w).1.net ≡ (S.round_trip req w.net).1)
  unfolding do_request
  do_request-outcome req w = elim (Outcome-cases (S.round_trip req w.net).0) [
    | inl (r, e) ↦ elim (Bool-cases (leb 400 r.status)) [
      | inl high ↦ elim (Option-cases r.body.failure) [
        | inl whole ↦ ground arith
        | inr (x, broken) ↦ ground arith
      ]
      | inr low ↦ ground arith
    ]
    | inr (inl (x, e)) ↦ ground arith
    | inr (inr (text, e)) ↦ ground arith
  ]

  decoded-outcome :
      (text : String) (r : Outcome A) (w : World S)
      → ((decoded S text r w).0 ≡ wrap_outcome text r) × ((decoded S text r w).1.net ≡ w.net)
  unfolding decoded
  decoded-outcome text (ok a) w = (refl, refl)
  decoded-outcome text (err e) w = (refl, refl)
  decoded-outcome text (panic p) w = (refl, refl)

  decode_amino-outcome :
      (body : Stream) (w : World S)
      → ((decode_amino S c t body w).0 ≡ value_of S c t false body)
        × ((decode_amino S c t body w).1.net ≡ w.net)
  unfolding decode_amino
  decode_amino-outcome body w = elim (Option-cases body.failure) [
    | inl whole ↦ ground (
      arith,
      decoded-outcome "parse response body with codec" (t.unmarshal_json c.codec body.content) w,
    )
    | inr (e, broken) ↦ ground arith
  ]

  -- For a payload that is sent, `RequestJSON` returns what the closed form makes of the network's
  -- outcome for the one request: a value, an error with the texts that the calls wrap around it, or a
  -- panic. The network is left as that one request left it.
  pub request_json-outcome :
      (p : RequestPayload) (w : World S) {u : Url} {x : Context}
      → IsSendable S c u x p
      → ((request_json S c p t w).0
          ≡ reference_json S c t p
              (url_error S (request_of x u p))
              (S.round_trip (request_of x u p) w.net).0)
        × ((request_json S c p t w).1.net ≡ (S.round_trip (request_of x u p) w.net).1)
  unfolding request_json
  request_json-outcome p w {u} {x} h =
      let same = request-eq-do_request S c t p w h in
      let (end, left) = do_request-outcome (request_of x u p) w in
      let w' = (do_request S (request_of x u p) w).1 in
      elim (Outcome-cases (do_request S (request_of x u p) w).0) [
        | inl (r, e) ↦ elim (Bool-cases (has_prefix p.path "/wasm/contracts/")) [
          | inl wasm ↦
              ground
                (arith, decoded-outcome "parse response body with json" (t.decode_json r.body) w')
          | inr other ↦ ground (arith, decode_amino-outcome r.body w')
        ]
        | inr (inl (x, e)) ↦ ground arith
        | inr (inr (text, e)) ↦ ground arith
      ]

  -- Of three runs with one payload that is sent: one whose reply has a status of 400 or more and a body
  -- that is read to its end returns an error, which is the body, as the error of a `url.Error` and then
  -- of the request. One whose reply has such a status and a body that breaks off returns no such error:
  -- its outcome is that of a run whose reply has a status below 300 and, as its whole body, what could
  -- be read of the other's.
  pub request_json_refused :
      (p : RequestPayload) (refused broken fine : World S) {u : Url} {x : Context} {status low : ℕ}
      {content : String} {e : Error}
      → IsSendable S c u x p
      → 400 ≤ status
      → low < 300
      → (S.round_trip (request_of x u p) refused.net).0
        ≡ ok (record { status = status; body = record { content = content; failure = none } })
      → (S.round_trip (request_of x u p) broken.net).0
        ≡ ok (record { status = status; body = record { content = content; failure = some e } })
      → (S.round_trip (request_of x u p) fine.net).0
        ≡ ok (record { status = low; body = record { content = content; failure = none } })
      → ((request_json S c p t refused).0
          ≡ err (wrap (wrap (message content) (url_error S (request_of x u p))) "request"))
        × ((request_json S c p t broken).0 ≡ (request_json S c p t fine).0)
  request_json_refused p refused broken fine {u} {x} {status} {low} {content} {e} h high below a b
        d =
      (
        (request_json-outcome p refused h).0
            ∙ ap (reference_json S c t p (url_error S (request_of x u p))) a
            ∙ ground arith,
        (request_json-outcome p broken h).0
            ∙ ap (reference_json S c t p (url_error S (request_of x u p))) b
            ∙ ground arith
            ∙ sym (ap (reference_json S c t p (url_error S (request_of x u p))) d)
            ∙ sym ((request_json-outcome p fine h).0),
      )
