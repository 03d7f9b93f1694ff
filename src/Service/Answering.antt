-- ===== src/Service/Answering.antt =====
-- Calls against a node that answers them.
use terra_go.Base.{◌≡◌, refl, ok, some, String}
use terra_go.Http.{Context, Url}
use terra_go.Sdk.{Sdk, Target}
use terra_go.HttpClient.{Client}
use terra_go.HttpClient.Replies.{IsSendable, Answers, request_of}
use terra_go.Service.Bodies.{get_payload, post_payload}

-- The node answers a GET of a path, or a POST to it, with a value.
module _ (S : Sdk) (c : Client S) (u : Url) (x : Context) {A : Type 0} (t : Target S.Codec A) where
  abbrev pub AnswersGet : String → S.Net → S.Net → A → Type 0
  AnswersGet path n n' a =
      let p = get_payload (some x) path in Answers S c t p (request_of x u p) n n' a

  abbrev pub AnswersPost : String → String → S.Net → S.Net → A → Type 0
  AnswersPost path body n n' a =
      let p = post_payload (some x) path body in Answers S c t p (request_of x u p) n n' a

module _ (S : Sdk) (c : Client S) {u : Url} (x : Context)
    (parsed : S.parse_url c.endpoint ≡ ok u) where
  pub get_payload-IsSendable : (path : String) → IsSendable S c u x (get_payload (some x) path)
  get_payload-IsSendable path = record { endpoint = parsed; context = refl; method = refl }

  pub post_payload-IsSendable :
      (path body : String) → IsSendable S c u x (post_payload (some x) path body)
  post_payload-IsSendable path body = record { endpoint = parsed; context = refl; method = refl }
