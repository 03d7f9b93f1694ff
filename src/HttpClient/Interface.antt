-- ===== src/HttpClient/Interface.antt =====
-- httpclient/client.go: the interface Client, and client as its implementation.
use terra_go.Base.{Action}
use terra_go.Http.{HttpResponse}
use terra_go.Sdk.{Sdk, Target}
use terra_go.World.{World}
use terra_go.HttpClient.{RequestPayload, Client, request, request_json}

pub record HttpClientInterface (S : Sdk) : Type 1 where
  pub codec : S.Codec
  pub request : RequestPayload → Action (World S) HttpResponse
  pub request_json : {A : Type 0} → RequestPayload → Target S.Codec A → Action (World S) A

abbrev pub http_client : (S : Sdk) → Client S → HttpClientInterface S
http_client S c = record {
  codec = c.codec;
  request = request S c;
  request_json = λ payload t. request_json S c payload t;
}
