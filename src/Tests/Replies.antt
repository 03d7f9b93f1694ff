-- ===== src/Tests/Replies.antt =====
-- Scripted replies, and the texts that the decoders know.
use Prim.Native.String.{String}
use text.Mathlib.Text.{◌==◌ as str_eq}
use terra_go.Base.{
  ℕ, ◌≡◌, refl, false, none, some, List, [], ◌∷◌, ok, err, arith, message, if◌then◌else◌,
}
use terra_go.Http.{HttpRequest, HttpResponse}
use terra_go.Sdk.{Target}
use terra_go.World.{World}
use terra_go.HttpClient.{RequestPayload, Client}
use terra_go.HttpClient.Replies.{Answers, decode_reply}
use terra_go.Base.Text.{has_prefix}
use terra_go.Service.Bodies.{Targets}
use terra_go.Tests.Node.{test_sdk}

-- A decoder that knows one text.
abbrev pub reads : {A : Type 0} → String → A → Target (List (ℕ × String)) A
reads text a = record {
  decode_json = λ s. if str_eq s.content text then ok a else err (message "invalid");
  unmarshal_json = λ _ s. if str_eq s text then ok a else err (message "invalid");
}

abbrev pub test_targets : Targets test_sdk
test_targets = record {
  account_info = reads "account" (record { height = "1"; result = some (7, 5) });
  balance =
      reads "balance" (record { height = 1; result = record { denom = "uusd"; amount = 20 } ∷ [] });
  code_info = reads "code" (record { height = "1"; result = "code" });
  contract_info = reads "contract" (record { height = "1"; result = "contract" });
  node_info = reads "node" (record { node_info = "columbus" });
  sync_status = reads "sync" false;
  block = reads "block" (record { block_id = 1; block = 1 });
  tx_response = reads "tx" (0, "[]");
  query_tx = reads "txs" (record {
    total_count = 0;
    count = 0;
    page_number = 1;
    page_total = 1;
    limit = 30;
    txs = [];
  });
  estimate_fee = reads "fee" (record { height = "1"; result = record { fee = 9 } });
  tax_rate = reads "rate" (record { height = 1; result = 5000000000000000 });
  tax_cap = reads "cap" (record { height = 1; result = 3 });
}

-- A whole reply of status 200.
abbrev pub reply : String → HttpResponse
reply text = record { status = 200; body = record { content = text; failure = none } }

-- The world in front of a script, in which nothing has happened.
abbrev pub scripted : List HttpResponse → World test_sdk
scripted rs = record { net = rs; trace = [] }

abbrev pub test_client : String → Client test_sdk
test_client endpoint = record { codec = []; endpoint = endpoint }

-- A script whose first reply has a known text answers with what that text decodes to.
pub script-Answers :
    (c : Client test_sdk) {A : Type 0} (t : Target (List (ℕ × String)) A) (p : RequestPayload)
    (req : HttpRequest) (text : String) (rs : List HttpResponse) (a : A)
    → decode_reply test_sdk c t (has_prefix p.path "/wasm/contracts/") (reply text).body ≡ ok a
    → Answers test_sdk c t p req (reply text ∷ rs) rs a
script-Answers c t p req text rs a h = record {
  reply = reply text;
  replied = refl;
  below = omega arith;
  whole = refl;
  decodes = h;
}
