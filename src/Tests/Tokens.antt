-- ===== src/Tests/Tokens.antt =====
-- A token, its queries, and pairs of an address and an amount.
use Prim.Native.String.{String}
use terra_go.Cw20.Execution.{send, send_from}
use terra_go.Base.{wrap, ◌≡◌, refl, ◌≢◌, none, some, ok, err, Error, message, [], ◌∷◌, arith}
use terra_go.Base.Int.{pos}
use terra_go.Value.{
  nil, cons, arr, Value, null, obj, field, end, opaque, q_value, marshal, quote, escape_all,
  join_entries, insert_sorted,
}
use terra_go.Client.{TerraClient, new_terra_client}
use terra_go.Types.Tokens.{
  TokensHuman, tokens_value, unmarshal_tokens, marshal_tokens, unmarshal_texts, parse_pair,
}
use terra_go.Types.Tokens.Pairs.{IsText, unmarshal_tokens_sound}
use terra_go.Account.{KeyedAccount}
use terra_go.Cw20.{
  Token, transfer_msg, mint_msg, burn_from_msg, transfer_from_msg, send_msg, send_from_msg,
}
use terra_go.Cw20.Texts.{
  send_unhooked, call_of, entry, entries2, entries3, entries4, transfer_msgs_text, send_msgs_text,
}
use terra_go.Cw20.Queries.{TokenTargets, GetTokenInfoResponse}
use terra_go.Tests.Node.{test_sdk}
use terra_go.Tests.Replies.{test_targets, test_client, reads}
use terra_go.Tests.Accounts.{session}

abbrev pair : TokensHuman test_sdk
pair = record { addr = []; amount = 20 }

pair_read : unmarshal_tokens test_sdk (tokens_value test_sdk pair) ≡ ok pair
unfolding unmarshal_tokens tokens_value unmarshal_texts parse_pair
pair_read = refl

pair_text : marshal_tokens test_sdk pair ≡ ok "[\"terra1x\",\"20\"]"
unfolding marshal_tokens marshal quote escape_all
pair_text = refl

unmarshal_tokens_sound_example :
    (e : Value) × (f : Value) × (a : String) × (n : String) × (tokens_value test_sdk pair
      ≡ arr (cons e (cons f nil)))
    × IsText e a
    × IsText f n
    × (test_sdk.address_from_bech32 a ≡ ok pair.addr)
    × (test_sdk.int_from_string n ≡ some 20)
unmarshal_tokens_sound_example =
    unmarshal_tokens_sound test_sdk (tokens_value test_sdk pair) pair_read

abbrev pub client : TerraClient test_sdk
client = new_terra_client test_sdk (test_client "node/v1")

abbrev pub token : Token test_sdk
token = record {
  name = "aUST";
  symbol = "aUST";
  contract = record { addr = 3 ∷ []; client = client };
}

abbrev pub owner : KeyedAccount test_sdk
owner = session.account

transfer_msgs_text_example :
    (transfer_msg test_sdk token owner [] 20
      ≡ call_of test_sdk token owner "transfer"
          (entries2 (entry "amount" "20") (entry "recipient" "terra1x")))
    × (mint_msg test_sdk token owner [] 20
        ≡ call_of test_sdk token owner "mint"
            (entries2 (entry "amount" "20") (entry "recipient" "terra1x")))
    × (burn_from_msg test_sdk token owner [] 20
        ≡ call_of test_sdk token owner "burn_from"
            (entries2 (entry "amount" "20") (entry "owner" "terra1x")))
    × (transfer_from_msg test_sdk token owner [] [] 20
        ≡ call_of test_sdk token owner "transfer_from" (
            entries3 (entry "amount" "20") (entry "owner" "terra1x") (entry "recipient" "terra1x")))
transfer_msgs_text_example = transfer_msgs_text test_sdk token owner [] [] 20

abbrev empty_hook : Value
empty_hook = obj end

empty_text : marshal empty_hook ≡ ok "{}"
unfolding marshal join_entries
empty_text = refl

not_nil : empty_hook ≢ null
not_nil e = absurd (ground arith)

send_msgs_text_example :
    (send_msg test_sdk token owner [] 20 empty_hook
      ≡ call_of test_sdk token owner "send"
          (entries3 (entry "amount" "20") (entry "contract" "terra1x") (entry "msg" "{}")))
    × (send_from_msg test_sdk token owner [] [] 20 empty_hook
        ≡ call_of test_sdk token owner "send_from" (
            entries4
              (entry "amount" "20")
              (entry "contract" "terra1x")
              (entry "msg" "{}")
              (entry "owner" "terra1x")))
    × (send_msg test_sdk token owner [] 20 null
        ≡ call_of test_sdk token owner "send"
            (entries2 (entry "amount" "20") (entry "contract" "terra1x")))
    × (send_from_msg test_sdk token owner [] [] 20 null
        ≡ call_of test_sdk token owner "send_from"
            (entries3 (entry "amount" "20") (entry "contract" "terra1x") (entry "owner" "terra1x")))
send_msgs_text_example = send_msgs_text test_sdk token owner [] [] 20 empty_hook empty_text not_nil

abbrev unsupported : Error
unsupported = message "json: unsupported type"

opaque_fails : marshal (opaque "0x1") ≡ err unsupported
unfolding marshal
opaque_fails = refl

abbrev pub test_info : GetTokenInfoResponse test_sdk
test_info = record { decimals = pos 6; name = "aUST"; symbol = "aUST"; total_supply = 20 }

abbrev pub token_targets : TokenTargets test_sdk
token_targets = record {
  balance = reads "none" (record { height = 1; result = 0 });
  token_info = reads "info" (record { height = 1; result = test_info });
  minter = reads "none" (record { height = 1; result = record { cap = none; minter = [] } });
  allowance =
      reads "none" (record { height = 1; result = record { allowance = 0; expires = none } });
  all_allowances = reads "none" (record { height = 1; result = [] });
  all_accounts = reads "none" (record { height = ""; result = [] });
}

info_query : marshal (q_value (some (field "token_info" (obj end) end))) ≡ ok "{\"token_info\":{}}"
unfolding marshal join_entries insert_sorted quote escape_all
info_query = refl

send_unhooked_example :
    (send test_sdk test_targets token (some 0) [] 20 (opaque "0x1") session
      ≡ (err (wrap unsupported "marshal hook message"), session))
    × (send_from test_sdk test_targets token (some 0) [] [] 20 (opaque "0x1") session
        ≡ (err (wrap unsupported "marshal hook message"), session))
send_unhooked_example =
    send_unhooked test_sdk token owner [] [] 20 (opaque "0x1") test_targets (some 0) session
      opaque_fails
