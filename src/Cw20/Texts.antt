-- ===== src/Cw20/Texts.antt =====
-- The JSON texts of the token's messages (token_exec_msg.go), and what a hook without one does.
use Prim.Native.String.{String}
use terra_go.Base.{◌≡◌, refl, ◌≢◌, Option, List, [], ◌∷◌, Outcome, ok, err, Error, wrap, arith}
use terra_go.Base.Text.{◌<>◌}
use terra_go.Value.{
  Value, null, bool, num, str, arr, obj, nil_map, opaque, Fields, field, end, set_field, marshal,
  quote, join_entries, insert_sorted,
}
use terra_go.Http.{Context}
use terra_go.Sdk.{Sdk, Bytes, Msg, execute_contract}
use terra_go.Key.{acc_address}
use terra_go.Service.Bodies.{Targets}
use terra_go.Account.{KeyedAccount, Session}
use terra_go.Bind.Messages.{make_message-eq-ok}
use terra_go.Cw20.{
  Token, with_hook, transfer_msg, transfer_from_msg, burn_from_msg, send_msg, send_from_msg,
  mint_msg,
}
use terra_go.Cw20.Execution.{execute_made, send, send_from}

-- A key and a quoted value.
abbrev pub entry : String → String → String
entry k v = quote k <> ":" <> quote v

-- Two, three and four entries.
abbrev pub entries2 : String → String → String
entries2 a b = "{" <> (a <> "," <> b) <> "}"

abbrev pub entries3 : String → String → String → String
entries3 a b c = "{" <> (a <> "," <> b <> "," <> c) <> "}"

abbrev pub entries4 : String → String → String → String → String
entries4 a b c d = "{" <> (a <> "," <> b <> "," <> c <> "," <> d) <> "}"

-- One call of a method of a contract, without coins, by an account.
abbrev pub call_of :
    (S : Sdk) → Token S → KeyedAccount S → String → String → Outcome (List (Msg S.kinds))
call_of S t acc method text = ok (
    execute_contract (record {
      sender = acc_address S acc.key;
      contract = t.contract.addr;
      execute_msg = "{" <> (quote method <> ":" <> text) <> "}";
      coins = [];
    })
    ∷ [])

module _ (S : Sdk) (t : Token S) (acc : KeyedAccount S) (a : Bytes) (b : Bytes)
    (amount : S.Int) where
  -- Messages of amounts and addresses are one call of the token by the account: an object with the
  -- method, and in it the amount and the addresses under their keys, in the order of the keys.
  pub transfer_msgs_text :
      (transfer_msg S t acc a amount
        ≡ call_of S t acc "transfer" (
            entries2
              (entry "amount" (S.int_string amount))
              (entry "recipient" (S.address_string a))))
      × (mint_msg S t acc a amount
          ≡ call_of S t acc "mint" (
              entries2
                (entry "amount" (S.int_string amount))
                (entry "recipient" (S.address_string a))))
      × (burn_from_msg S t acc a amount
          ≡ call_of S t acc "burn_from" (
              entries2 (entry "amount" (S.int_string amount)) (entry "owner" (S.address_string a))))
      × (transfer_from_msg S t acc a b amount
          ≡ call_of S t acc "transfer_from" (
              entries3
                (entry "amount" (S.int_string amount))
                (entry "owner" (S.address_string a))
                (entry "recipient" (S.address_string b))))
  unfolding transfer_msg mint_msg burn_from_msg transfer_from_msg marshal join_entries insert_sorted
  transfer_msgs_text = (
    make_message-eq-ok S t.contract acc "transfer" _ [] refl,
    make_message-eq-ok S t.contract acc "mint" _ [] refl,
    make_message-eq-ok S t.contract acc "burn_from" _ [] refl,
    make_message-eq-ok S t.contract acc "transfer_from" _ [] refl,
  )

module _ (S : Sdk) (t : Token S) (acc : KeyedAccount S) (a : Bytes) (b : Bytes)
    (amount : S.Int) where
  -- A send without a hook.
  pub send_without :
      (send_msg S t acc a amount null
        ≡ call_of S t acc "send" (
            entries2
              (entry "amount" (S.int_string amount))
              (entry "contract" (S.address_string a))))
      × (send_from_msg S t acc b a amount null
          ≡ call_of S t acc "send_from" (
              entries3
                (entry "amount" (S.int_string amount))
                (entry "contract" (S.address_string a))
                (entry "owner" (S.address_string b))))
  unfolding send_msg send_from_msg marshal join_entries insert_sorted
  send_without = (
    make_message-eq-ok S t.contract acc "send" _ [] refl,
    make_message-eq-ok S t.contract acc "send_from" _ [] refl,
  )

with_hook-eq-ok :
    (S : Sdk) (hook : Value) (fs : Fields) {raw : String}
    → marshal hook ≡ ok raw
    → hook ≢ null
    → with_hook S hook fs ≡ ok (set_field "msg" (str (S.base64 raw)) fs)
with_hook-eq-ok S null fs h given = absurd (given refl)
with_hook-eq-ok S (bool b) fs h given = rw h refl
with_hook-eq-ok S (num n) fs h given = rw h refl
with_hook-eq-ok S (str s) fs h given = rw h refl
with_hook-eq-ok S (arr xs) fs h given = rw h refl
with_hook-eq-ok S (obj xs) fs h given = rw h refl
with_hook-eq-ok S nil_map fs h given = rw h refl
with_hook-eq-ok S (opaque x) fs h given = rw h refl

marshal-null : marshal null ≡ ok "null"
unfolding marshal
marshal-null = refl

with_hook-eq-err :
    (S : Sdk) (hook : Value) (fs : Fields) {e : Error}
    → marshal hook ≡ err e
    → with_hook S hook fs ≡ err (wrap e "marshal hook message")
with_hook-eq-err S null fs h = ground (arith, marshal-null)
with_hook-eq-err S (bool b) fs h = rw h refl
with_hook-eq-err S (num n) fs h = rw h refl
with_hook-eq-err S (str s) fs h = rw h refl
with_hook-eq-err S (arr xs) fs h = rw h refl
with_hook-eq-err S (obj xs) fs h = rw h refl
with_hook-eq-err S nil_map fs h = rw h refl
with_hook-eq-err S (opaque x) fs h = rw h refl

module _ (S : Sdk) (t : Token S) (acc : KeyedAccount S) (a : Bytes) (b : Bytes) (amount : S.Int)
    (hook : Value) where
  -- With a hook that is not nil and has a JSON text, a send and a send from an owner carry that
  -- text in base64 under `msg`, beside the amount and the addresses; with a nil hook neither has `msg`.
  pub send_msgs_text :
      {raw : String}
      → marshal hook ≡ ok raw
      → hook ≢ null
      → (send_msg S t acc a amount hook
          ≡ call_of S t acc "send" (
              entries3
                (entry "amount" (S.int_string amount))
                (entry "contract" (S.address_string a))
                (entry "msg" (S.base64 raw))))
        × (send_from_msg S t acc b a amount hook
            ≡ call_of S t acc "send_from" (
                entries4
                  (entry "amount" (S.int_string amount))
                  (entry "contract" (S.address_string a))
                  (entry "msg" (S.base64 raw))
                  (entry "owner" (S.address_string b))))
        × (send_msg S t acc a amount null
            ≡ call_of S t acc "send" (
                entries2
                  (entry "amount" (S.int_string amount))
                  (entry "contract" (S.address_string a))))
        × (send_from_msg S t acc b a amount null
            ≡ call_of S t acc "send_from" (
                entries3
                  (entry "amount" (S.int_string amount))
                  (entry "contract" (S.address_string a))
                  (entry "owner" (S.address_string b))))
  unfolding send_msg send_from_msg marshal join_entries insert_sorted
  send_msgs_text h given = (
    rw (with_hook-eq-ok S hook _ h given) (make_message-eq-ok S t.contract acc "send" _ [] refl),
    rw (with_hook-eq-ok S hook _ h given)
        (make_message-eq-ok S t.contract acc "send_from" _ [] refl),
    (send_without S t acc a b amount).0,
    (send_without S t acc a b amount).1,
  )

  -- A hook without a JSON text is an error, and nothing else happens: no message is made, and the
  -- account and the world are left as they were.
  pub send_unhooked :
      (D : Targets S) (ctx : Option Context) (s : Session S) {e : Error}
      → marshal hook ≡ err e
      → (send S D t ctx a amount hook s ≡ (err (wrap e "marshal hook message"), s))
        × (send_from S D t ctx b a amount hook s ≡ (err (wrap e "marshal hook message"), s))
  unfolding send send_from send_msg send_from_msg execute_made
  send_unhooked D ctx s {e} h =
      let bad = λ (fs : Fields). with_hook-eq-err S hook fs h in
      (
        rw
            (bad (
              field "contract" (str (S.address_string a))
                (field "amount" (str (S.int_string amount)) end)))
            refl,
        rw
            (bad (
              field "owner" (str (S.address_string b)) (
                field "contract" (str (S.address_string a))
                  (field "amount" (str (S.int_string amount)) end))))
            refl,
      )
