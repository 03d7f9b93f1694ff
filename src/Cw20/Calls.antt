-- ===== src/Cw20/Calls.antt =====
-- All nine messages of a token, through its interface (token_exec_msg.go).
use Prim.Native.String.{String}
use terra_go.Base.{ok_value, ◌⊎◌, ◌≢◌, inr, inl, ◌≡◌, refl, List, [], ◌∷◌, Outcome, ok, arith}
use terra_go.Base.Text.{◌<>◌}
use terra_go.Value.{
  Value, null, bool, num, str, arr, nil_map, opaque, quote, obj, field, end, join_entries,
  insert_sorted, Fields, marshal,
}
use terra_go.Sdk.{Coin, Sdk, Bytes, Msg, execute_contract}
use terra_go.Key.{acc_address}
use terra_go.Service.Bodies.{Targets}
use terra_go.Account.{KeyedAccount}
use terra_go.Bind.{make_message, generate_execute_msg}
use terra_go.Bind.Messages.{make_message-eq-ok}
use terra_go.Cw20.{
  amount_field, address_field, with_hook, Token, burn_msg, send_msg, send_from_msg,
  increase_allowance_msg, decrease_allowance_msg,
}
use terra_go.Cw20.Texts.{
  call_of, entry, entries2, entries3, entries4, transfer_msgs_text, send_msgs_text, send_without,
}
use terra_go.Cw20.Queries.{TokenTargets}
use terra_go.Cw20.Interface.{ExecutorMsg, token_interface}

module _ (S : Sdk) where
  -- A call of `Executor` or `ExecutorMsg` with its arguments.
  pub data TokenCall : Type 0 where
    transfer_call : Bytes → S.Int → TokenCall
    transfer_from_call : Bytes → Bytes → S.Int → TokenCall
    burn_call : S.Int → TokenCall
    burn_from_call : Bytes → S.Int → TokenCall
    send_call : Bytes → S.Int → Value → TokenCall
    send_from_call : Bytes → Bytes → S.Int → Value → TokenCall
    mint_call : Bytes → S.Int → TokenCall
    increase_allowance_call : Bytes → S.Int → Value → TokenCall
    decrease_allowance_call : Bytes → S.Int → Value → TokenCall

  abbrev pub messages_of : ExecutorMsg S → KeyedAccount S → TokenCall → Outcome (List (Msg S.kinds))
  messages_of e acc (transfer_call to amount) = e.transfer_msg acc to amount
  messages_of e acc (transfer_from_call owner to amount) = e.transfer_from_msg acc owner to amount
  messages_of e acc (burn_call amount) = e.burn_msg acc amount
  messages_of e acc (burn_from_call owner amount) = e.burn_from_msg acc owner amount
  messages_of e acc (send_call to amount hook) = e.send_msg acc to amount hook
  messages_of e acc (send_from_call owner to amount hook) = e.send_from_msg acc owner to amount hook
  messages_of e acc (mint_call to amount) = e.mint_msg acc to amount
  messages_of e acc (increase_allowance_call spender amount expires) =
      e.increase_allowance_msg acc spender amount expires
  messages_of e acc (decrease_allowance_call spender amount expires) =
      e.decrease_allowance_msg acc spender amount expires

  -- The name of the contract's method.
  abbrev pub method_of : TokenCall → String
  method_of (transfer_call to amount) = "transfer"
  method_of (transfer_from_call owner to amount) = "transfer_from"
  method_of (burn_call amount) = "burn"
  method_of (burn_from_call owner amount) = "burn_from"
  method_of (send_call to amount hook) = "send"
  method_of (send_from_call owner to amount hook) = "send_from"
  method_of (mint_call to amount) = "mint"
  method_of (increase_allowance_call spender amount expires) = "increase_allowance"
  method_of (decrease_allowance_call spender amount expires) = "decrease_allowance"

  -- The JSON text of the arguments of a call, with its keys in their order: addresses and amounts by
  -- their texts, a hook that is not nil by its JSON text in base64, an expiry by its JSON text.
  abbrev pub HasHook : Value → (String → Type 0) → Type 0 → Type 0
  HasHook hook with_ without =
      ((hook ≡ null) × without)
      ⊎ ((hook ≢ null) × ((raw : String) × (marshal hook ≡ ok raw) × with_ (S.base64 raw)))

  abbrev pub IsAllowance : Bytes → S.Int → Value → String → Type 0
  IsAllowance spender amount expires text =
      (raw : String) × (marshal expires ≡ ok raw)
      × (text
          ≡ entries3 (entry "amount" (S.int_string amount)) (quote "expires" <> ":" <> raw)
              (entry "spender" (S.address_string spender)))

  abbrev pub HasArguments : TokenCall → String → Type 0
  HasArguments (transfer_call to amount) text =
      text
      ≡ entries2 (entry "amount" (S.int_string amount)) (entry "recipient" (S.address_string to))
  HasArguments (transfer_from_call owner to amount) text =
      text
      ≡ entries3 (entry "amount" (S.int_string amount)) (entry "owner" (S.address_string owner))
          (entry "recipient" (S.address_string to))
  HasArguments (burn_call amount) text = text ≡ "{" <> entry "amount" (S.int_string amount) <> "}"
  HasArguments (burn_from_call owner amount) text =
      text
      ≡ entries2 (entry "amount" (S.int_string amount)) (entry "owner" (S.address_string owner))
  HasArguments (send_call to amount hook) text =
      HasHook hook
        (λ msg.
          text
          ≡ entries3 (entry "amount" (S.int_string amount)) (entry "contract" (S.address_string to))
              (entry "msg" msg))
        (text
          ≡ entries2 (entry "amount" (S.int_string amount))
              (entry "contract" (S.address_string to)))
  HasArguments (send_from_call owner to amount hook) text =
      HasHook hook
        (λ msg.
          text
          ≡ entries4 (entry "amount" (S.int_string amount)) (entry "contract" (S.address_string to))
              (entry "msg" msg) (entry "owner" (S.address_string owner)))
        (text
          ≡ entries3 (entry "amount" (S.int_string amount)) (entry "contract" (S.address_string to))
              (entry "owner" (S.address_string owner)))
  HasArguments (mint_call to amount) text =
      text
      ≡ entries2 (entry "amount" (S.int_string amount)) (entry "recipient" (S.address_string to))
  HasArguments (increase_allowance_call spender amount expires) text =
      IsAllowance spender amount expires text
  HasArguments (decrease_allowance_call spender amount expires) text =
      IsAllowance spender amount expires text

  -- A list of one execution of a contract by an account: an object whose only key is a method, with
  -- arguments of which a text is known.
  abbrev pub IsCallOf :
      Bytes
      → KeyedAccount S
      → String
      → (String → Type 0)
      → List (Coin S.kinds)
      → List (Msg S.kinds)
      → Type 0
  IsCallOf addr acc method arguments coins msgs =
      (text : String) × arguments text
      × (msgs
          ≡ execute_contract (record {
            sender = acc_address S acc.key;
            contract = addr;
            execute_msg = "{" <> (quote method <> ":" <> text) <> "}";
            coins = coins;
          })
            ∷ [])

-- What succeeds as a hook.
hook_cases :
    (S : Sdk) (hook : Value) (fs : Fields) {gs : Fields}
    → with_hook S hook fs ≡ ok gs
    → (hook ≡ null) ⊎ ((hook ≢ null) × ((raw : String) × (marshal hook ≡ ok raw)))
hook_cases S null fs e = inl refl
hook_cases S (bool b) fs e =
    inr (λ n. absurd (ground arith), ok_value (marshal (bool b)) (ground arith))
hook_cases S (num n) fs e =
    inr (λ m. absurd (ground arith), ok_value (marshal (num n)) (ground arith))
hook_cases S (str s) fs e =
    inr (λ n. absurd (ground arith), ok_value (marshal (str s)) (ground arith))
hook_cases S (arr xs) fs e =
    inr (λ n. absurd (ground arith), ok_value (marshal (arr xs)) (ground arith))
hook_cases S (obj xs) fs e =
    inr (λ n. absurd (ground arith), ok_value (marshal (obj xs)) (ground arith))
hook_cases S nil_map fs e =
    inr (λ n. absurd (ground arith), ok_value (marshal nil_map) (ground arith))
hook_cases S (opaque x) fs e =
    inr (λ n. absurd (ground arith), ok_value (marshal (opaque x)) (ground arith))

module _ (S : Sdk) (t : Token S) (acc : KeyedAccount S) where
  -- What is known of a message's text is known of the messages that come back.
  pub known_call :
      (method text : String) (P : String → Type 0) {r : Outcome (List (Msg S.kinds))}
      {msgs : List (Msg S.kinds)}
      → r ≡ call_of S t acc method text
      → P text
      → r ≡ ok msgs
      → IsCallOf S t.contract.addr acc method P [] msgs
  known_call method text P known p e = (text, p, ground arith)

  burn_IsCallOf :
      (amount : S.Int) {msgs : List (Msg S.kinds)}
      → burn_msg S t acc amount ≡ ok msgs
      → IsCallOf S t.contract.addr acc "burn" (HasArguments S (burn_call amount)) [] msgs
  unfolding burn_msg marshal join_entries insert_sorted
  burn_IsCallOf amount e =
      known_call "burn" _ (HasArguments S (burn_call amount))
        (make_message-eq-ok S t.contract acc "burn" _ [] refl) refl e

  IsAllowance-IsCallOf :
      (method : String) (spender : Bytes) (amount : S.Int) (expires : Value)
      {msgs : List (Msg S.kinds)}
      → make_message S t.contract acc method
          (obj (
            address_field S "spender" spender
              (amount_field S amount (field "expires" expires end))))
          []
        ≡ ok msgs
      → IsCallOf S t.contract.addr acc method (IsAllowance S spender amount expires) [] msgs
  unfolding make_message generate_execute_msg marshal join_entries insert_sorted
  IsAllowance-IsCallOf method spender amount expires e =
      let (raw, encoded) = ok_value (marshal expires) (ground arith) in
      let text =
        entries3 (entry "amount" (S.int_string amount)) (quote "expires" <> ":" <> raw)
          (entry "spender" (S.address_string spender)) in
      let payload =
        obj (
          address_field S "spender" spender
            (amount_field S amount (field "expires" expires end))) in
      known_call method text (IsAllowance S spender amount expires)
        (make_message-eq-ok S t.contract acc method payload [] (rw encoded refl))
        (raw, encoded, refl) e

  send_IsCallOf :
      (to : Bytes) (amount : S.Int) (hook : Value) {msgs : List (Msg S.kinds)}
      → send_msg S t acc to amount hook ≡ ok msgs
      → IsCallOf S t.contract.addr acc "send" (HasArguments S (send_call to amount hook)) [] msgs
  unfolding send_msg
  send_IsCallOf to amount hook e =
      let fs = address_field S "contract" to (amount_field S amount end) in
      let (payload, made) = ok_value (with_hook S hook fs) (ground arith) in
      elim (hook_cases S hook fs made) [
        | inl nil_ ↦
            known_call "send" _ (HasArguments S (send_call to amount hook))
              (rw nil_ (send_without S t acc to to amount).0) (inl (nil_, refl)) e
        | inr (given, (raw, encoded)) ↦
            known_call "send" _ (HasArguments S (send_call to amount hook))
              (send_msgs_text S t acc to to amount hook encoded given).0
              (inr (given, (raw, encoded, refl))) e
      ]

  send_from_IsCallOf :
      (owner to : Bytes) (amount : S.Int) (hook : Value) {msgs : List (Msg S.kinds)}
      → send_from_msg S t acc owner to amount hook ≡ ok msgs
      → IsCallOf S t.contract.addr acc "send_from"
          (HasArguments S (send_from_call owner to amount hook))
          []
          msgs
  unfolding send_from_msg
  send_from_IsCallOf owner to amount hook e =
      let fs =
        address_field S "owner" owner (address_field S "contract" to (amount_field S amount end)) in
      let (payload, made) = ok_value (with_hook S hook fs) (ground arith) in
      elim (hook_cases S hook fs made) [
        | inl nil_ ↦
            known_call "send_from" _ (HasArguments S (send_from_call owner to amount hook))
              (rw nil_ (send_without S t acc to owner amount).1) (inl (nil_, refl)) e
        | inr (given, (raw, encoded)) ↦
            known_call "send_from" _ (HasArguments S (send_from_call owner to amount hook))
              (send_msgs_text S t acc to owner amount hook encoded given).1
              (inr (given, (raw, encoded, refl))) e
      ]

module _ (S : Sdk) (D : Targets S) (R : TokenTargets S) (t : Token S) where
  -- The messages that any of the nine calls of a token makes are one execution of the token's contract,
  -- by the account and without coins. Its text is an object whose only key is the call's method, and
  -- below it an object with exactly the call's arguments: the amount, the addresses, a hook that is not
  -- nil, in base64, and the expiry, which may be a null.
  pub messages_of-IsCallOf :
      (acc : KeyedAccount S) (k : TokenCall S) (msgs : List (Msg S.kinds))
      → messages_of S (token_interface S D t R).executor_msg acc k ≡ ok msgs
      → IsCallOf S
          (token_interface S D t R).base.get_address
          acc
          (method_of S k)
          (HasArguments S k)
          []
          msgs
  unfolding increase_allowance_msg decrease_allowance_msg
  messages_of-IsCallOf acc (transfer_call to amount) msgs e =
      known_call S t acc "transfer" _ (HasArguments S (transfer_call to amount))
        (transfer_msgs_text S t acc to to amount).0 refl e
  messages_of-IsCallOf acc (transfer_from_call owner to amount) msgs e =
      known_call S t acc "transfer_from" _ (HasArguments S (transfer_from_call owner to amount))
        (transfer_msgs_text S t acc owner to amount).3 refl e
  messages_of-IsCallOf acc (burn_call amount) msgs e = burn_IsCallOf S t acc amount e
  messages_of-IsCallOf acc (burn_from_call owner amount) msgs e =
      known_call S t acc "burn_from" _ (HasArguments S (burn_from_call owner amount))
        (transfer_msgs_text S t acc owner owner amount).2 refl e
  messages_of-IsCallOf acc (send_call to amount hook) msgs e =
      send_IsCallOf S t acc to amount hook e
  messages_of-IsCallOf acc (send_from_call owner to amount hook) msgs e =
      send_from_IsCallOf S t acc owner to amount hook e
  messages_of-IsCallOf acc (mint_call to amount) msgs e =
      known_call S t acc "mint" _ (HasArguments S (mint_call to amount))
        (transfer_msgs_text S t acc to to amount).1 refl e
  messages_of-IsCallOf acc (increase_allowance_call spender amount expires) msgs e =
      IsAllowance-IsCallOf S t acc "increase_allowance" spender amount expires e
  messages_of-IsCallOf acc (decrease_allowance_call spender amount expires) msgs e =
      IsAllowance-IsCallOf S t acc "decrease_allowance" spender amount expires e
