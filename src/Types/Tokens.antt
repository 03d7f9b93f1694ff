-- ===== src/Types/Tokens.antt =====
-- types/types.go: the pair of an address and an amount, as JSON.
pub mod Pairs
use Prim.Native.String.{String}
use terra_go.Base.{
  ℕ, suc, ◌+◌, Option, none, some, List, [], ◌∷◌, Outcome, ok, err, wrap_outcome, message,
}
use terra_go.Base.Text.{◌<>◌, show_ℕ}
use terra_go.Value.{
  marshal, Value, null, bool, num, str, arr, obj, nil_map, opaque, Items, nil, cons, and_then,
}
use terra_go.Sdk.{Sdk, Bytes}

-- What `json.Unmarshal` makes of a parsed JSON value in a `[]string`: a null element is an empty
-- text, and a null an empty slice.
abbrev pub unmarshal_text : Value → Outcome String
unmarshal_text (str s) = ok s
unmarshal_text null = ok ""
unmarshal_text nil_map = ok ""
unmarshal_text (bool b) = err (message "json: cannot unmarshal bool into string")
unmarshal_text (num n) = err (message "json: cannot unmarshal number into string")
unmarshal_text (arr xs) = err (message "json: cannot unmarshal array into string")
unmarshal_text (obj fs) = err (message "json: cannot unmarshal object into string")
unmarshal_text (opaque t) = err (message "invalid character")

unfoldable pub unmarshal_texts : Items → Outcome (List String)
unmarshal_texts nil = ok []
unmarshal_texts (cons v xs) =
    and_then (unmarshal_text v) λ s. and_then (unmarshal_texts xs) λ ss. ok (s ∷ ss)

abbrev pub unmarshal_origin : Value → Outcome (List String)
unmarshal_origin (arr xs) = unmarshal_texts xs
unmarshal_origin null = ok []
unmarshal_origin nil_map = ok []
unmarshal_origin (bool b) = err (message "json: cannot unmarshal bool into []string")
unmarshal_origin (num n) = err (message "json: cannot unmarshal number into []string")
unmarshal_origin (str s) = err (message "json: cannot unmarshal string into []string")
unmarshal_origin (obj fs) = err (message "json: cannot unmarshal object into []string")
unmarshal_origin (opaque t) = err (message "invalid character")

abbrev count : List String → ℕ
count [] = 0
count (s ∷ ss) = suc (count ss)

module _ (S : Sdk) where
  pub record TokensHuman : Type 0 where
    pub addr : Bytes
    pub amount : S.Int

  abbrev pub parse_amount : String → Outcome S.Int
  parse_amount text = elim (S.int_from_string text) [
    | none ↦ err (message ("invalid numeric string " <> text))
    | some n ↦ ok n
  ]

  -- Behind the test of the length.
  unfoldable pub parse_pair : List String → Outcome TokensHuman
  parse_pair (a ∷ n ∷ []) =
      and_then (wrap_outcome "bech32 to accAddress" (S.address_from_bech32 a))
        λ addr. and_then (parse_amount n) λ amount. ok (record { addr = addr; amount = amount })
  parse_pair [] = err (message ("invalid tuple length " <> show_ℕ 0))
  parse_pair (a ∷ []) = err (message ("invalid tuple length " <> show_ℕ 1))
  parse_pair (a ∷ n ∷ t ∷ ts) = err (message ("invalid tuple length " <> show_ℕ (3 + count ts)))

  unfoldable pub unmarshal_tokens : Value → Outcome TokensHuman
  unmarshal_tokens v = and_then (wrap_outcome "unmarshal origin" (unmarshal_origin v)) parse_pair

  -- The slice that `MarshalJSON` encodes.
  unfoldable pub tokens_value : TokensHuman → Value
  tokens_value t =
      arr (cons (str (S.address_string t.addr)) (cons (str (S.int_string t.amount)) nil))

  unfoldable pub marshal_tokens : TokensHuman → Outcome String
  unfolding tokens_value
  marshal_tokens t = marshal (tokens_value t)
