-- ===== src/Value.antt =====
-- Go values as the program hands them to `json.Marshal`: `interface{}` parameters and `types.Q`
-- (types/types.go, lines 10 to 10), and the text that `encoding/json` and `fmt` make of them.
use Prim.Native.Char.{Char, code}
use Prim.Native.String.{String, [], ◌∷◌, compare}
use text.Mathlib.Text.{◌==◌ as str_eq, is_lt}
use terra_go.Base.{
  ◌≡◌, refl, arith, arith, ◌≡◌, ℕ, ◌/◌, ◌%◌, Bool, true, false, ◌||◌, Option, none, some, [], ◌∷◌,
  message, Outcome, ok, err, panic, ltb, ◌==◌, if◌then◌else◌,
}
use terra_go.Base.Dict.{Dict}
use terra_go.Base.Int.{ℤ}
use terra_go.Base.Text.{◌<>◌, show_ℤ, digit}

-- Numbers are integers; floats are left out. `opaque` is a value that JSON cannot hold, such as a function, with the text that `%v` prints;
-- `nil_map` is a map that was never made.
mutual
  pub data Value : Type 0 where
    null : Value
    bool : Bool → Value
    num : ℤ → Value
    str : String → Value
    arr : Items → Value
    obj : Fields → Value
    nil_map : Value
    opaque : String → Value

  pub data Items : Type 0 where
    nil : Items
    cons : Value → Items → Items

  pub data Fields : Type 0 where
    end : Fields
    field : String → Value → Fields → Fields

-- `types.Q`: `none` is the nil map.
abbrev pub Q : Type 0
Q = Option Fields

abbrev pub q_value : Q → Value
q_value none = nil_map
q_value (some fs) = obj fs

-- `q[k] = v`
abbrev pub set_field : String → Value → Fields → Fields
set_field k v end = field k v end
set_field k v (field j w fs) = if str_eq k j then field k v fs else field j w (set_field k v fs)

-- `if v != nil { q[k] = *v }` on a map that is not nil.
abbrev pub put_some : String → Option Value → Fields → Fields
put_some k none fs = fs
put_some k (some v) fs = set_field k v fs

abbrev hex_digit : ℕ → Char
hex_digit n =
    if ltb n 10
    then digit n
    else if n == 10
    then "a"
    else if n == 11
    then "b"
    else if n == 12
    then "c"
    else if n == 13
    then "d"
    else if n == 14
    then "e"
    else "f"

abbrev unicode_escape : ℕ → String
unicode_escape n =
    "\\u"
    <> hex_digit (n / 4096)
      ∷ hex_digit (n / 256 % 16)
      ∷ hex_digit (n / 16 % 16)
      ∷ hex_digit (n % 16)
      ∷ ""

-- One character of a quoted text, with Go's HTML escaping.
abbrev escape : Char → String
escape c =
    let n = code c in
    if n == 0x22
    then "\\\""
    else if n == 0x5c
    then "\\\\"
    else if n == 0x0a
    then "\\n"
    else if n == 0x0d
    then "\\r"
    else if n == 0x09
    then "\\t"
    else if ltb n 0x20 || n == 0x3c || n == 0x3e || n == 0x26 || n == 0x2028 || n == 0x2029
    then unicode_escape n
    else c ∷ ""

unfoldable pub escape_all : String → String
escape_all [] = ""
escape_all (c ∷ s) = escape c <> escape_all s

unfoldable pub quote : String → String
unfolding escape_all
quote s = "\"" <> escape_all s <> "\""

-- Encoded entries in the order of their keys.
unfoldable pub insert_sorted : String → String → Dict String → Dict String
insert_sorted k t [] = (k, t) ∷ []
insert_sorted k t ((j, u) ∷ d) =
    if is_lt (compare k j) then (k, t) ∷ (j, u) ∷ d else (j, u) ∷ insert_sorted k t d

unfoldable pub join_entries : Dict String → String
unfolding quote
join_entries [] = ""
join_entries ((k, t) ∷ []) = quote k <> ":" <> t
join_entries ((k, t) ∷ e ∷ d) = quote k <> ":" <> t <> "," <> join_entries (e ∷ d)

abbrev pub and_then {ℓ κ} : {A : Type ℓ} {B : Type κ} → Outcome A → (A → Outcome B) → Outcome B
and_then (ok a) f = f a
and_then (err e) f = err e
and_then (panic p) f = panic p

-- What succeeds behind another call, behind its value.
pub and_then_ok {ℓ κ} :
    {A : Type ℓ} {B : Type κ} (r : Outcome A) (f : A → Outcome B) (b : B)
    → and_then r f ≡ ok b
    → (a : A) × (r ≡ ok a) × (f a ≡ ok b)
and_then_ok (ok a) f b h = (a, refl, h)
and_then_ok (err e) f b h = absurd (ground arith)
and_then_ok (panic p) f b h = absurd (ground arith)

-- `json.Marshal`: map keys are sorted, and a value that JSON cannot hold is an error.
unfoldable mutual
  unfolding quote insert_sorted join_entries show_ℤ

  pub marshal : Value → Outcome String
  marshal null = ok "null"
  marshal (bool true) = ok "true"
  marshal (bool false) = ok "false"
  marshal (num z) = ok (show_ℤ z)
  marshal (str s) = ok (quote s)
  marshal (arr xs) = and_then (marshal_items xs) λ t. ok ("[" <> t <> "]")
  marshal (obj fs) = and_then (marshal_fields fs) λ d. ok ("{" <> join_entries d <> "}")
  marshal nil_map = ok "null"
  marshal (opaque t) = err (message "json: unsupported type")

  pub marshal_items : Items → Outcome String
  marshal_items nil = ok ""
  marshal_items (cons x nil) = marshal x
  marshal_items (cons x (cons y xs)) =
      and_then (marshal x) λ t. and_then (marshal_items (cons y xs)) λ u. ok (t <> "," <> u)

  pub marshal_fields : Fields → Outcome (Dict String)
  marshal_fields end = ok []
  marshal_fields (field k v fs) =
      and_then (marshal v) λ t. and_then (marshal_fields fs) λ d. ok (insert_sorted k t d)

-- Entries as `%v` prints a map, in the order of the keys.
unfoldable pub format_entries : Dict String → String
format_entries [] = ""
format_entries ((k, t) ∷ []) = k <> ":" <> t
format_entries ((k, t) ∷ e ∷ d) = k <> ":" <> t <> " " <> format_entries (e ∷ d)

-- `fmt.Sprintf("%v", v)`
unfoldable mutual
  unfolding insert_sorted format_entries show_ℤ

  pub format : Value → String
  format null = "<nil>"
  format (bool true) = "true"
  format (bool false) = "false"
  format (num z) = show_ℤ z
  format (str s) = s
  format (arr xs) = "[" <> format_items xs <> "]"
  format (obj fs) = "map[" <> format_entries (sorted_fields fs) <> "]"
  format nil_map = "map[]"
  format (opaque t) = t

  pub format_items : Items → String
  format_items nil = ""
  format_items (cons x nil) = format x
  format_items (cons x (cons y xs)) = format x <> " " <> format_items (cons y xs)

  pub sorted_fields : Fields → Dict String
  sorted_fields end = []
  sorted_fields (field k v fs) = insert_sorted k (format v) (sorted_fields fs)
