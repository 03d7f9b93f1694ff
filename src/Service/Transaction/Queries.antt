-- ===== src/Service/Transaction/Queries.antt =====
-- What `QueryTx` sends (service/transaction.go).
use Prim.Native.String.{String}
use text.Mathlib.Text.{◌==◌ as str_eq}
use text.Mathlib.TextEquality.{eq_iff}
use terra_go.Base.{◌≡◌, refl, ◌∙◌, Option, none, some, ok, panic, arith, if◌then◌else◌, [], ◌⊎◌}
use terra_go.Base.Dict.{Dict, lookup, insert, lookup-insert}
use terra_go.Base.Int.{ℤ}
use terra_go.Base.Text.{show_ℤ}
use terra_go.Value.{Value, Fields, end, field, num, set_field, format}
use terra_go.Http.{Context}
use terra_go.Sdk.{Sdk}
use terra_go.World.{World}
use terra_go.HttpClient.{Client}
use terra_go.Service.Bodies.{Targets}
use terra_go.Service.Transaction.{
  QueryTxRequest, put_number, query_fields, format_query, format_q, query_tx,
}

abbrev pub lookup_field : String → Fields → Option Value
lookup_field k end = none
lookup_field k (field j v fs) = if str_eq k j then some v else lookup_field k fs

-- No key is listed twice.
abbrev pub NodupFields : Fields → Type 0
NodupFields end = Unit
NodupFields (field k v fs) = (lookup_field k fs ≡ none) × NodupFields fs

lookup_field-set_field :
    (k j : String) (v : Value) (fs : Fields)
    → lookup_field k (set_field j v fs) ≡ (if str_eq k j then some v else lookup_field k fs)
lookup_field-set_field k j v end = refl
lookup_field-set_field k j v (field i w fs) =
    ground (arith, lookup_field-set_field k j v fs, eq_iff k j, eq_iff j i, eq_iff k i)

set_field-NodupFields :
    (j : String) (v : Value) (fs : Fields) → NodupFields fs → NodupFields (set_field j v fs)
set_field-NodupFields j v end h = (refl, tt)
set_field-NodupFields j v (field i w fs) (fresh, h) =
    ground (
      arith,
      set_field-NodupFields j v fs h,
      lookup_field-set_field i j v fs,
      eq_iff i j,
      eq_iff j i,
    )

-- The text of a field that is there, or else the value that was there before.
abbrev pub formatted : Option Value → Option String → Option String
formatted none old = old
formatted (some v) old = some (format v)

lookup-format_query :
    (k : String) (fs : Fields) (d : Dict String)
    → NodupFields fs
    → lookup k (format_query fs d) ≡ formatted (lookup_field k fs) (lookup k d)
unfolding format_query
lookup-format_query k end d h = refl
lookup-format_query k (field j v fs) d (fresh, h) = ground (
  arith,
  lookup-format_query k fs (insert j (format v) d) h,
  lookup-insert k j (format v) d,
  eq_iff k j,
)

abbrev pub number_text : Option ℤ → Option String → Option String
number_text none rest = rest
number_text (some n) rest = some (show_ℤ n)

-- The fields with a number put under a key, if one is given.
abbrev with_number : String → Option ℤ → Fields → Fields
with_number key none fs = fs
with_number key (some n) fs = set_field key (num n) fs

with_number-NodupFields :
    (key : String) (n : Option ℤ) (fs : Fields)
    → NodupFields fs
    → NodupFields (with_number key n fs)
with_number-NodupFields key none fs h = h
with_number-NodupFields key (some n) fs h = set_field-NodupFields key (num n) fs h

format-with_number :
    (k key : String) (n : Option ℤ) (fs : Fields)
    → formatted (lookup_field k (with_number key n fs)) none ≡ (
        if str_eq k key
        then number_text n (formatted (lookup_field k fs) none)
        else formatted (lookup_field k fs) none)
unfolding format
format-with_number k key none fs = ground arith
format-with_number k key (some n) fs = ground (arith, lookup_field-set_field k key (num n) fs)

put_number-with_number :
    (key : String) (n : Option ℤ) (fs : Fields)
    → put_number key n (some fs) ≡ ok (some (with_number key n fs))
put_number-with_number key none fs = refl
put_number-with_number key (some n) fs = refl

-- With a map that is not nil, the query that `QueryTx` sends holds the page under `page` and the
-- limit under `limit`, where they are given, and otherwise the texts of the map's own entries.
pub query_fields-lookup :
    (req : QueryTxRequest) (fs : Fields) (k : String)
    → req.query ≡ some fs
    → NodupFields fs
    → (gs : Fields) × (query_fields req ≡ ok (some gs))
      × (lookup k (format_q (some gs)) ≡ (
          if str_eq k "limit"
          then number_text req.limit (formatted (lookup_field k fs) none)
          else if str_eq k "page"
          then number_text req.page (formatted (lookup_field k fs) none)
          else formatted (lookup_field k fs) none))
unfolding query_fields
query_fields-lookup req fs k given h =
    let paged = with_number "page" req.page fs in
    let gs = with_number "limit" req.limit paged in
    let nodup =
      with_number-NodupFields "limit" req.limit paged
        (with_number-NodupFields "page" req.page fs h) in
    (
      gs,
      rw (given, put_number-with_number "page" req.page fs)
          (put_number-with_number "limit" req.limit paged),
      lookup-format_query k gs [] nodup
          ∙ ground (
            arith,
            format-with_number k "limit" req.limit paged,
            format-with_number k "page" req.page fs,
            eq_iff k "limit",
            eq_iff k "page",
            eq_iff "limit" "page",
          ),
    )

-- With a nil map and a page or a limit, `QueryTx` panics, and sends nothing.
pub query_tx_panics :
    (S : Sdk) (D : Targets S) (c : Client S) (ctx : Option Context) (req : QueryTxRequest) (n : ℤ)
    (w : World S)
    → req.query ≡ none
    → (req.page ≡ some n) ⊎ (req.limit ≡ some n)
    → query_tx S D c ctx req w ≡ (panic "assignment to entry in nil map", w)
unfolding query_tx query_fields
query_tx_panics S D c ctx req n w nil_ given = ground arith
