-- ===== src/Bind/Entries.antt =====
-- The JSON texts of the queries of contracts: an object with a method, and in it entries.
use Prim.Native.String.{String}
use terra_go.Base.{ℕ, Option, none, some, List, [], ◌∷◌}
use terra_go.Base.Int.{pos}
use terra_go.Base.Text.{◌<>◌, show_ℤ}
use terra_go.Value.{quote}
use terra_go.Sdk.{Sdk, Bytes}

-- Texts with commas between them.
abbrev pub commas : List String → String
commas [] = ""
commas (t ∷ []) = t
commas (t ∷ u ∷ ts) = t <> "," <> commas (u ∷ ts)

module _ (S : Sdk) where
  abbrev pub address_entry : String → Bytes → String
  address_entry key addr = quote key <> ":" <> quote (S.address_string addr)

  -- An entry for a value that is given.
  abbrev pub if_address : String → Option Bytes → List String
  if_address key none = []
  if_address key (some addr) = address_entry key addr ∷ []

  abbrev pub if_number : String → Option ℕ → List String
  if_number key none = []
  if_number key (some n) = (quote key <> ":" <> show_ℤ (pos n)) ∷ []

  -- An object with a method, and in it the entries in the order of their keys.
  abbrev pub method_text : String → List String → String
  method_text method entries = "{" <> (quote method <> ":" <> ("{" <> commas entries <> "}")) <> "}"
