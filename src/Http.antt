-- ===== src/Http.antt =====
-- What the program uses of Go's `net/http`, `net/url` and `io`: requests, replies and their bodies.
use Prim.Native.String.{String}
use text.Mathlib.Text.{◌==◌ as str_eq}
use terra_go.Base.{ℕ, Option, List, [], ◌∷◌, Error, if◌then◌else◌}

-- A handle on a context; what it cancels is the network's business.
abbrev pub Context : Type 0
Context = ℕ

-- `url.Values`, read through its keys: a missing key has no values.
abbrev pub Values : Type 0
Values = String → List String

-- `q.Set(k, v)` replaces all values of the key.
abbrev pub set_value : Values → String → String → Values
set_value q k v j = if str_eq j k then v ∷ [] else q j

-- `origin` is the part in front of the path. The raw query is kept as the values that it encodes.
pub record Url : Type 0 where
  pub origin : String
  pub path : String
  pub query : Values

pub record HttpRequest : Type 0 where
  pub context : Context
  pub method : String
  pub url : Url
  pub body : Option String

-- A stream: what it holds, and the error in which reading it to the end fails, if it does.
pub record Stream : Type 0 where
  pub content : String
  pub failure : Option Error

pub record HttpResponse : Type 0 where
  pub status : ℕ
  pub body : Stream
