-- ===== src/Base/Text.antt =====
-- What the program uses of Go's `fmt`, `strings` and `path`: decimal numbers, prefixes, and
-- slash-separated paths with their lexical cleaning.
pub mod Paths
use Prim.Native.Char.{Char, code}
use Prim.Native.Nat.{ℕ, zero, suc, ◌+◌, ◌/◌, ◌%◌}
use Prim.Native.String.{String, [], ◌∷◌}
use mathlib.Core.Bool.{Bool, true, false, ◌&&◌, ◌||◌}
use mathlib.Core.List.{List, [], ◌∷◌, reverse}
use text.Mathlib.Text.{◌==◌ as str_eq}
use terra_go.Base.Tests.{ltb, ◌==◌, if◌then◌else◌}
use terra_go.Base.Int.{ℤ, pos, negsuc}

-- `s + t`, by clauses, so that a literal in front computes.
infixr 65 ◌<>◌
abbrev pub ◌<>◌ : String → String → String
[] <> t = t
(c ∷ s) <> t = c ∷ (s <> t)

-- `strings.HasPrefix`
abbrev pub has_prefix : String → String → Bool
has_prefix s [] = true
has_prefix [] (d ∷ p) = false
has_prefix (c ∷ s) (d ∷ p) = code c == code d && has_prefix s p

abbrev pub digit : ℕ → Char
digit zero = "0"
digit (suc zero) = "1"
digit (suc (suc zero)) = "2"
digit (suc (suc (suc zero))) = "3"
digit (suc (suc (suc (suc zero)))) = "4"
digit (suc (suc (suc (suc (suc zero))))) = "5"
digit (suc (suc (suc (suc (suc (suc zero)))))) = "6"
digit (suc (suc (suc (suc (suc (suc (suc zero))))))) = "7"
digit (suc (suc (suc (suc (suc (suc (suc (suc zero)))))))) = "8"
digit _ = "9"

-- Each round takes the last digit off; a number above its rounds is never reached.
unfoldable pub digits : ℕ → ℕ → String → String
digits zero n out = out
digits (suc fuel) n out =
    let more = digits fuel (n / 10) (digit (n % 10) ∷ out) in
    if ltb n 10 then digit n ∷ out else more

-- `%d` of an unsigned number
unfoldable pub show_ℕ : ℕ → String
unfolding digits
show_ℕ n = digits (suc n) n ""

unfoldable pub show_ℤ : ℤ → String
unfolding show_ℕ
show_ℤ (pos n) = show_ℕ n
show_ℤ (negsuc n) = "-" <> show_ℕ (suc n)

abbrev pub push_first : Char → List String → List String
push_first c [] = (c ∷ "") ∷ []
push_first c (w ∷ ws) = (c ∷ w) ∷ ws

-- The segments between the slashes.
unfoldable pub split_slash : String → List String
split_slash [] = "" ∷ []
split_slash (c ∷ s) =
    let rest = split_slash s in if code c == b'/' then "" ∷ rest else push_first c rest

-- `strings.Join(ws, "/")`
unfoldable pub join_slash : List String → String
join_slash [] = ""
join_slash (w ∷ []) = w
join_slash (w ∷ v ∷ ws) = w <> "/" <> join_slash (v ∷ ws)

abbrev pub pop_dir : Bool → List String → List String
pop_dir rooted [] = if rooted then [] else ".." ∷ []
pop_dir rooted (top ∷ stack) = if str_eq top ".." then ".." ∷ top ∷ stack else stack

-- One segment of `path.Clean`; the stack of kept segments has its last one at the head.
unfoldable pub clean_segment : Bool → List String → String → List String
clean_segment rooted stack w =
    if str_eq w "" || str_eq w "."
    then stack
    else if str_eq w ".."
    then pop_dir rooted stack
    else w ∷ stack

unfoldable pub clean_segments : Bool → List String → List String → List String
unfolding clean_segment
clean_segments rooted stack [] = reverse stack
clean_segments rooted stack (w ∷ ws) = clean_segments rooted (clean_segment rooted stack w) ws

abbrev pub dot_if_empty : String → String
dot_if_empty [] = "."
dot_if_empty (c ∷ s) = c ∷ s

-- `path.Clean`
unfoldable pub clean : String → String
unfolding clean_segments split_slash join_slash
clean path =
    let rooted = has_prefix path "/" in
    let kept = join_slash (clean_segments rooted [] (split_slash path)) in
    if rooted then "/" <> kept else dot_if_empty kept

-- `path.Join` of two elements
unfoldable pub path_join : String → String → String
unfolding clean
path_join [] [] = ""
path_join [] (c ∷ path) = clean (c ∷ path)
path_join (c ∷ base) path = clean ((c ∷ base) <> "/" <> path)
