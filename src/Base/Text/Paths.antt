-- ===== src/Base/Text/Paths.antt =====
-- Paths made of plain segments are left alone by cleaning and joined by concatenation.
use Prim.Native.Char.{code}
use Prim.Native.String.{String, [], ◌∷◌}
use mathlib.Core.Path.{◌≡◌, refl, sym, ap, ◌∙◌}
use mathlib.Core.Logic.{◌≢◌, ◌⊎◌, inl, inr}
use mathlib.Core.Bool.{Bool, true, not, ◌&&◌}
use mathlib.Core.List.{
  List, [], ◌∷◌, ◌++◌, reverse, reverse-cons, reverse-reverse, append_assoc, append-nil,
}
use native.Mathlib.Omega.{arith}
use text.Mathlib.Text.{◌==◌ as str_eq}
use text.Mathlib.TextEquality.{eq_iff}
use terra_go.Base.Tests.{◌==◌}
use terra_go.Base.Text.{
  ◌<>◌, split_slash, join_slash, clean_segment, clean_segments, clean, path_join,
}

abbrev pub NoSlash : String → Type 0
NoSlash [] = Unit
NoSlash (c ∷ s) = (code c ≢ b'/') × NoSlash s

-- A segment that names one level below its directory.
abbrev pub IsPlain : String → Type 0
IsPlain w = (w ≢ "") × (w ≢ ".") × (w ≢ "..") × NoSlash w

abbrev pub AllPlain : List String → Type 0
AllPlain [] = Unit
AllPlain (w ∷ ws) = IsPlain w × AllPlain ws

-- The same as tests, for segments that are known.
abbrev pub no_slash : String → Bool
no_slash [] = true
no_slash (c ∷ s) = not (code c == b'/') && no_slash s

abbrev pub is_plain : String → Bool
is_plain w = not (str_eq w "") && not (str_eq w ".") && not (str_eq w "..") && no_slash w

no_slash-NoSlash : (s : String) → no_slash s ≡ true → NoSlash s
no_slash-NoSlash [] h = tt
no_slash-NoSlash (c ∷ s) h = ground (arith, no_slash-NoSlash s)

pub is_plain-IsPlain : (w : String) → is_plain w ≡ true → IsPlain w
is_plain-IsPlain w h = ground (arith, eq_iff w "", eq_iff w ".", eq_iff w "..", no_slash-NoSlash w)

pub <>-nil : (s : String) → s <> "" ≡ s
<>-nil [] = refl
<>-nil (c ∷ s) = ap (λ t. c ∷ t) (<>-nil s)

pub <>-assoc : (s t u : String) → (s <> t) <> u ≡ s <> t <> u
<>-assoc [] t u = refl
<>-assoc (c ∷ s) t u = ap (λ t. c ∷ t) (<>-assoc s t u)

-- A segment up to the next slash, or up to the end.
split_slash-segment : (w s : String) → NoSlash w → split_slash (w <> "/" <> s) ≡ w ∷ split_slash s
unfolding split_slash
split_slash-segment [] s h = refl
split_slash-segment (c ∷ w) s (h, hs) = ground (arith, split_slash-segment w s hs)

split_slash-last : (w : String) → NoSlash w → split_slash w ≡ w ∷ []
unfolding split_slash
split_slash-last [] h = refl
split_slash-last (c ∷ w) (h, hs) = ground (arith, split_slash-last w hs)

split_slash-join_slash :
    (w : String) (ws : List String) → AllPlain (w ∷ ws) → split_slash (join_slash (w ∷ ws)) ≡ w ∷ ws
unfolding join_slash
split_slash-join_slash w [] h = split_slash-last w h.0.3
split_slash-join_slash w (v ∷ ws) h =
    split_slash-segment w _ h.0.3 ∙ ap (λ l. w ∷ l) (split_slash-join_slash v ws h.1)

clean_segment_of_IsPlain :
    (rooted : Bool) (stack : List String) (w : String)
    → IsPlain w
    → clean_segment rooted stack w ≡ w ∷ stack
unfolding clean_segment
clean_segment_of_IsPlain rooted stack w h = ground (arith, eq_iff w "", eq_iff w ".", eq_iff w "..")

clean_segments_of_AllPlain :
    (rooted : Bool) (stack ws : List String)
    → AllPlain ws
    → clean_segments rooted stack ws ≡ reverse stack ++ ws
unfolding clean_segments
clean_segments_of_AllPlain rooted stack [] h = sym (append-nil _)
clean_segments_of_AllPlain rooted stack (w ∷ ws) (h, hs) =
    rw
      (
        clean_segment_of_IsPlain rooted stack w h,
        clean_segments_of_AllPlain rooted (w ∷ stack) ws hs,
      )
      (simp (reverse-cons, append_assoc))

split_slash-join_slash-append :
    (w : String) (ws : List String) (s : String)
    → AllPlain (w ∷ ws)
    → split_slash (join_slash (w ∷ ws) <> "/" <> s) ≡ w ∷ ws ++ split_slash s
unfolding join_slash
split_slash-join_slash-append w [] s h = split_slash-segment w s h.0.3
split_slash-join_slash-append w (v ∷ ws) s h =
    rw (<>-assoc w ("/" <> join_slash (v ∷ ws)) ("/" <> s)) (
      split_slash-segment w (join_slash (v ∷ ws) <> "/" <> s) h.0.3
      ∙ ap (λ l. w ∷ l) (split_slash-join_slash-append v ws s h.1))

-- An absolute path with the given segments.
abbrev pub rooted : List String → String
rooted ws = "/" <> join_slash ws

clean_segments-append :
    (r : Bool) (stack ws rest : List String)
    → AllPlain ws
    → clean_segments r stack (ws ++ rest) ≡ clean_segments r (reverse ws ++ stack) rest
unfolding clean_segments
clean_segments-append r stack [] rest h = refl
clean_segments-append r stack (w ∷ ws) rest (h, hs) =
    ap (λ t. clean_segments r t (ws ++ rest)) (clean_segment_of_IsPlain r stack w h)
    ∙ clean_segments-append r (w ∷ stack) ws rest hs
    ∙ ap (λ t. clean_segments r t rest) (simp (reverse-cons, append_assoc))

-- `clean` keeps an absolute path of plain segments.
pub clean-rooted : (ws : List String) → AllPlain ws → clean (rooted ws) ≡ rooted ws
unfolding clean
clean-rooted [] h = refl
clean-rooted (w ∷ ws) h =
    rw (split_slash-join_slash w ws h, clean_segments_of_AllPlain true [] (w ∷ ws) h)

-- Joined to no base path, an absolute path of plain segments stays.
pub path_join-nil : (ps : List String) → AllPlain ps → path_join "" (rooted ps) ≡ rooted ps
unfolding path_join
path_join-nil ps h = clean-rooted ps h

-- Joined to an absolute base path, its segments go behind those of the base.
pub path_join-rooted :
    (bs : List String) (p : String) (ps : List String)
    → AllPlain bs
    → AllPlain (p ∷ ps)
    → path_join (rooted bs) (rooted (p ∷ ps)) ≡ rooted (bs ++ p ∷ ps)
unfolding path_join
path_join-rooted [] p ps hb hp =
    rw (split_slash-join_slash p ps hp, clean_segments_of_AllPlain true [] (p ∷ ps) hp)
path_join-rooted (b ∷ bs) p ps hb hp =
    rw
      (
        split_slash-join_slash-append b bs (rooted (p ∷ ps)) hb,
        clean_segments-append true [] (b ∷ bs) ("" ∷ split_slash (join_slash (p ∷ ps))) hb,
        split_slash-join_slash p ps hp,
        clean_segments_of_AllPlain true (reverse (b ∷ bs) ++ []) (p ∷ ps) hp,
      )
      (simp (append-nil, reverse-reverse))

-- The path of an endpoint with the given segments, with or without the slash of an empty one.
abbrev pub IsBase : String → List String → Type 0
IsBase path bs = AllPlain bs × ((path ≡ rooted bs) ⊎ ((path ≡ "") × (bs ≡ [])))

pub path_join-IsBase :
    (path : String) (bs : List String) (p : String) (ps : List String)
    → IsBase path bs
    → AllPlain (p ∷ ps)
    → path_join path (rooted (p ∷ ps)) ≡ rooted (bs ++ p ∷ ps)
path_join-IsBase path bs p ps (hb, inl e) hp = rw e (path_join-rooted bs p ps hb hp)
path_join-IsBase path bs p ps (hb, inr (e, none_)) hp = rw (e, none_) (path_join-nil (p ∷ ps) hp)

-- A path that climbs out of a known directory.
pub path_join-txs_parent :
    (p : String) (ps : List String)
    → AllPlain (p ∷ ps)
    → path_join "" ("/txs/../" <> join_slash (p ∷ ps)) ≡ rooted (p ∷ ps)
unfolding path_join
path_join-txs_parent p ps hp =
    rw (split_slash-join_slash p ps hp, clean_segments_of_AllPlain true [] (p ∷ ps) hp)
