-- ===== src/Types/Tokens/Pairs.antt =====
-- What the JSON of a pair of an address and an amount keeps and refuses (types/types.go).
use Prim.Native.String.{String}
use terra_go.Base.{sym, ap, ◌∙◌, inl, inr, ◌⊎◌, ok_value, ◌≡◌, refl, some, List, [], ◌∷◌, ok, arith}
use terra_go.Value.{and_then_ok, Value}
use terra_go.Sdk.{Sdk}
use terra_go.Types.Tokens.{
  opaque, obj, num, and_then, bool, nil_map, nil, null, cons, Items, arr, str, unmarshal_text,
  TokensHuman, unmarshal_tokens, unmarshal_origin, unmarshal_texts, parse_pair,
}

-- A value is a text, or a null that counts as the empty one.
abbrev pub IsText : Value → String → Type 0
IsText v s = (v ≡ str s) ⊎ (((v ≡ null) ⊎ (v ≡ nil_map)) × (s ≡ ""))

unmarshal_text_sound : (v : Value) {s : String} → unmarshal_text v ≡ ok s → IsText v s
unmarshal_text_sound null e = inr (inl refl, ground arith)
unmarshal_text_sound (bool b) e = absurd (ground arith)
unmarshal_text_sound (num n) e = absurd (ground arith)
unmarshal_text_sound (str t) e = inl (ground arith)
unmarshal_text_sound (arr xs) e = absurd (ground arith)
unmarshal_text_sound (obj fs) e = absurd (ground arith)
unmarshal_text_sound nil_map e = inr (inr refl, ground arith)
unmarshal_text_sound (opaque t) e = absurd (ground arith)

unmarshal_texts_cons :
    (v : Value) (xs : Items) {ss : List String}
    → unmarshal_texts (cons v xs) ≡ ok ss
    → (s : String) × (rest : List String) × (ss ≡ s ∷ rest)
      × IsText v s
      × (unmarshal_texts xs ≡ ok rest)
unfolding unmarshal_texts
unmarshal_texts_cons v xs {ss} e =
    let (s, read, more) =
      and_then_ok (unmarshal_text v) (λ s. and_then (unmarshal_texts xs) λ ts. ok (s ∷ ts)) ss e in
    let (rest, others, same) = and_then_ok (unmarshal_texts xs) (λ ts. ok (s ∷ ts)) ss more in
    (s, rest, ground arith, unmarshal_text_sound v read, others)

two_texts :
    (xs : Items) {a n : String}
    → unmarshal_texts xs ≡ ok (a ∷ n ∷ [])
    → (e : Value) × (f : Value) × (xs ≡ cons e (cons f nil)) × IsText e a × IsText f n
unfolding unmarshal_texts
two_texts nil h = absurd (ground arith)
two_texts (cons e nil) h =
    let (s, rest, same, first, more) = unmarshal_texts_cons e nil h in absurd (ground arith)
two_texts (cons e (cons f nil)) {a} {n} h =
    let (s, rest, same, first, more) = unmarshal_texts_cons e (cons f nil) h in
    let (t, rest', same', second, end_) = unmarshal_texts_cons f nil more in
    let here : s ≡ a = ground arith in
    let there : t ≡ n = ground arith in (e, f, refl, rw (sym here) first, rw (sym there) second)
two_texts (cons e (cons f (cons g xs))) h =
    let (s, rest, same, first, more) = unmarshal_texts_cons e (cons f (cons g xs)) h in
    let (t, rest', same', second, more') = unmarshal_texts_cons f (cons g xs) more in
    let (r, rest'', same'', third, end_) = unmarshal_texts_cons g xs more' in absurd (ground arith)

unmarshal_origin_sound :
    (v : Value) {a n : String}
    → unmarshal_origin v ≡ ok (a ∷ n ∷ [])
    → (e : Value) × (f : Value) × (v ≡ arr (cons e (cons f nil))) × IsText e a × IsText f n
unmarshal_origin_sound (arr xs) h =
    let (e, f, same, first, second) = two_texts xs h in (e, f, ap arr same, first, second)
unmarshal_origin_sound null h = absurd (ground arith)
unmarshal_origin_sound nil_map h = absurd (ground arith)
unmarshal_origin_sound (bool b) h = absurd (ground arith)
unmarshal_origin_sound (num n) h = absurd (ground arith)
unmarshal_origin_sound (str s) h = absurd (ground arith)
unmarshal_origin_sound (obj fs) h = absurd (ground arith)
unmarshal_origin_sound (opaque t) h = absurd (ground arith)

module _ (S : Sdk) where
  parse_pair_sound :
      (ts : List String) {t : TokensHuman S}
      → parse_pair S ts ≡ ok t
      → (a : String) × (n : String) × (ts ≡ a ∷ n ∷ [])
        × (S.address_from_bech32 a ≡ ok t.addr)
        × (S.int_from_string n ≡ some t.amount)
  unfolding parse_pair
  parse_pair_sound [] e = absurd (ground arith)
  parse_pair_sound (a ∷ []) e = absurd (ground arith)
  parse_pair_sound (a ∷ n ∷ []) e = (a, n, refl, ground arith, ground arith)
  parse_pair_sound (a ∷ n ∷ t ∷ ts) e = absurd (ground arith)

  -- A JSON value that is accepted as a pair is an array of exactly two elements, each a text or a null,
  -- which counts as the empty text; the first is the pair's address and the second its amount.
  pub unmarshal_tokens_sound :
      (v : Value) {t : TokensHuman S}
      → unmarshal_tokens S v ≡ ok t
      → (e : Value) × (f : Value) × (a : String) × (n : String) × (v ≡ arr (cons e (cons f nil)))
        × IsText e a
        × IsText f n
        × (S.address_from_bech32 a ≡ ok t.addr)
        × (S.int_from_string n ≡ some t.amount)
  unfolding unmarshal_tokens
  unmarshal_tokens_sound v {t} e =
      let (ts, done) = ok_value (unmarshal_origin v) (ground arith) in
      let (a, n, same, read, number) = parse_pair_sound ts {t = t} (ground arith) in
      let (e', f', array, first, second) = unmarshal_origin_sound v (done ∙ ap ok same) in
      (e', f', a, n, array, first, second, read, number)
