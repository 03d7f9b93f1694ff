-- ===== src/Codec/Filling.antt =====
-- What a codec knows that lists of types and names were registered with.
use Prim.Native.String.{String}
use text.Mathlib.Text.{◌==◌ as str_eq}
use text.Mathlib.TextEquality.{eq_iff}
use terra_go.Base.{◌≡◌, refl, Option, none, some, [], ◌∷◌, ◌++◌, ok, ◌>>◌, arith, if◌then◌else◌}
use terra_go.Sdk.{Sdk}
use terra_go.Sdk.Amino.{Amino, AminoLaws, Registrations, register_all}

abbrev pub or_else {ℓ} : {A : Type ℓ} → Option A → Option A → Option A
or_else none y = y
or_else (some x) y = some x

or_else-none {ℓ} : {A : Type ℓ} (x : Option A) → or_else x none ≡ x
or_else-none none = refl
or_else-none (some x) = refl

module _ {S : Sdk} (A : Amino S) (L : AminoLaws A) where
  -- The name that a list gives to a type, and the type that it gives to a name.
  abbrev pub name_in : Registrations A → A.Concrete → Option String
  name_in [] u = none
  name_in ((t, name) ∷ rs) u = if L.same u t then some name else name_in rs u

  abbrev pub type_in : Registrations A → String → Option A.Concrete
  type_in [] k = none
  type_in ((t, name) ∷ rs) k = if str_eq k name then some t else type_in rs k

  -- No type and no name is registered twice.
  abbrev pub Distinct : Registrations A → Type 0
  Distinct [] = Unit
  Distinct ((t, name) ∷ rs) = (name_in rs t ≡ none) × (type_in rs name ≡ none) × Distinct rs

  -- A codec knows none of a list.
  abbrev pub Fresh : S.Codec → Registrations A → Type 0
  Fresh c [] = Unit
  Fresh c ((t, name) ∷ rs) = (L.name_of c t ≡ none) × (L.concrete_of c name ≡ none) × Fresh c rs

  pub filled : Registrations A → S.Codec → S.Codec
  filled [] c = c
  filled ((t, name) ∷ rs) c = filled rs (L.registered t name c)

  pub Fresh-new : (rs : Registrations A) → Fresh A.new rs
  Fresh-new [] = tt
  Fresh-new ((t, name) ∷ rs) = (L.name_of-new t, L.concrete_of-new name, Fresh-new rs)

  Fresh-registered :
      (t : A.Concrete) (name : String) (c : S.Codec) (rs : Registrations A)
      → name_in rs t ≡ none
      → type_in rs name ≡ none
      → Fresh c rs
      → Fresh (L.registered t name c) rs
  Fresh-registered t name c [] h k f = tt
  Fresh-registered t name c ((u, other) ∷ rs) h k (g, g', f) = ground (
    arith,
    Fresh-registered t name c rs,
    L.name_of-registered t name c u,
    L.concrete_of-registered t name c other,
    L.same_iff t u,
    L.same_iff u t,
    eq_iff name other,
    eq_iff other name,
  )

  pub register_all-filled :
      (rs : Registrations A) (c : S.Codec)
      → Distinct rs
      → Fresh c rs
      → register_all A rs c ≡ (ok tt, filled rs c)
  unfolding filled
  register_all-filled [] c d f = refl
  register_all-filled ((t, name) ∷ rs) c (h, k, d) (g, g', f) = ground (
    arith,
    L.register_fresh t name c g g',
    register_all-filled rs (L.registered t name c) d (Fresh-registered t name c rs h k f),
  )

  name_of-filled :
      (rs : Registrations A) (c : S.Codec) (u : A.Concrete)
      → Distinct rs
      → L.name_of (filled rs c) u ≡ or_else (name_in rs u) (L.name_of c u)
  unfolding filled
  name_of-filled [] c u d = refl
  name_of-filled ((t, name) ∷ rs) c u (h, k, d) = ground (
    arith,
    name_of-filled rs (L.registered t name c) u d,
    L.name_of-registered t name c u,
    L.same_iff u t,
  )

  concrete_of-filled :
      (rs : Registrations A) (c : S.Codec) (k : String)
      → Distinct rs
      → L.concrete_of (filled rs c) k ≡ or_else (type_in rs k) (L.concrete_of c k)
  unfolding filled
  concrete_of-filled [] c k d = refl
  concrete_of-filled ((t, name) ∷ rs) c k (h, h', d) = ground (
    arith,
    concrete_of-filled rs (L.registered t name c) k d,
    L.concrete_of-registered t name c k,
    eq_iff k name,
  )

  pub register_all-append :
      (rs qs : Registrations A) (c : S.Codec)
      → register_all A (rs ++ qs) c ≡ (register_all A rs >> register_all A qs) c
  register_all-append [] qs c = refl
  register_all-append ((t, name) ∷ rs) qs c =
      ground (arith, register_all-append rs qs (A.register_concrete t name c).1)

  -- A codec that was filled from empty knows what the list does.
  pub known_type :
      (rs : Registrations A) (k : String)
      → Distinct rs
      → L.concrete_of (filled rs A.new) k ≡ type_in rs k
  known_type rs k d =
      ground
        (arith, concrete_of-filled rs A.new k d, L.concrete_of-new k, or_else-none (type_in rs k))

  pub known_name :
      (rs : Registrations A) (u : A.Concrete)
      → Distinct rs
      → L.name_of (filled rs A.new) u ≡ name_in rs u
  known_name rs u d =
      ground (arith, name_of-filled rs A.new u d, L.name_of-new u, or_else-none (name_in rs u))
