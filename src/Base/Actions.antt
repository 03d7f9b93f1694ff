-- ===== src/Base/Actions.antt =====
-- What a Go call comes back with, and calls that act on a state.
use Prim.Native.String.{String}
use mathlib.Core.Path.{◌≡◌, refl}
use mathlib.Core.Bool.{Bool, true, false}
use mathlib.Core.Option.{Option, none, some}
use mathlib.Core.Logic.{◌⊎◌, inl, inr}
use native.Mathlib.Omega.{arith}

-- An error value: `errors.New` or `errors.Errorf`, and `errors.Wrap` around another error.
pub data Error : Type 0 where
  message : String → Error
  wrap : Error → String → Error

-- `err` is a call that returns an error, with the zero value beside it; `panic` one that does not
-- return.
pub data Outcome {ℓ} (A : Type ℓ) : Type ℓ where
  ok : A → Outcome A
  err : Error → Outcome A
  panic : String → Outcome A

-- The state is kept on every outcome: what was written stays written.
abbrev pub Action {ℓ κ} : Type ℓ → Type κ → Type (ℓ ⊔ κ)
Action S A = S → Outcome A × S

module _ {ℓ κ} {S : Type ℓ} {A : Type κ} where
  abbrev pub pure : A → Action S A
  pure a s = (ok a, s)

  -- A call that touches no state.
  abbrev pub lift : Outcome A → Action S A
  lift r s = (r, s)

  abbrev pub fail : Error → Action S A
  fail e s = (err e, s)

-- `if err != nil { return zero, errors.Wrap(err, text) }` behind a call.
abbrev pub wrap_outcome {ℓ} : {A : Type ℓ} → String → Outcome A → Outcome A
wrap_outcome text (ok a) = ok a
wrap_outcome text (err e) = err (wrap e text)
wrap_outcome text (panic p) = panic p

abbrev pub wrapped {ℓ κ} : {S : Type ℓ} {A : Type κ} → String → Action S A → Action S A
wrapped text m s = let (r, s') = m s in (wrap_outcome text r, s')

infixl 5 ◌>>=◌ ◌>>◌
abbrev pub ◌>>=◌ {ℓ κ μ} :
    {S : Type ℓ} {A : Type κ} {B : Type μ} → Action S A → (A → Action S B) → Action S B
◌>>=◌ m f s =
    let (r, s') = m s in elim r [ ok a ↦ f a s' | err e ↦ (err e, s') | panic p ↦ (panic p, s') ]

abbrev pub ◌>>◌ {ℓ κ μ} :
    {S : Type ℓ} {A : Type κ} {B : Type μ} → Action S A → Action S B → Action S B
m >> k = m >>= λ _. k

-- A value that a library computes, or a panic where it has none.
abbrev pub or_panic {ℓ κ} : {S : Type ℓ} {A : Type κ} → String → Option A → Action S A
or_panic text none s = (panic text, s)
or_panic text (some a) s = (ok a, s)

abbrev pub is_ok {ℓ} : {A : Type ℓ} → Outcome A → Bool
is_ok (ok _) = true
is_ok (err _) = false
is_ok (panic _) = false

-- The three ways in which a call ends.
pub Outcome-cases {ℓ} :
    {A : Type ℓ} (r : Outcome A)
    → ((a : A) × (r ≡ ok a)) ⊎ ((e : Error) × (r ≡ err e)) ⊎ ((p : String) × (r ≡ panic p))
Outcome-cases (ok a) = inl (a, refl)
Outcome-cases (err e) = inr (inl (e, refl))
Outcome-cases (panic p) = inr (inr (p, refl))

-- What a call that succeeds returns.
pub ok_value {ℓ} : {A : Type ℓ} (r : Outcome A) → is_ok r ≡ true → (a : A) × (r ≡ ok a)
ok_value (ok a) h = (a, refl)
ok_value (err e) h = absurd (ground arith)
ok_value (panic p) h = absurd (ground arith)

-- Wrapping an error makes nothing succeed.
pub wrap_outcome_ok {ℓ} :
    {A : Type ℓ} (text : String) (r : Outcome A) (a : A) → wrap_outcome text r ≡ ok a → r ≡ ok a
wrap_outcome_ok text (ok b) a e = e
wrap_outcome_ok text (err x) a e = absurd (ground arith)
wrap_outcome_ok text (panic p) a e = absurd (ground arith)
