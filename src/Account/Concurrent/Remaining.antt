-- ===== src/Account/Concurrent/Remaining.antt =====
-- The steps that concurrent calls of `Update` (account.go) have before them.
use terra_go.Base.{
  ℕ, zero, suc, ◌+◌, ◌*◌, ◌<◌, ◌≤◌, ◌≡◌, ◌≢◌, refl, arith, List, [], ◌∷◌, inl, inr, zero_or_suc,
}
use terra_go.Sdk.{Sdk}
use terra_go.Account.Concurrent.{Phase, waiting, locked, fetched, returned, set_phase}

-- The goroutines of a schedule are below a number.
abbrev pub Below : ℕ → List ℕ → Type 0
Below n [] = Unit
Below n (i ∷ is) = (i < n) × Below n is

module _ (S : Sdk) where
  -- The steps that a goroutine has before it.
  abbrev pub steps_left : Phase S → ℕ
  steps_left waiting = 3
  steps_left locked = 2
  steps_left (fetched r) = 1
  steps_left (returned r) = 0

  -- Those of the goroutines below a number, together.
  pub remaining : ℕ → (ℕ → Phase S) → ℕ
  remaining zero phases = 0
  remaining (suc n) phases = steps_left (phases n) + remaining n phases

  pub remaining-bound : (n : ℕ) (phases : ℕ → Phase S) → remaining n phases ≤ 3 * n
  unfolding remaining
  remaining-bound zero phases = omega arith
  remaining-bound (suc n) phases = ground (arith, remaining-bound n phases)

  remaining-beyond :
      (n i : ℕ) (p : Phase S) (phases : ℕ → Phase S)
      → n ≤ i
      → remaining n (set_phase S i p phases) ≡ remaining n phases
  unfolding remaining
  remaining-beyond zero i p phases h = refl
  remaining-beyond (suc n) i p phases h =
      ground (arith, remaining-beyond n i p phases (omega arith))

  pub remaining-set_phase :
      (n i : ℕ) (p : Phase S) (phases : ℕ → Phase S)
      → i < n
      → remaining n (set_phase S i p phases) + steps_left (phases i)
        ≡ remaining n phases + steps_left p
  unfolding remaining
  remaining-set_phase zero i p phases h = absurd (omega arith)
  remaining-set_phase (suc n) i p phases h =
      ground (arith, remaining-beyond n n p phases, remaining-set_phase n i p phases)

  pub remaining-le :
      (n i : ℕ) (phases : ℕ → Phase S) → i < n → steps_left (phases i) ≤ remaining n phases
  unfolding remaining
  remaining-le zero i phases h = absurd (omega arith)
  remaining-le (suc n) i phases h = ground (arith, remaining-le n i phases)

  -- While steps remain, a goroutine has one.
  pub remaining_positive :
      (n k : ℕ) (phases : ℕ → Phase S)
      → remaining n phases ≡ suc k
      → (j : ℕ) × (j < n) × (steps_left (phases j) ≢ 0)
  unfolding remaining
  remaining_positive zero k phases h = absurd (omega arith)
  remaining_positive (suc n) k phases h =
      let here = steps_left (phases n) in
      elim (zero_or_suc here) [
        | inl none_here ↦
            let (j, below, more) = remaining_positive n k phases (omega arith) in
            (j, omega arith, more)
        | inr (m, some_here) ↦ (n, omega arith, λ z. ground arith)
      ]
