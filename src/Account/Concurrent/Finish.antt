-- ===== src/Account/Concurrent/Finish.antt =====
-- The steps that concurrent calls of `Update` (account.go) can take, and the end of them.
use terra_go.Base.{
  ℕ, suc, ◌<◌, ◌≡◌, ◌≢◌, refl, Option, none, some, List, [], ◌∷◌, arith, ◌⊎◌, inl, inr,
  Option-cases, true,
}
use terra_go.Http.{Context}
use terra_go.Sdk.{Sdk}
use terra_go.Service.Bodies.{Targets}
use terra_go.Account.{Session}
use terra_go.Account.Concurrent.{
  Phase, waiting, locked, fetched, returned, Shared, in_section, advance, interleave, fetch,
  result_of,
}
use terra_go.Account.Concurrent.Serial.{free, held, told, Serial, Sound}
use terra_go.Account.Concurrent.Remaining.{
  Below, steps_left, remaining, remaining-set_phase, remaining-le, remaining_positive,
}

module _ (S : Sdk) (D : Targets S) (contexts : ℕ → Option Context) where
  -- Steps behind a state, the earliest first.
  unfoldable pub continue_with : List ℕ → Shared S → Shared S
  continue_with [] s = s
  continue_with (i ∷ is) s = continue_with is (advance S D contexts i (s.phases i) s)

  -- The holder of the lock is below a number.
  abbrev pub HolderBelow : ℕ → Shared S → Type 0
  HolderBelow n s = (j : ℕ) → s.mutex ≡ some j → j < n

  pub advance-HolderBelow :
      (n i : ℕ) (p : Phase S) (s : Shared S)
      → i < n
      → HolderBelow n s
      → HolderBelow n (advance S D contexts i p s)
  unfolding advance
  advance-HolderBelow n i waiting s below h j e = elim (Option-cases s.mutex) [
    | inl open_ ↦ ground arith
    | inr (k, taken) ↦ ground (arith, h j)
  ]
  advance-HolderBelow n i locked s below h j e = h j e
  advance-HolderBelow n i (fetched r) s below h j e = absurd (ground arith)
  advance-HolderBelow n i (returned r) s below h j e = h j e

  module _ (s₀ : Session S) where
    pub interleave-HolderBelow :
        (n : ℕ) (is : List ℕ) → Below n is → HolderBelow n (interleave S D contexts is s₀)
    unfolding interleave
    interleave-HolderBelow n [] b j e = absurd (ground arith)
    interleave-HolderBelow n (i ∷ is) (below, b) j e =
        let s = interleave S D contexts is s₀ in
        advance-HolderBelow n i (s.phases i) s below (interleave-HolderBelow n is b) j e

    active_phase : (p : Phase S) → steps_left S p ≢ 0 → (p ≡ waiting) ⊎ (in_section S p ≡ true)
    active_phase waiting more = inl refl
    active_phase locked more = inr refl
    active_phase (fetched r) more = inr refl
    active_phase (returned r) more = absurd (more refl)

    -- While steps remain, a goroutine can take one: the holder of the lock, or one that waits for it.
    pub some_step :
        (n k : ℕ) (s : Shared S)
        → Sound S D contexts s₀ s
        → HolderBelow n s
        → remaining S n s.phases ≡ suc k
        → (i : ℕ) × (i < n)
          × ((s.phases i ≡ waiting) × (s.mutex ≡ none) ⊎ (in_section S (s.phases i) ≡ true))
    some_step n k s sound holder more = elim sound.progress [
      | free open_ _ ↦
          let (j, below, active) = remaining_positive S n k s.phases more in
          (
            j,
            below,
            elim (active_phase (s.phases j) active) [
              | inl w ↦ inl (w, open_)
              | inr inside ↦ inr inside
            ],
          )
      | held i taken behind _ ↦ (i, holder i taken, inr (rw behind refl))
      | told i r before taken behind _ _ _ ↦ (i, holder i taken, inr (rw behind refl))
    ]

    -- With nothing left to do the lock is free.
    pub finished :
        (n : ℕ) (s : Shared S)
        → Sound S D contexts s₀ s
        → HolderBelow n s
        → remaining S n s.phases ≡ 0
        → (s.mutex ≡ none) × Serial S D contexts s₀ s.history s.session
    finished n s sound holder done = elim sound.progress [
      | free open_ serial ↦ (open_, serial)
      | held i taken behind _ ↦
          absurd (ground (arith, remaining-le S n i s.phases (holder i taken)))
      | told i r before taken behind _ _ _ ↦
          absurd (ground (arith, remaining-le S n i s.phases (holder i taken)))
    ]

    -- A step changes nothing or takes one from the remaining ones.
    pub advance_descends :
        (n i : ℕ) (p : Phase S) (s : Shared S)
        → s.phases i ≡ p
        → i < n
        → (advance S D contexts i p s ≡ s)
          ⊎ (suc (remaining S n (advance S D contexts i p s).phases) ≡ remaining S n s.phases)
    unfolding advance
    advance_descends n i waiting s e below = elim (Option-cases s.mutex) [
      | inl open_ ↦ inr (ground (arith, remaining-set_phase S n i locked s.phases below))
      | inr (j, taken) ↦ inl (ground arith)
    ]
    advance_descends n i locked s e below = inr (
        ground (
          arith,
          remaining-set_phase S n i (fetched (fetch S D contexts i s.session).0) s.phases below,
        ))
    advance_descends n i (fetched r) s e below =
        inr (ground (arith, remaining-set_phase S n i (returned (result_of S r)) s.phases below))
    advance_descends n i (returned r) s e below = inl refl
