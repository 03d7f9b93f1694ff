-- ===== src/Account/Concurrent/Serial.antt =====
-- Concurrent calls of `Update` are calls one after the other (account.go).
use terra_go.Base.{
  ℕ, ◌≡◌, refl, Option, none, some, List, [], ◌∷◌, Outcome, ok, err, panic, true, arith, ◌⊎◌, inl,
  inr, Option-cases,
}
use terra_go.Http.{Context}
use terra_go.Sdk.{Sdk}
use terra_go.Service.Bodies.{Targets}
use terra_go.Account.{Session, update}
use terra_go.Account.Concurrent.{
  Phase, waiting, locked, fetched, returned, Shared, in_section, set_phase, stored, result_of,
  fetch, advance, interleave,
}

module _ (S : Sdk) (D : Targets S) (contexts : ℕ → Option Context) (s₀ : Session S) where
  -- Calls of `Update` one after the other, with what they return, the latest first, and the session
  -- behind them.
  pub data Serial : List (ℕ × Outcome (Unit {0})) → Session S → Type 0 where
    nothing : Serial [] s₀
    then_update :
        {h : List (ℕ × Outcome (Unit {0}))} {s t : Session S} {r : Outcome (Unit {0})}
        → Serial h s
        → (i : ℕ) → update S D (contexts i) s ≡ (r, t)
        → Serial ((i, r) ∷ h) t

  -- How far the goroutine with the lock is.
  pub data Progress (s : Shared S) : Type 0 where
    free : s.mutex ≡ none → Serial s.history s.session → Progress s
    held :
        (i : ℕ) → s.mutex ≡ some i → s.phases i ≡ locked → Serial s.history s.session → Progress s
    told :
        (i : ℕ) (r : Outcome (Option S.ChainAccount)) (before : Session S)
        → s.mutex ≡ some i
        → s.phases i ≡ fetched r
        → Serial s.history before
        → fetch S D contexts i before ≡ (r, s.session.world)
        → before.account ≡ s.session.account
        → Progress s

  pub record Sound (s : Shared S) : Type 0 where
    -- Only the holder of the lock is between the lock and the unlock.
    pub section : (j : ℕ) → in_section S (s.phases j) ≡ true → s.mutex ≡ some j
    pub progress : Progress s

  fetched-update :
      (i : ℕ) (before after : Session S) (r : Outcome (Option S.ChainAccount))
      → fetch S D contexts i before ≡ (r, after.world)
      → before.account ≡ after.account
      → update S D (contexts i) before ≡ (result_of S r, stored S r after)
  unfolding update
  fetched-update i before after (ok info) e same = ground arith
  fetched-update i before after (err x) e same = ground arith
  fetched-update i before after (panic x) e same = ground arith

  -- Taking the lock.
  lock-Sound :
      (i : ℕ) (s : Shared S)
      → s.mutex ≡ none
      → Sound s
      → Sound (record s { mutex = some i; phases = set_phase S i locked s.phases })
  lock-Sound i s open_ h = record {
    section = λ j inside. ground (arith, h.section j);
    progress = held i refl (ground arith) (elim h.progress [
      | free _ serial ↦ serial
      | held j taken _ _ ↦ absurd (ground arith)
      | told j r before taken _ _ _ _ ↦ absurd (ground arith)
    ]);
  }

  -- Without the lock a goroutine waits.
  advance-waiting :
      (i : ℕ) (s : Shared S) {j : ℕ} → s.mutex ≡ some j → advance S D contexts i waiting s ≡ s
  unfolding advance
  advance-waiting i s taken = ground arith

  pub advance-Sound :
      (i : ℕ) (p : Phase S) (s : Shared S)
      → s.phases i ≡ p
      → Sound s
      → Sound (advance S D contexts i p s)
  unfolding advance
  advance-Sound i waiting s e h = elim (Option-cases s.mutex) [
    | inl open_ ↦ rw open_ (lock-Sound i s open_ h)
    | inr (j, taken) ↦ rw (advance-waiting i s taken) h
  ]
  advance-Sound i locked s e h = record {
    section = λ j inside. ground (arith, h.section j, h.section i);
    progress = elim h.progress [
      | free open_ _ ↦ absurd (ground (arith, h.section i))
      | held j taken _ serial ↦
          told i (fetch S D contexts i s.session).0 s.session (ground (arith, h.section i))
            (ground arith) serial refl refl
      | told j r before taken behind _ _ _ ↦ absurd (ground (arith, h.section i))
    ];
  }
  advance-Sound i (fetched r) s e h = record {
    section = λ j inside. ground (arith, h.section j, h.section i);
    progress = elim h.progress [
      | free open_ _ ↦ absurd (ground (arith, h.section i))
      | held j taken inside _ ↦ absurd (ground (arith, h.section i))
      | told j q before taken behind serial answered same ↦
          free refl (
            then_update serial i (ground (arith, h.section i, fetched-update i before s.session r)))
    ];
  }
  advance-Sound i (returned r) s e h = h

  pub interleave-Sound : (is : List ℕ) → Sound (interleave S D contexts is s₀)
  unfolding interleave
  interleave-Sound [] = record {
    section = λ j inside. absurd (ground arith);
    progress = free refl nothing;
  }
  interleave-Sound (i ∷ is) =
      let t = interleave S D contexts is s₀ in
      advance-Sound i (t.phases i) t refl (interleave-Sound is)

  advance_fetched :
      (i : ℕ) (s : Shared S) {r : Outcome (Option S.ChainAccount)}
      → s.phases i ≡ fetched r
      → (advance S D contexts i (s.phases i) s).mutex ≡ none
  unfolding advance
  advance_fetched i s e = rw e refl

  advance_locked :
      (i : ℕ) (s : Shared S)
      → s.phases i ≡ locked
      → (advance S D contexts i (s.phases i) s).phases i
        ≡ fetched (fetch S D contexts i s.session).0
  unfolding advance
  advance_locked i s e = rw e (ground arith)

  -- In every interleaving the goroutine that holds the lock frees it with its next step or the one
  -- behind that, whatever the node answers; so no call waits for ever.
  pub interleave_freed :
      (is : List ℕ) (i : ℕ)
      → (interleave S D contexts is s₀).mutex ≡ some i
      → ((interleave S D contexts (i ∷ is) s₀).mutex ≡ none)
        ⊎ ((interleave S D contexts (i ∷ i ∷ is) s₀).mutex ≡ none)
  unfolding interleave
  interleave_freed is i taken =
      let s = interleave S D contexts is s₀ in
      elim (interleave-Sound is).progress [
        | free open_ _ ↦ absurd (ground arith)
        | held j holds behind _ ↦ inr (
            advance_fetched i (advance S D contexts i (s.phases i) s)
              (advance_locked i s (ground arith)))
        | told j r before holds behind _ _ _ ↦ inl (advance_fetched i s {r = r} (ground arith))
      ]
