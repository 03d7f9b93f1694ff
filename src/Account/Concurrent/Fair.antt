-- ===== src/Account/Concurrent/Fair.antt =====
-- Fair schedules of concurrent calls of `Update` (account.go, lines 64 to 75).
use terra_go.Base.{ℕ, ◌<◌, ◌≡◌, Option, List, [], ◌∷◌, ◌⊎◌, none}
use terra_go.Http.{Context}
use terra_go.Sdk.{Sdk}
use terra_go.Service.Bodies.{Targets}
use terra_go.Account.{none}
use terra_go.Account.Concurrent.{Shared, advance}
use terra_go.Account.Concurrent.Serial.{Serial}
use terra_go.Account.Concurrent.Remaining.{Below}
use terra_go.Account.Concurrent.Finish.{continue_with}

-- A goroutine has a turn in a list of steps.
abbrev pub HasTurn : ℕ → List ℕ → Type 0
HasTurn i [] = ⊥
HasTurn i (j ∷ js) = (i ≡ j) ⊎ HasTurn i js

-- Rounds of steps, the earliest first: in each, all goroutines below a number have a turn, as often and
-- in whatever order it be. A goroutine that waits for the node is one whose turn comes when the node
-- has answered.
abbrev pub AreRounds : ℕ → List (List ℕ) → Type 0
AreRounds n [] = Unit
AreRounds n (js ∷ rounds) = Below n js × ((i : ℕ) → i < n → HasTurn i js) × AreRounds n rounds

module _ (S : Sdk) (D : Targets S) (contexts : ℕ → Option Context) where
  pub continue_rounds : List (List ℕ) → Shared S → Shared S
  continue_rounds [] s = s
  continue_rounds (js ∷ rounds) s = continue_rounds rounds (continue_with S D contexts js s)

  -- The step of a goroutine in a state.
  abbrev step : ℕ → Shared S → Shared S
  step i s = advance S D contexts i (s.phases i) s
