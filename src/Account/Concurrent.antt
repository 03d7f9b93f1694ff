-- ===== src/Account/Concurrent.antt =====
-- `Update` (account.go) called by many goroutines at the same time, behind the account's mutex. The
-- call of the node, which happens under the lock, is one step.
pub mod Serial
pub mod Remaining
pub mod Finish
pub mod Fair
use terra_go.Base.{
  ℕ, Bool, true, false, Option, none, some, List, [], ◌∷◌, Outcome, ok, err, panic, wrap_outcome,
  ◌==◌, if◌then◌else◌,
}
use terra_go.Http.{Context}
use terra_go.Sdk.{Sdk}
use terra_go.World.{World}
use terra_go.Service.Bodies.{Targets}
use terra_go.Service.Auth.{get_account_info}
use terra_go.Key.{acc_address}
use terra_go.Account.{KeyedAccount, Session}

module _ (S : Sdk) where
  -- Where a goroutine stands in `Update`: before the lock, behind it, behind the call of the node, or
  -- behind the unlock.
  pub data Phase : Type 0 where
    waiting : Phase
    locked : Phase
    fetched : Outcome (Option S.ChainAccount) → Phase
    returned : Outcome (Unit {0}) → Phase

  -- The goroutines have numbers. The history holds those that have returned, the latest first.
  pub record Shared : Type 0 where
    pub session : Session S
    pub mutex : Option ℕ
    pub phases : ℕ → Phase
    pub history : List (ℕ × Outcome (Unit {0}))

  abbrev pub in_section : Phase → Bool
  in_section waiting = false
  in_section locked = true
  in_section (fetched r) = true
  in_section (returned r) = false

  abbrev pub set_phase : ℕ → Phase → (ℕ → Phase) → ℕ → Phase
  set_phase i p phases j = if j == i then p else phases j

  -- The write, if the node has answered.
  abbrev pub stored : Outcome (Option S.ChainAccount) → Session S → Session S
  stored (ok info) s = record s { account = record s.account { account = info } }
  stored (err e) s = s
  stored (panic p) s = s

  -- What `Update` returns.
  abbrev pub result_of : Outcome (Option S.ChainAccount) → Outcome (Unit {0})
  result_of (ok info) = ok tt
  result_of (err e) = wrap_outcome "fetch account info" (err e)
  result_of (panic p) = panic p

  abbrev pub start : Session S → Shared
  start s = record { session = s; mutex = none; phases = λ _. waiting; history = [] }

module _ (S : Sdk) (D : Targets S) (contexts : ℕ → Option Context) where
  abbrev pub fetch : ℕ → Session S → Outcome (Option S.ChainAccount) × World S
  fetch i s =
      get_account_info S D s.account.client.auth (contexts i) (acc_address S s.account.key) s.world

  -- The next step of a goroutine; without the lock it stays where it is. A panic unlocks too, by the
  -- deferred call, and is taken to be recovered by the caller.
  unfoldable pub advance : ℕ → Phase S → Shared S → Shared S
  advance i waiting s = elim s.mutex [
    | none ↦ record s { mutex = some i; phases = set_phase S i locked s.phases }
    | some j ↦ s
  ]
  advance i locked s =
      let (r, w) = fetch i s.session in
      record s {
        session = record s.session { world = w };
        phases = set_phase S i (fetched r) s.phases;
      }
  advance i (fetched r) s = record s {
    session = stored S r s.session;
    mutex = none;
    phases = set_phase S i (returned (result_of S r)) s.phases;
    history = (i, result_of S r) ∷ s.history;
  }
  advance i (returned r) s = s

  -- An interleaving: the goroutines in the order in which they take their steps, the latest first.
  unfoldable pub interleave : List ℕ → Session S → Shared S
  interleave [] s = start S s
  interleave (i ∷ is) s = let t = interleave is s in advance i (t.phases i) t
