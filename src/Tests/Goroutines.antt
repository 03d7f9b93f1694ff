-- ===== src/Tests/Goroutines.antt =====
-- Two concurrent updates of an account.
use terra_go.Base.{zero, suc, ℕ, ◌≡◌, refl, Option, none, some, List, [], ◌∷◌}
use terra_go.Http.{Context}
use terra_go.Account.{Session}
use terra_go.Account.Requests.{session_of}
use terra_go.Account.Concurrent.{advance, interleave}
use terra_go.Account.Concurrent.Serial.{Serial}
use terra_go.Tests.Node.{test_sdk}
use terra_go.Tests.Replies.{test_targets, test_client, scripted, reply}
use terra_go.Tests.Keys.{test_key}

abbrev contexts : ℕ → Option Context
contexts i = some i

abbrev session : Session test_sdk
session =
    session_of test_sdk (test_client "node/v1") test_key "columbus-4" none
      (scripted (reply "account" ∷ reply "busy" ∷ []))

-- The second goroutine takes two steps while the first holds the lock; the latest comes first.
abbrev locked_first : List ℕ
locked_first = 2 ∷ 1 ∷ []

abbrev finished : List ℕ
finished = 2 ∷ 2 ∷ 2 ∷ 1 ∷ 2 ∷ 1 ∷ locked_first

first_holds : (interleave test_sdk test_targets contexts locked_first session).mutex ≡ some 1
unfolding interleave advance
first_holds = refl

-- Three goroutines, of which the first holds the lock and the second has tried it; then rounds in which
-- each has a turn.
abbrev one_round : List ℕ
one_round = 0 ∷ 1 ∷ 2 ∷ []

abbrev rounds_of : ℕ → List (List ℕ)
rounds_of zero = []
rounds_of (suc k) = one_round ∷ rounds_of k

abbrev nine_rounds : List (List ℕ)
nine_rounds = rounds_of 9
