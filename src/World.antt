-- ===== src/World.antt =====
-- What the program's calls act on: the outside, and the record of what was done to it.
use terra_go.Base.{ℕ, Outcome, Error, Action, List, [], ◌∷◌, ok}
use terra_go.Http.{HttpRequest}
use terra_go.Sdk.{Sdk}

-- A request handed to the network, a pause in seconds, and the lines that the loggers write.
pub data Event : Type 0 where
  sent : HttpRequest → Event
  slept : ℕ → Event
  logged_reply : ℕ → HttpRequest → Event
  logged_unread : Error → Event
  logged_unparsed : Event

module _ (S : Sdk) where
  -- The latest event comes first.
  pub record World : Type 0 where
    pub net : S.Net
    pub trace : List Event

module _ {S : Sdk} where
  abbrev pub happen : Event → Action (World S) (Unit {0})
  happen e w = (ok tt, record w { trace = e ∷ w.trace })

  -- A call of code outside the program.
  abbrev pub outside {ℓ} : {A : Type ℓ} → (S.Net → Outcome A × S.Net) → Action (World S) A
  outside f w = let (r, n) = f w.net in (r, record w { net = n })

-- The requests among the events, the latest first.
abbrev pub sent_requests : List Event → List HttpRequest
sent_requests [] = []
sent_requests (sent r ∷ es) = r ∷ sent_requests es
sent_requests (slept _ ∷ es) = sent_requests es
sent_requests (logged_reply _ _ ∷ es) = sent_requests es
sent_requests (logged_unread _ ∷ es) = sent_requests es
sent_requests (logged_unparsed ∷ es) = sent_requests es
