-- ===== src/Account/Requests.antt =====
-- What `CreateTx` asks the node for, and what it returns if the node answers (account.go).
use terra_go.Base.{
  if◌then◌else◌, ℕ, String, ◌≡◌, Option, some, ok, arith, is_ok, true, List, [], ◌∷◌, ◌++◌,
}
use terra_go.Base.Text.{◌<>◌}
use terra_go.Base.Text.Paths.{IsPlain, IsBase}
use terra_go.Http.{Context, Url, HttpRequest}
use terra_go.Sdk.{Sdk, StdSignMsg, Coin}
use terra_go.World.{World, sent_requests}
use terra_go.HttpClient.{Client}
use terra_go.Service.Bodies.{Targets, Reply}
use terra_go.Service.Bank.{get_balance}
use terra_go.Service.Answering.{AnswersGet}
use terra_go.Service.Sending.{get_at, get_account_info-Sends, get_balance-Sends}
use terra_go.Client.{new_terra_client}
use terra_go.Key.{Key, acc_address}
use Prim.Native.Nat.{max}
use terra_go.Account.Creation.{wanted}
use terra_go.Account.{
  DecCoin, KeyedAccount, Session, CreateTxOptions, update, create_tx, create_tx_with, with_defaults,
  choose_fee, unit_coins,
}
use terra_go.Account.Answers.{get_balance_answered, update_answered}

-- A node that tells an account and its balance: what `CreateTx` asks for before the fee.
pub record Tells (S : Sdk) (D : Targets S) (c : Client S) (u : Url) (x : Context) (addr : String)
    (n n' : S.Net) (acc : S.ChainAccount) : Type 0 where
  pub parsed : S.parse_url c.endpoint ≡ ok u
  pub between : S.Net
  pub account : Reply String (Option S.ChainAccount)
  pub told_account : AnswersGet S c u x D.account_info ("/auth/accounts/" <> addr) n between account
  pub is_account : account.result ≡ some acc
  pub balance : Reply S.Uint (List (Coin S.kinds))
  pub told_balance : AnswersGet S c u x D.balance ("/bank/balances/" <> addr) between n' balance
  pub height : ℕ
  pub fits : S.to_uint64 balance.height ≡ some height
  pub ones : List (Coin S.kinds)
  pub valid : unit_coins S balance.result ≡ some ones

-- The message of an account with a fee.
abbrev pub message_of :
    (S : Sdk) → KeyedAccount S → CreateTxOptions S → S.ChainAccount → S.StdFee → StdSignMsg S.kinds
message_of S a opts acc fee = record {
  chain_id = a.chain_id;
  account_number = S.get_account_number acc;
  sequence = max (S.get_sequence acc) (wanted opts.sequence);
  fee = fee;
  msgs = opts.msgs;
  memo = opts.memo;
}

-- An account over the client that `NewClient` makes, in a world.
abbrev pub session_of :
    (S : Sdk) → Client S → Key S → String → Option S.ChainAccount → World S → Session S
session_of S c k chain_id old w = record {
  account = record { key = k; client = new_terra_client S c; chain_id = chain_id; account = old };
  world = w;
}

-- What a fee is estimated at: the adjustment of the options, or 1.2 where it is zero, and their prices,
-- or 0.15 of micro luna where there are none.
abbrev pub adjustment_asked : (S : Sdk) → CreateTxOptions S → S.Float
adjustment_asked S opts =
    if S.is_zero opts.gas_adjustment then S.float_literal 12 1 else opts.gas_adjustment

abbrev pub prices_asked : (S : Sdk) → List (DecCoin S.kinds) → List (DecCoin S.kinds)
prices_asked S [] =
    record { denom = S.micro_luna_denom; amount = S.new_dec_with_prec 150000 6 } ∷ []
prices_asked S (p ∷ ps) = p ∷ ps

module _ (S : Sdk) (D : Targets S) (x : Context) (c : Client S) {u : Url} (k : Key S) (id : String)
    (old : Option S.ChainAccount) (w : World S) {n : S.Net} {acc : S.ChainAccount}
    (tells : Tells S D c u x (S.address_string (acc_address S k)) w.net n acc) where
  updated_world : World S
  updated_world = (update S D (some x) (session_of S c k id old w)).1.world

  update_told :
      (update S D (some x) (session_of S c k id old w)).0 ≡ ok tt
      × (update S D (some x) (session_of S c k id old w)).1
        ≡ session_of S c k id (some acc) updated_world
      × (updated_world.net ≡ tells.between)
  unfolding updated_world
  update_told =
      let (done, stored, left) =
        update_answered S D x (session_of S c k id old w) tells.parsed tells.told_account in
      ground (arith, done, stored, left, tells.is_account)

  balance_told :
      ((get_balance S D c (some x) (acc_address S k) updated_world).0
        ≡ ok (record { height = tells.height; balance = tells.balance.result }))
      × ((get_balance S D c (some x) (acc_address S k) updated_world).1.net ≡ n)
  balance_told =
      get_balance_answered S D x c (acc_address S k) updated_world tells.parsed
        (rw (update_told.2) tells.told_balance) tells.fits

  -- Over a node that tells the account and a valid balance, `CreateTx` with a fee in its options
  -- returns the message of the account that the node tells, with that fee, whatever it knew before.
  pub create_tx_answered :
      (opts : CreateTxOptions S) {fee : S.StdFee}
      → opts.fee ≡ some fee
      → (create_tx S D (some x) opts (session_of S c k id old w)).0
        ≡ ok (message_of S (session_of S c k id old w).account opts acc fee)
  unfolding create_tx with_defaults create_tx_with choose_fee
  create_tx_answered opts given = ground (arith, update_told, balance_told, tells.valid)

  pub create_tx_left :
      (opts : CreateTxOptions S) {fee : S.StdFee}
      → opts.fee ≡ some fee
      → (create_tx S D (some x) opts (session_of S c k id old w)).1.world.net ≡ n
  unfolding create_tx with_defaults create_tx_with choose_fee
  create_tx_left opts given = ground (arith, update_told, balance_told, tells.valid)

module _ (S : Sdk) (D : Targets S) (x : Context) (c : Client S) {u : Url} (k : Key S) (id : String)
    (old : Option S.ChainAccount) (w : World S) (bs : List String)
    (parsed : S.parse_url c.endpoint ≡ ok u) (base : IsBase u.path bs)
    (plain : IsPlain (S.address_string (acc_address S k))) where
  -- The requests for an account and for its balance, below an endpoint.
  abbrev pub account_request : HttpRequest
  account_request = get_at x u (bs ++ "auth" ∷ "accounts" ∷ S.address_string (acc_address S k) ∷ [])

  abbrev pub balance_request : HttpRequest
  balance_request = get_at x u (bs ++ "bank" ∷ "balances" ∷ S.address_string (acc_address S k) ∷ [])

  update_requests :
      sent_requests (update S D (some x) (session_of S c k id old w)).1.world.trace
      ≡ account_request ∷ sent_requests w.trace
  unfolding update
  update_requests =
      ground (arith, get_account_info-Sends S D c x bs parsed base (acc_address S k) plain w)

  -- With a fee in the options, a `CreateTx` that succeeds has sent two requests: one for the account
  -- of the key's address, and then one for its balance.
  pub create_tx_requests :
      (opts : CreateTxOptions S) {fee : S.StdFee}
      → opts.fee ≡ some fee
      → is_ok (create_tx S D (some x) opts (session_of S c k id old w)).0 ≡ true
      → sent_requests (create_tx S D (some x) opts (session_of S c k id old w)).1.world.trace
        ≡ balance_request ∷ account_request ∷ sent_requests w.trace
  unfolding create_tx with_defaults create_tx_with choose_fee
  create_tx_requests opts given done = ground (
    arith,
    update_requests,
    get_balance-Sends S D c x bs parsed base (acc_address S k) plain
        (update S D (some x) (session_of S c k id old w)).1.world,
  )
