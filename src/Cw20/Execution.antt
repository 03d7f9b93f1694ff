-- ===== src/Cw20/Execution.antt =====
-- interface/standard/cw20/token_exec.go: each message, executed.
use terra_go.Base.{Option, none, List, Outcome, Action, lift, ◌>>=◌}
use terra_go.Value.{Value}
use terra_go.Http.{Context}
use terra_go.Sdk.{Sdk, Bytes, Msg}
use terra_go.Service.Bodies.{Targets}
use terra_go.Account.{Session}
use terra_go.Bind.{BaseContract, execute}
use terra_go.Cw20.{
  Token, transfer_msg, transfer_from_msg, burn_msg, burn_from_msg, send_msg, send_from_msg,
  mint_msg, increase_allowance_msg, decrease_allowance_msg,
}

module _ (S : Sdk) (D : Targets S) where
  -- `if err != nil { return err }`, and then `Execute` with no mode and no options.
  unfoldable pub execute_made :
      BaseContract S
      → Option Context
      → Outcome (List (Msg S.kinds))
      → Action (Session S) S.TxResponse
  execute_made b ctx made = do msgs ← lift made; execute S D b ctx msgs none none

module _ (S : Sdk) (D : Targets S) (t : Token S) (ctx : Option Context) where
  unfoldable pub transfer : Bytes → S.Int → Action (Session S) S.TxResponse
  transfer recipient amount s =
      execute_made S D t.contract ctx (transfer_msg S t s.account recipient amount) s

  unfoldable pub transfer_from : Bytes → Bytes → S.Int → Action (Session S) S.TxResponse
  transfer_from owner recipient amount s =
      execute_made S D t.contract ctx (transfer_from_msg S t s.account owner recipient amount) s

  unfoldable pub burn : S.Int → Action (Session S) S.TxResponse
  burn amount s = execute_made S D t.contract ctx (burn_msg S t s.account amount) s

  unfoldable pub burn_from : Bytes → S.Int → Action (Session S) S.TxResponse
  burn_from owner amount s =
      execute_made S D t.contract ctx (burn_from_msg S t s.account owner amount) s

  unfoldable pub send : Bytes → S.Int → Value → Action (Session S) S.TxResponse
  send contract amount hook s =
      execute_made S D t.contract ctx (send_msg S t s.account contract amount hook) s

  unfoldable pub send_from : Bytes → Bytes → S.Int → Value → Action (Session S) S.TxResponse
  send_from owner contract amount hook s =
      execute_made S D t.contract ctx (send_from_msg S t s.account owner contract amount hook) s

  unfoldable pub mint : Bytes → S.Int → Action (Session S) S.TxResponse
  mint recipient amount s =
      execute_made S D t.contract ctx (mint_msg S t s.account recipient amount) s

  unfoldable pub increase_allowance : Bytes → S.Int → Value → Action (Session S) S.TxResponse
  increase_allowance spender amount expires s =
      execute_made S D t.contract ctx (increase_allowance_msg S t s.account spender amount expires)
        s

  unfoldable pub decrease_allowance : Bytes → S.Int → Value → Action (Session S) S.TxResponse
  decrease_allowance spender amount expires s =
      execute_made S D t.contract ctx (decrease_allowance_msg S t s.account spender amount expires)
        s
