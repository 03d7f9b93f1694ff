-- ===== src/Service/Tendermint.antt =====
-- service/tendermint.go
use Prim.Native.String.{String}
use terra_go.Base.{ℕ, Option, none, some, Action, pure, wrapped, ◌>>=◌}
use terra_go.Base.Text.{◌<>◌, show_ℕ}
use terra_go.Http.{Context}
use terra_go.Sdk.{Sdk}
use terra_go.World.{World}
use terra_go.HttpClient.{Client, request_json}
use terra_go.Service.Bodies.{Targets, get_payload}

-- A nil height is the latest block's.
abbrev pub block_path : Option ℕ → String
block_path none = "/blocks/latest"
block_path (some height) = "/blocks/" <> show_ℕ height

module _ (S : Sdk) (D : Targets S) (c : Client S) where
  unfoldable pub get_node_info : Option Context → Action (World S) S.NodeInfo
  get_node_info ctx = do
    body ← wrapped "request json" (request_json S c (get_payload ctx "/node_info") D.node_info)
    pure body.node_info

  unfoldable pub get_sync_status : Option Context → Action (World S) S.SyncingResponse
  get_sync_status ctx =
      wrapped "request json" (request_json S c (get_payload ctx "/syncing") D.sync_status)

  unfoldable pub get_block_by_height :
      Option Context → Option ℕ → Action (World S) (S.BlockId × S.Block)
  get_block_by_height ctx height = do
    body ← wrapped "request json" (request_json S c (get_payload ctx (block_path height)) D.block)
    pure (body.block_id, body.block)
