-- ===== src/Client.antt =====
-- client.go: the services of one node behind one client.
pub mod Interface
use terra_go.Sdk.{Sdk}
use terra_go.HttpClient.{Client}

-- Each service is the HTTP client that it was made from.
pub record TerraClient (S : Sdk) : Type 0 where
  pub auth : Client S
  pub bank : Client S
  pub contract : Client S
  pub treasury : Client S
  pub tendermint : Client S
  pub transaction : Client S

-- `NewClient`
abbrev pub new_terra_client : (S : Sdk) → Client S → TerraClient S
new_terra_client S client = record {
  auth = client;
  bank = client;
  contract = client;
  treasury = client;
  tendermint = client;
  transaction = client;
}
