-- ===== src/Client/Interface.antt =====
-- client.go: the interface Client, and terraClient as its implementation.
use terra_go.Sdk.{Sdk}
use terra_go.Service.Bodies.{Targets}
use terra_go.Service.Interfaces.{
  AuthService, BankService, ContractService, TreasuryService, TendermintService, TransactionService,
  new_auth_service, new_bank_service, new_contract_service, new_treasury_service,
  new_tendermint_service, new_transaction_service,
}
use terra_go.Client.{TerraClient}

pub record ClientInterface (S : Sdk) : Type 1 where
  pub auth : AuthService S
  pub bank : BankService S
  pub contract : ContractService S
  pub treasury : TreasuryService S
  pub tendermint : TendermintService S
  pub transaction : TransactionService S

-- The accessors.
abbrev pub client_interface : (S : Sdk) → Targets S → TerraClient S → ClientInterface S
client_interface S D c = record {
  auth = new_auth_service S D c.auth;
  bank = new_bank_service S D c.bank;
  contract = new_contract_service S D c.contract;
  treasury = new_treasury_service S D c.treasury;
  tendermint = new_tendermint_service S D c.tendermint;
  transaction = new_transaction_service S D c.transaction;
}
