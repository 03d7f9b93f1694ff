-- ===== src/Lib.antt =====
-- terra.go: a client for a Terra node (LCD) in Go, with accounts that sign transactions and bindings
-- for contracts.
--
-- Parts. A key (key.go) signs. An account (account.go) holds a key, a client and what the node told of
-- the account; it makes and signs transactions. A client (client.go) is a bundle of services
-- (service/), each a set of calls of the HTTP client (httpclient/), which joins an endpoint and a
-- payload, logs, and decodes the reply. A contract (bind/) makes messages, has an account sign them,
-- broadcasts them by the transaction service, and queries by the contract service. A cw20 token, the
-- anchor market and the anchor overseer (interface/) are contracts with methods.
--
-- Files.
--   Base: library names, tests, Go results (Outcome) and calls (Action), dictionaries, Go's signed
--     integers, and texts with Go's path.Join; Base/Text/Paths proves what path.Join does.
--   Http: what is used of net/http and net/url. World: the outside and the trace of what was done.
--   Value: types.Q and the values in it, encoding/json's Marshal and fmt's %v (types/types.go).
--   Sdk: the third-party code: its types (Opaque), structs (Structs), operations (Operations), and
--     documented behaviour as hypotheses (Laws); Sdk/Amino: the codec's.
--   Codec: codec.go; make_codec is MakeCodec. Setup: init.go; init_config is init.
--   Types: broadcast modes; Types/Tokens: TokensHuman over parsed JSON values (types/types.go);
--     Types/Messages: the methods of the execution message (types/wasm.go).
--   HttpClient: httpclient/client.go, transport.go, payload.go; new_client is New, request is
--     client.Request, request_json is client.RequestJSON, round_trip is logTransport.RoundTrip.
--   Service/Auth, Bank, Contract, Tendermint, Treasury, Transaction: service/<name>.go and its schema;
--     each function has the name of the method, as get_balance for GetBalance. Service/Bodies: the
--     reply structs and the payload literals.
--   Key: key.go; Key/Hex is encoding/hex's Decode.
--   Client: client.go. Account: account.go; update, create_tx and create_and_sign_tx are the methods of
--     keyedAccount, new_account is NewAccount. Account/Concurrent: goroutines in Update, step by step.
--   Bind: bind/contract.go and bind/utils.go.
--   Cw20, Cw20/Execution, Cw20/Queries: interface/standard/cw20/; transfer_msg is TransferMsg, transfer
--     is Transfer, new_token_contract is NewTokenContract.
--   Market, Market/Queries: interface/anchor/money-market/market/; new_market is NewContract.
--   Overseer, Overseer/Schema: interface/anchor/money-market/overseer/; new_overseer is NewContract.
--   Go's interfaces are records of calls in HttpClient/Interface, Service/Interfaces, Client/Interface,
--     Account/Interface, Bind/Interface, Cw20/Interface, Market/Interface and Overseer/Interface, each
--     with the program's implementation of it.
--   The other children prove theorems: Requests, Sending and Queries on what is sent, Outcomes and
--     Replies on results, Calls on messages behind an interface, Entries on the keys of a message,
--     Bounds and Tax on numbers, Codec/Filling and Codec/Registrations on what a codec knows,
--     Setup/Sealing on the sealed configuration, Account/Opening on a new account, and Serial, Remaining,
--     Finish and Fair of Account/Concurrent on interleavings. Tests has the concrete inputs.
--
-- State. A call is a function from a state to an outcome and the state behind it. An outcome is a
-- value, an error or a panic; the state is kept on all three. The state of a service's call is the
-- World: the network, of any type, and the trace of requests, pauses and log lines, the latest first.
-- That of an account's call is a Session: the account and the world. A nil pointer, map or interface
-- is none, or null where it is a value of a query.
--
-- Bounds. uint64 and int values are numbers without a bound: the program only compares, prints and
-- passes them on. Printing a number n runs on n + 1 steps, which is more than its digits. A raw key has
-- 32 bytes.
--
-- Not modelled. Redirects: http.Client.Do would follow a reply of status 301, 302, 303, 307 or 308 to
-- wherever it points, and here such a reply is decoded like one of status 200. A call of the node that
-- never returns: the program's http.Client has no timeout, and here every request is answered or fails.
-- A URL is kept as its parts, where the program prints and parses it once more. The parser of JSON in
-- front of UnmarshalJSON. Timings; texts of log lines; the panics of third-party numbers on overflow;
-- calls of one account at the same time, other than of Update.
pub mod Base
pub mod Value
pub mod Http
pub mod Sdk
pub mod World
pub mod HttpClient
pub mod Types
pub mod Service
pub mod Key
pub mod Client
pub mod Account
pub mod Bind
pub mod Cw20
pub mod Market
pub mod Overseer
pub mod Codec
pub mod Setup
mod Tests
