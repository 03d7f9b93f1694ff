-- ===== src/Tests.antt =====
-- The theorems at concrete inputs: a node with scripted replies, and a key and an account over it.
mod Node
mod Replies
mod Numbers
mod Clients
mod Transactions
mod Keys
mod Accounts
mod Contracts
mod EndToEnd
mod Goroutines
mod Tokens
mod Markets
mod Codecs
mod Setups
mod Interfaces
mod Queries
mod Openings
