-- ===== src/Setup.antt =====
-- init.go: the configuration of cosmos-sdk for addresses and keys, set when the package is loaded.
pub mod Sealing
use Prim.Native.String.{String}
use terra_go.Base.{ℕ, ◌≡◌, Bool, true, false, ok, is_ok, Action, ◌>>=◌, ◌>>◌}

-- What the global configuration of cosmos-sdk holds: address and public key prefixes, and the path.
pub record Settings : Type 0 where
  pub account : String × String
  pub validator : String × String
  pub consensus_node : String × String
  pub coin_type : ℕ
  pub full_fundraiser_path : String
  pub sealed : Bool

-- The setters of cosmos-sdk's configuration, and terra's constants.
pub record ConfigSdk : Type 1 where
  pub Config : Type 0
  pub set_bech32_prefix_for_account : String → String → Action Config (Unit {0})
  pub set_bech32_prefix_for_validator : String → String → Action Config (Unit {0})
  pub set_bech32_prefix_for_consensus_node : String → String → Action Config (Unit {0})
  pub set_coin_type : ℕ → Action Config (Unit {0})
  pub set_full_fundraiser_path : String → Action Config (Unit {0})
  pub seal : Action Config (Unit {0})
  pub bech32_prefix_acc_addr : String
  pub bech32_prefix_acc_pub : String
  pub bech32_prefix_val_addr : String
  pub bech32_prefix_val_pub : String
  pub bech32_prefix_cons_addr : String
  pub bech32_prefix_cons_pub : String
  pub coin_type : ℕ
  pub full_fundraiser_path : String

-- A setter changes its own setting of an open configuration, and panics on a sealed one.
pub record ConfigLaws (K : ConfigSdk) : Type 0 where
  pub settings : K.Config → Settings
  pub put : Settings → K.Config → K.Config
  pub settings-put : (s : Settings) (c : K.Config) → settings (put s c) ≡ s
  pub set_account-open :
      (a p : String) (c : K.Config)
      → (settings c).sealed ≡ false
      → K.set_bech32_prefix_for_account a p c
        ≡ (ok tt, put (record (settings c) { account = (a, p) }) c)
  pub set_account-sealed :
      (a p : String) (c : K.Config)
      → (settings c).sealed ≡ true
      → is_ok (K.set_bech32_prefix_for_account a p c).0 ≡ false
  pub set_validator-open :
      (a p : String) (c : K.Config)
      → (settings c).sealed ≡ false
      → K.set_bech32_prefix_for_validator a p c
        ≡ (ok tt, put (record (settings c) { validator = (a, p) }) c)
  pub set_consensus_node-open :
      (a p : String) (c : K.Config)
      → (settings c).sealed ≡ false
      → K.set_bech32_prefix_for_consensus_node a p c
        ≡ (ok tt, put (record (settings c) { consensus_node = (a, p) }) c)
  pub set_coin_type-open :
      (n : ℕ) (c : K.Config)
      → (settings c).sealed ≡ false
      → K.set_coin_type n c ≡ (ok tt, put (record (settings c) { coin_type = n }) c)
  pub set_full_fundraiser_path-open :
      (path : String) (c : K.Config)
      → (settings c).sealed ≡ false
      → K.set_full_fundraiser_path path c
        ≡ (ok tt, put (record (settings c) { full_fundraiser_path = path }) c)
  pub seal-eq : (c : K.Config) → K.seal c ≡ (ok tt, put (record (settings c) { sealed = true }) c)

module _ (K : ConfigSdk) where
  unfoldable pub init_config : Action K.Config (Unit {0})
  init_config = do
    K.set_bech32_prefix_for_account K.bech32_prefix_acc_addr K.bech32_prefix_acc_pub
    K.set_bech32_prefix_for_validator K.bech32_prefix_val_addr K.bech32_prefix_val_pub
    K.set_bech32_prefix_for_consensus_node K.bech32_prefix_cons_addr K.bech32_prefix_cons_pub
    K.set_coin_type K.coin_type
    K.set_full_fundraiser_path K.full_fundraiser_path
    K.seal
