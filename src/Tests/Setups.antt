-- ===== src/Tests/Setups.antt =====
-- init.go over a configuration that is its settings.
use terra_go.Base.{◌≡◌, refl, arith, true, false, ok, panic, Action, is_ok, if◌then◌else◌}
use terra_go.Setup.{Settings, ConfigSdk, ConfigLaws, init_config}
use terra_go.Setup.Sealing.{terra_settings, init_config-settings}

abbrev if_open : (Settings → Settings) → Action Settings (Unit {0})
if_open f s = if s.sealed then (panic "Config is sealed", s) else (ok tt, f s)

abbrev test_config : ConfigSdk
test_config = record {
  Config = Settings;
  set_bech32_prefix_for_account = λ a p. if_open (λ s. record s { account = (a, p) });
  set_bech32_prefix_for_validator = λ a p. if_open (λ s. record s { validator = (a, p) });
  set_bech32_prefix_for_consensus_node = λ a p. if_open (λ s. record s { consensus_node = (a, p) });
  set_coin_type = λ n. if_open (λ s. record s { coin_type = n });
  set_full_fundraiser_path = λ path. if_open (λ s. record s { full_fundraiser_path = path });
  seal = λ s. (ok tt, record s { sealed = true });
  bech32_prefix_acc_addr = "terra";
  bech32_prefix_acc_pub = "terrapub";
  bech32_prefix_val_addr = "terravaloper";
  bech32_prefix_val_pub = "terravaloperpub";
  bech32_prefix_cons_addr = "terravalcons";
  bech32_prefix_cons_pub = "terravalconspub";
  coin_type = 330;
  full_fundraiser_path = "44'/330'/0'/0/0";
}

test_ConfigLaws : ConfigLaws test_config
test_ConfigLaws = record {
  settings = λ c. c;
  put = λ s c. s;
  settings-put = λ s c. refl;
  set_account-open = λ a p c h. ground arith;
  set_account-sealed = λ a p c h. ground arith;
  set_validator-open = λ a p c h. ground arith;
  set_consensus_node-open = λ a p c h. ground arith;
  set_coin_type-open = λ n c h. ground arith;
  set_full_fundraiser_path-open = λ path c h. ground arith;
  seal-eq = λ c. refl;
}

-- cosmos-sdk's own settings.
abbrev default_settings : Settings
default_settings = record {
  account = ("cosmos", "cosmospub");
  validator = ("cosmosvaloper", "cosmosvaloperpub");
  consensus_node = ("cosmosvalcons", "cosmosvalconspub");
  coin_type = 118;
  full_fundraiser_path = "44'/118'/0'/0/0";
  sealed = false;
}

init_config-settings_example :
    ((init_config test_config default_settings).0 ≡ ok tt)
    × ((init_config test_config default_settings).1 ≡ terra_settings test_config test_ConfigLaws)
    × (is_ok (init_config test_config (init_config test_config default_settings).1).0 ≡ false)
unfolding test_ConfigLaws
init_config-settings_example =
    init_config-settings test_config test_ConfigLaws default_settings refl
