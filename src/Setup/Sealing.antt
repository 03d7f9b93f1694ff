-- ===== src/Setup/Sealing.antt =====
-- The configuration after init.go.
use terra_go.Base.{◌≡◌, refl, ap, ◌∙◌, true, false, ok, Action, is_ok, arith, ◌>>◌}
use terra_go.Setup.{Settings, ConfigSdk, ConfigLaws, init_config}

module _ (K : ConfigSdk) (L : ConfigLaws K) where
  -- terra's settings, sealed.
  abbrev pub terra_settings : Settings
  terra_settings = record {
    account = (K.bech32_prefix_acc_addr, K.bech32_prefix_acc_pub);
    validator = (K.bech32_prefix_val_addr, K.bech32_prefix_val_pub);
    consensus_node = (K.bech32_prefix_cons_addr, K.bech32_prefix_cons_pub);
    coin_type = K.coin_type;
    full_fundraiser_path = K.full_fundraiser_path;
    sealed = true;
  }

  -- A call that succeeds on an open configuration and changes its settings by a function.
  Sets : Action K.Config (Unit {0}) → (Settings → Settings) → Type 0
  Sets m f =
      (c : K.Config)
      → (L.settings c).sealed ≡ false
      → ((m c).0 ≡ ok tt) × (L.settings (m c).1 ≡ f (L.settings c))

  Sets-put :
      (m : Action K.Config (Unit {0})) (f : Settings → Settings)
      → ((c : K.Config) → (L.settings c).sealed ≡ false → m c ≡ (ok tt, L.put (f (L.settings c)) c))
      → Sets m f
  unfolding Sets
  Sets-put m f e c h = ground (arith, e c h, L.settings-put (f (L.settings c)) c)

  Sets-then :
      (m k : Action K.Config (Unit {0})) (f g : Settings → Settings)
      → ((s : Settings) → (f s).sealed ≡ s.sealed)
      → Sets m f
      → Sets k g
      → Sets (m >> k) (λ s. g (f s))
  unfolding Sets
  Sets-then m k f g keeps p q c h =
      let (done, left) = p c h in
      ground (arith, q (m c).1 (ap (λ (s : Settings). s.sealed) left ∙ keeps (L.settings c) ∙ h))

  init_config-Sets : Sets (init_config K) (λ s. terra_settings)
  unfolding init_config
  init_config-Sets =
      Sets-then _ _ _ _ (λ s. refl)
        (Sets-put _
          (λ s. record s { account = (K.bech32_prefix_acc_addr, K.bech32_prefix_acc_pub) })
          (L.set_account-open K.bech32_prefix_acc_addr K.bech32_prefix_acc_pub))
        (Sets-then _ _ _ _ (λ s. refl)
          (Sets-put _
            (λ s. record s { validator = (K.bech32_prefix_val_addr, K.bech32_prefix_val_pub) })
            (L.set_validator-open K.bech32_prefix_val_addr K.bech32_prefix_val_pub))
          (Sets-then _ _ _ _ (λ s. refl)
            (Sets-put _
              (λ s. record s {
                consensus_node = (K.bech32_prefix_cons_addr, K.bech32_prefix_cons_pub);
              })
              (L.set_consensus_node-open K.bech32_prefix_cons_addr K.bech32_prefix_cons_pub))
            (Sets-then _ _ _ _ (λ s. refl)
              (Sets-put _ (λ s. record s { coin_type = K.coin_type })
                (L.set_coin_type-open K.coin_type))
              (Sets-then _ _ _ _ (λ s. refl)
                (Sets-put _ (λ s. record s { full_fundraiser_path = K.full_fundraiser_path })
                  (L.set_full_fundraiser_path-open K.full_fundraiser_path))
                (Sets-put K.seal (λ s. record s { sealed = true }) (λ c h. L.seal-eq c))))))

  init_config-sealed :
      (c : K.Config) → (L.settings c).sealed ≡ true → is_ok (init_config K c).0 ≡ false
  unfolding init_config
  init_config-sealed c h =
      ground (arith, L.set_account-sealed K.bech32_prefix_acc_addr K.bech32_prefix_acc_pub c h)

  -- Loading the package on an open configuration returns and leaves terra's address prefixes, coin type
  -- and path in it, whatever they were before. The configuration is sealed then: loading the package
  -- once more panics.
  pub init_config-settings :
      (c : K.Config)
      → (L.settings c).sealed ≡ false
      → ((init_config K c).0 ≡ ok tt)
        × (L.settings (init_config K c).1 ≡ terra_settings)
        × (is_ok (init_config K (init_config K c).1).0 ≡ false)
  unfolding Sets
  init_config-settings c h =
      let (done, left) = init_config-Sets c h in
      (done, left, init_config-sealed (init_config K c).1 (ap (λ (s : Settings). s.sealed) left))
