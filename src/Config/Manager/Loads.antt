-- ===== src/Config/Manager/Loads.antt =====
-- What a sequence of loads and reloads leaves in the configuration manager.
use apigateway_distributed_s.Base.{
  ◌≡◌, refl, ◌∙◌, subst, ◌⊎◌, inl, inr, Option, none, some, String, List, [], ◌∷◌, arith,
  Bool-cases, Option-cases, if◌then◌else◌,
}
use apigateway_distributed_s.Config.Types.{Config}
use apigateway_distributed_s.Config.Validate.{
  IsUsable, validate_config, validate_config-eq-none_iff,
}
use apigateway_distributed_s.Config.Manager.{
  Viper, Manager, LoadError, new_manager, install, decode, set_defaults, load, get, reload,
}

module _ {V F : Type 0} (vp : Viper V F) where
  -- Either the call fails and leaves the configuration, or it stores a usable one.
  abbrev pub Outcome : Manager V → Manager V × Option LoadError → Type 0
  Outcome m r =
      ((e : LoadError) × (r.1 ≡ some e) × (r.0.config ≡ m.config))
      ⊎ ((c : Config) × (r.1 ≡ none) × (r.0.config ≡ some c) × IsUsable c)

  install-Outcome : (m : Manager V) (v : V) (c : Config) → Outcome m (install vp m v c)
  unfolding install
  install-Outcome m v c = elim (Option-cases (validate_config c)) [
    | inl ok ↦ rw (ok, install) (inr (c, refl, refl, (validate_config-eq-none_iff c).0 ok))
    | inr (e, bad) ↦ rw (bad, install) (inl (_, refl, refl))
  ]

  decode-Outcome : (m : Manager V) (v : V) (c : Option Config) → Outcome m (decode vp m v c)
  unfolding decode
  decode-Outcome m v none = inl (_, refl, refl)
  decode-Outcome m v (some c) = install-Outcome m v c

  load_lem :
      (f : F) (m : Manager V) (path : String)
      → let set = vp.set_config_file path (set_defaults vp m.viper) in
        let r = vp.read_in_config f (vp.automatic_env (vp.set_config_type "yaml" set)) in
        load vp f m path ≡ (
          if r.1
          then decode vp m r.0 (vp.unmarshal f r.0)
          else (record m { viper = r.0 }, some LoadError.read_failed))
  unfolding load
  load_lem f m path = refl

  -- A load either fails, with an error and the configuration as it was, or stores a configuration
  -- that is usable: an unusable file never replaces what the gateway runs on.
  pub load-Outcome : (f : F) (m : Manager V) (path : String) → Outcome m (load vp f m path)
  load-Outcome f m path =
      let set = vp.set_config_file path (set_defaults vp m.viper) in
      let r = vp.read_in_config f (vp.automatic_env (vp.set_config_type "yaml" set)) in
      rw (load_lem f m path) (elim (Bool-cases r.1) [
        | inl read ↦ rw read (decode-Outcome m r.0 (vp.unmarshal f r.0))
        | inr failed ↦ rw failed (inl (_, refl, refl))
      ])

  reload_lem : (f : F) (m : Manager V) → reload vp f m ≡ load vp f m (vp.config_file_used m.viper)
  unfolding reload
  reload_lem f m = refl

  abbrev pub HoldsUsable : Manager V → Type 0
  HoldsUsable m = (c : Config) → get vp m ≡ some c → IsUsable c

  -- The reloads of a running gateway, each with the files as they are then.
  unfoldable pub reloads : List F → Manager V → Manager V
  reloads [] m = m
  reloads (f ∷ fs) m = reloads fs (reload vp f m).0

  get_lem : (m : Manager V) → get vp m ≡ m.config
  unfolding get
  get_lem m = refl

  Outcome-HoldsUsable :
      (m : Manager V) (r : Manager V × Option LoadError)
      → Outcome m r
      → HoldsUsable m
      → HoldsUsable r.0
  Outcome-HoldsUsable m r o h c e = elim o [
    | inl (_, _, same) ↦ h c (ground (arith, get_lem m, get_lem r.0))
    | inr (d, _, stored, usable) ↦
        let eq : d ≡ c = ground (arith, get_lem r.0) in subst IsUsable eq usable
  ]

  reloads-HoldsUsable : (fs : List F) (m : Manager V) → HoldsUsable m → HoldsUsable (reloads fs m)
  unfolding reloads
  reloads-HoldsUsable [] m h = h
  reloads-HoldsUsable (f ∷ fs) m h = reloads-HoldsUsable fs (reload vp f m).0 (
      rw (reload_lem f m)
        (Outcome-HoldsUsable m _ (load-Outcome f m (vp.config_file_used m.viper)) h))

  new_empty : (new_manager vp).config ≡ none
  unfolding new_manager
  new_empty = refl

  -- After a first load and any number of reloads, whatever the files hold and whichever of them
  -- fail, a configuration that the manager hands out is usable.
  pub get-reloads-IsUsable :
      (f : F) (path : String) (fs : List F) (c : Config)
      → get vp (reloads fs (load vp f (new_manager vp) path).0) ≡ some c
      → IsUsable c
  get-reloads-IsUsable f path fs c =
      reloads-HoldsUsable fs _
        (Outcome-HoldsUsable (new_manager vp) _ (load-Outcome f (new_manager vp) path)
          (λ d e. absurd (ground (arith, get_lem (new_manager vp), new_empty))))
        c

  install-viper : (m : Manager V) (v : V) (c : Config) → (install vp m v c).0.viper ≡ v
  unfolding install
  install-viper m v c = elim (Option-cases (validate_config c)) [
    | inl ok ↦ rw (ok, install) refl
    | inr (e, bad) ↦ rw (bad, install) refl
  ]

  decode-viper : (m : Manager V) (v : V) (c : Option Config) → (decode vp m v c).0.viper ≡ v
  unfolding decode
  decode-viper m v none = refl
  decode-viper m v (some c) = install-viper m v c

  -- A load reads the file it is given, and a reload after it reads the same file again.
  pub config_file_used-load :
      (f : F) (m : Manager V) (path : String)
      → vp.config_file_used (load vp f m path).0.viper ≡ path
  config_file_used-load f m path =
      let set = vp.set_config_file path (set_defaults vp m.viper) in
      let r = vp.read_in_config f (vp.automatic_env (vp.set_config_type "yaml" set)) in
      let used : vp.config_file_used r.0 ≡ path =
        vp.used-read_in_config f _
        ∙ vp.used-automatic_env _
        ∙ vp.used-set_config_type "yaml" set
        ∙ vp.used-set_config_file path (set_defaults vp m.viper) in
      rw (load_lem f m path) (elim (Bool-cases r.1) [
        | inl read ↦ rw (read, decode-viper m r.0 (vp.unmarshal f r.0)) used
        | inr failed ↦ rw failed used
      ])
