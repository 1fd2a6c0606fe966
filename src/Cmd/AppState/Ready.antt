-- ===== src/Cmd/AppState/Ready.antt =====
-- What a command of cmd/ finds after InitAppState.
use noble_cctp_relayer.Base.{
  Text, Option, some, none, ok, wrap, ◌≡◌, ◌↔◌, inl, inr, Option-cases, refl, ok-injective, bind_ok,
  wrap_ok, subst, sym, ap, ◌∙◌, some-injective,
}
use noble_cctp_relayer.Config.{Config}
use noble_cctp_relayer.Cmd.Validation.{Yaml, ConfigWrapper, validate_config}
use noble_cctp_relayer.Cmd.Validation.Accepted.{IsAccepted, validate_config-IsAccepted}
use noble_cctp_relayer.Cmd.AppState.{
  AppState, with_logger, invalid_config, init_logger, parse_file, with_config, load_config_file,
  init_app_state,
}

module _ {C Y : Type 0} (yaml : Yaml Y) (read : Text → Option (ConfigWrapper C Y)) where
  with_config_iff :
      (a a' : AppState C) (r : Option (Config C))
      → (with_config yaml read a r ≡ ok a')
        ↔ ((c : Config C) × (r ≡ some c) × IsAccepted c × (a' ≡ record a { config = some c }))
  with_config_iff a a' none = (λ e. absurd (cc), λ (c, e, accepted, same). absurd (cc))
  with_config_iff a a' (some k) = (
    λ h.
        let (valid, checked, same) = bind_ok (wrap invalid_config (validate_config k)) _ a' h in
        let accepted =
          (validate_config-IsAccepted k).0
            (wrap_ok invalid_config (validate_config k) valid checked) in
        (k, refl, accepted, sym (ok-injective same)),
    λ (c, e, accepted, same).
        let valid =
          (validate_config-IsAccepted k).1 (subst IsAccepted (sym (some-injective e)) accepted) in
        rw valid (
          ap ok
            (ap (λ (x : Config C). record a { config = some x }) (some-injective e) ∙ sym same)),
  )

  -- Without a configuration InitAppState goes on, without an exit, exactly if the file can be read
  -- and parsed and its configuration is acceptable, and the state is then the one before with that
  -- configuration, and with a logger if it had none.
  pub init_app_state_iff :
      (a a' : AppState C)
      → a.config ≡ none
      → (init_app_state yaml read a ≡ ok a') ↔ (
          (c : Config C) × (parse_file yaml read (read a.config_path) ≡ some c)
          × IsAccepted c
          × (a' ≡ record (with_logger a a.logger) { config = some c }))
  unfolding init_app_state load_config_file init_logger
  init_app_state_iff a a' empty = elim (Option-cases a.logger) [
    | inl unlogged ↦
        rw (unlogged, empty)
          (with_config_iff (record (init_logger a) { config = none }) a'
            (parse_file yaml read (read a.config_path)))
    | inr (l, logged) ↦
        rw (logged, empty)
          (with_config_iff (record a { config = none; logger = some l }) a'
            (parse_file yaml read (read a.config_path)))
  ]
