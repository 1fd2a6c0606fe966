-- ===== src/Cmd/AppState.antt =====
-- AppState of cmd/appstate.go: the logger and the configuration with which a command starts. Reading
-- the file and the YAML library are parameters.
pub mod Ready
use noble_cctp_relayer.Base.{
  Text, text, text_eq, Bool, true, false, Option, some, none, Result, ok, err, panic, ◌>>=◌, wrap,
  if◌then◌else◌,
}
use noble_cctp_relayer.Config.{Config}
use noble_cctp_relayer.Cmd.Validation.{
  Yaml, ConfigWrapper, ConfigError, parse_config, validate_config,
}

pub data LogLevel : Type 0 where
  debug_level info_level warn_level error_level : LogLevel

-- A logger is its level.
pub record AppState (C : Type 0) : Type 0 where
  pub config : Option (Config C)
  pub config_path : Text
  pub debug : Bool
  pub log_level : Text
  pub logger : Option LogLevel

-- os.Exit(1), after the line that is logged.
pub data Exit : Type 0 where
  unparsed_config : Exit
  invalid_config : ConfigError → Exit

abbrev pub level_of : Text → LogLevel
level_of level =
    if text_eq level (text "debug")
    then debug_level
    else if text_eq level (text "warn")
    then warn_level
    else if text_eq level (text "error")
    then error_level
    else info_level

unfoldable pub init_logger : {C : Type 0} → AppState C → AppState C
init_logger a = record a { logger = some (if a.debug then debug_level else level_of a.log_level) }

abbrev pub with_logger : {C : Type 0} → AppState C → Option LogLevel → AppState C
with_logger a none = init_logger a
with_logger a (some l) = a

module _ {C Y : Type 0} (yaml : Yaml Y) (read : Text → Option (ConfigWrapper C Y)) where
  abbrev pub parse_file : Option (ConfigWrapper C Y) → Option (Config C)
  parse_file none = none
  parse_file (some cfg) = parse_config yaml cfg

  abbrev pub with_config : AppState C → Option (Config C) → Result Exit (AppState C)
  with_config a none = err unparsed_config
  with_config a (some c) =
      wrap invalid_config (validate_config c) >>= λ valid. ok (record a { config = some c })

  unfoldable pub load_config_file : AppState C → Result Exit (AppState C)
  load_config_file a =
      with_config (with_logger a a.logger) (parse_file (read (with_logger a a.logger).config_path))

  abbrev pub load_unless : AppState C → Option (Config C) → Result Exit (AppState C)
  load_unless a none = load_config_file a
  load_unless a (some c) = ok a

  unfoldable pub init_app_state : AppState C → Result Exit (AppState C)
  init_app_state a = let logged = with_logger a a.logger in load_unless logged logged.config
