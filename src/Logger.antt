-- ===== src/Logger.antt =====
-- pkg/logger/logger.go. `sprintf` lays the arguments of a call into its format. A call of `log` is one
-- step; the code reads the level before it takes the lock.
use Prim.Native.String.{◌++◌ as joined}
use mcp_moqt_transport.Base.{ℕ, List, [], ◌∷◌, String, if◌then◌else◌, ◌==◌}
use mcp_moqt_transport.Base.Word.{lt_64}

-- A Go `int`, by its bit pattern.
abbrev pub Level : Type 0
Level = ℕ

abbrev pub debug_level : Level
debug_level = 0

abbrev pub info_level : Level
info_level = 1

abbrev pub warn_level : Level
warn_level = 2

abbrev pub error_level : Level
error_level = 3

-- `lines` are those written to the output, newest first, without the time stamps of package log.
pub record Logger : Type 0 where
  pub level : Level
  pub lines : List String

unfoldable pub new : Level → Logger
new level = record { level = level; lines = [] }

abbrev pub prefix_of : Level → String
prefix_of level =
    if level == debug_level
    then "[DEBUG]"
    else if level == info_level
    then "[INFO]"
    else if level == warn_level
    then "[WARN]"
    else if level == error_level
    then "[ERROR]"
    else ""

module _ (sprintf : String → String) where
  unfoldable pub log : Level → String → Logger → Logger
  log level format l =
      if lt_64 level l.level
      then l
      else record l { lines = sprintf (joined (joined (prefix_of level) " ") format) ∷ l.lines }

  unfoldable pub debug : String → Logger → Logger
  unfolding log
  debug format l = log debug_level format l

  unfoldable pub info : String → Logger → Logger
  unfolding log
  info format l = log info_level format l

  unfoldable pub warn : String → Logger → Logger
  unfolding log
  warn format l = log warn_level format l

  unfoldable pub error : String → Logger → Logger
  unfolding log
  error format l = log error_level format l

unfoldable pub set_level : Level → Logger → Logger
set_level level l = record l { level = level }

-- The package's logger, after `init`.
unfoldable pub default_logger : Logger
unfolding new
default_logger = new info_level
