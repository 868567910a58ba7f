-- ===== src/Log.antt =====
-- utils/log.hpp: the log entries for DPDK. The values RTE_LOG_*, `rte_log_can_log` and
-- `std::vformat_to` are parameters. What is written is the list of the calls of `fwrite`, as the
-- file does not look at its result.
pub mod Lines
mod Tests
use fb_utils.Prelude.{ℕ, Bool, List, [], ◌∷◌, ◌++◌, if◌then◌else◌, Str, codes}

pub data LogLevel : Type 0 where
  emergancy : LogLevel
  alert : LogLevel
  critical : LogLevel
  error : LogLevel
  warning : LogLevel
  notice : LogLevel
  info : LogLevel
  debug : LogLevel

-- What formatting comes to: the text, or an error with what has been appended and what it says.
pub data Formatted : Type 0 where
  formatted : Str → Formatted
  format_error : Str → Str → Formatted

-- The logging of DPDK, and the formatting of a format with its arguments.
pub record Rte (F : Type 0) : Type 0 where
  pub value : LogLevel → ℕ
  pub can_log : ℕ → ℕ → Bool
  pub vformat : F → Formatted

-- The buffer of the thread, and what `fwrite` was called with.
pub record LogState : Type 0 where
  pub buffer : Str
  pub calls : List Str

-- The text of the exception takes the place of what has been appended.
abbrev pub fill : Str → Formatted → Str
fill buffer (formatted text) = (buffer ++ text) ++ b'\n' ∷ []
fill buffer (format_error text what) = codes "unable format log entry : " ++ what

abbrev pub cleared : LogState → LogState
cleared s = record s { buffer = [] }

abbrev pub write_out : LogState → LogState
write_out s = record s { calls = s.calls ++ s.buffer ∷ [] }

-- The methods of rte_logger.
pub data Method : Type 0 where
  trace_method : Method
  debug_method : Method
  info_method : Method
  warn_method : Method
  error_method : Method
  critical_method : Method
  alert_method : Method
  emergency_method : Method

abbrev pub level_of : Method → LogLevel
level_of trace_method = debug
level_of debug_method = debug
level_of info_method = info
level_of warn_method = warning
level_of error_method = error
level_of critical_method = critical
level_of alert_method = alert
level_of emergency_method = emergancy

module _ {F : Type 0} (rte : Rte F) where
  unfoldable pub log : ℕ → LogLevel → F → LogState → LogState
  log logtype level fmt s =
      if rte.can_log logtype (rte.value level)
      then write_out (record (cleared s) { buffer = fill (cleared s).buffer (rte.vformat fmt) })
      else s

  -- A method of the logger for a type.
  unfoldable pub call : ℕ → Method → F → LogState → LogState
  unfolding log
  call logtype method fmt s = log logtype (level_of method) fmt s

  -- Calls one after the other, each of a logger.
  unfoldable pub run : List (ℕ × Method × F) → LogState → LogState
  unfolding call
  run [] s = s
  run ((logtype, method, fmt) ∷ calls) s = run calls (call logtype method fmt s)
