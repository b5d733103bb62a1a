-- ===== src/Logging.antt =====
-- `Logger` and the table of the log levels (buildbox-common/buildboxcommon/buildboxcommon_logging.h and
-- .cpp). The flags of glog that it sets are members here; a call on glog keeps its last argument.
use buildbox_common.Prelude.{
  ℕ, Bool, true, false, [], ◌∷◌, ◌||◌, Option, none, some, if◌then◌else◌, Text, text_eq, codes,
}

pub data LogLevel : Type 0 where
  trace debug info warning error : LogLevel

-- `stringToLogLevelMap().find(level)`
unfoldable pub string_to_log_level : Text → Option LogLevel
string_to_log_level level =
    if text_eq level (codes "trace")
    then some trace
    else if text_eq level (codes "debug")
    then some debug
    else if text_eq level (codes "info")
    then some info
    else if text_eq level (codes "warning")
    then some warning
    else if text_eq level (codes "error")
    then some error
    else none

-- `logLevelToStringMap()`
unfoldable pub log_level_to_string : LogLevel → Text
log_level_to_string trace = codes "trace"
log_level_to_string debug = codes "debug"
log_level_to_string info = codes "info"
log_level_to_string warning = codes "warning"
log_level_to_string error = codes "error"

pub record Logger : Type 0 where
  pub d_log_output_directory : Option Text
  pub d_glog_initialized : Bool
  pub flags_log_dir : Option Text
  pub flags_logtostderr : Bool
  pub flags_alsologtostderr : Bool
  pub flags_stderrthreshold : ℕ
  -- What `SetVLOGLevel("*", …)` was given.
  pub vlog_level : Option ℕ

-- `setOutputDirectory`; `none` is the exception.
unfoldable pub set_output_directory : Logger → Text → Option Logger
set_output_directory l dir =
    if l.d_glog_initialized then none else some (record l { d_log_output_directory = some dir })

-- `initialize`, which starts glog.
abbrev pub start_glog : Logger → Logger
start_glog l = elim l.d_log_output_directory [
  | some dir ↦ record l {
    flags_log_dir = some dir;
    flags_logtostderr = false;
    flags_alsologtostderr = false;
    d_glog_initialized = true;
  }
  | none ↦ record l { flags_logtostderr = true; d_glog_initialized = true }
]

unfoldable pub initialize : Logger → Text → Option Logger
initialize l [] = none
initialize l (c ∷ name) = if l.d_glog_initialized then none else some (start_glog l)

-- The severities of glog.
abbrev pub glog_severity : LogLevel → ℕ
glog_severity warning = 1
glog_severity error = 2
glog_severity _ = 0

abbrev pub verbose_level : LogLevel → Option ℕ → Option ℕ
verbose_level debug old = some 1
verbose_level trace old = some 2
verbose_level _ old = old

-- `setLogLevel`
unfoldable pub set_log_level : Logger → LogLevel → Logger
set_log_level l level =
    if l.flags_logtostderr || l.flags_alsologtostderr
    then record l {
      flags_stderrthreshold = glog_severity level;
      vlog_level = verbose_level level l.vlog_level;
    }
    else l

-- `disableStderr`
unfoldable pub disable_stderr : Logger → Logger
disable_stderr l = record l {
  flags_logtostderr = false;
  flags_alsologtostderr = false;
  flags_stderrthreshold = 3;
}
