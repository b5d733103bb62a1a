-- ===== src/Metrics/Config.antt =====
-- `MetricsConfigType`, `MetricsConfigUtil` and the making of a `StatsDPublisher`
-- (buildbox-common/buildboxcommonmetrics: metricsconfigtype.cpp, metricsconfigutil.cpp,
-- statsdpublisher.h). An exception is a constructor of `Parsed` (Numbers).
pub mod Port
use buildbox_common.Prelude.{
  ℕ, suc, ◌+◌, ◌-◌, ◌*◌, ◌%◌, ◌^◌, Bool, true, false, ◌&&◌, ◌||◌, List, [], ◌∷◌, Option, none, some,
  ◌==◌, leb, ltb, if◌then◌else◌, Text, text_eq, codes, length, starts_with, drop,
}
use buildbox_common.Prelude.Int.{ℤ, pos, negsuc}
use buildbox_common.Numbers.{
  Parsed, parsed, runtime_error, invalid_argument, out_of_range, range_error, stoul, stoi,
}

pub record MetricsConfig : Type 0 where
  pub file : Text
  pub udp_server : Text
  pub enable : Bool
  pub publish_interval : ℕ

-- The constructor without arguments.
abbrev pub default_config : MetricsConfig
default_config = record { file = []; udp_server = []; enable = false; publish_interval = 15 }

-- `isMetricsOption`
abbrev pub is_metrics_option : Text → Bool
is_metrics_option option = starts_with (codes "metrics-") option

-- `value.find("://")`: the texts before and after it.
unfoldable pub cut_scheme : Text → Option (Text × Text)
cut_scheme [] = none
cut_scheme (c ∷ rest) =
    let more = cut_scheme rest in
    if starts_with (codes "://") (c ∷ rest)
    then some ([], drop 3 (c ∷ rest))
    else elim more [ none ↦ none | some (before, after) ↦ some (c ∷ before, after) ]

-- The conversion of an `int` to a `size_t`.
abbrev pub size_of_int : ℤ → ℕ
size_of_int (pos n) = n
size_of_int (negsuc n) = 2 ^ 64 - (n + 1)

abbrev pub set_interval : MetricsConfig → Parsed ℤ → Parsed MetricsConfig
set_interval config (parsed value) = parsed (record config { publish_interval = size_of_int value })
set_interval config runtime_error = runtime_error
set_interval config invalid_argument = invalid_argument
set_interval config out_of_range = out_of_range
set_interval config range_error = range_error

-- The output that a type names.
abbrev pub set_output : MetricsConfig → Text → Text → Parsed MetricsConfig
set_output config type result =
    if text_eq result []
    then runtime_error
    else if text_eq type (codes "udp")
    then parsed (record config { enable = true; udp_server = result })
    else if text_eq type (codes "file")
    then parsed (record config { enable = true; file = result })
    else runtime_error

-- `metricsParser`
unfoldable pub metrics_parser : Text → Text → MetricsConfig → Parsed MetricsConfig
unfolding cut_scheme stoi text_eq
metrics_parser argument_name value config =
    if text_eq argument_name (codes "metrics-mode")
    then if text_eq value (codes "stderr") || text_eq value (codes "stderr://")
      then parsed (record config { enable = true })
      else elim (cut_scheme value) [
        | none ↦ runtime_error
        | some (type, result) ↦ set_output config type result
      ]
    else if text_eq argument_name (codes "metrics-publish-interval")
    then set_interval config (stoi value)
    else runtime_error

-- `find_last_of(":")`: the texts before and after it.
unfoldable pub cut_last_colon : Text → Option (Text × Text)
cut_last_colon [] = none
cut_last_colon (c ∷ rest) =
    let more = cut_last_colon rest in
    elim more [
      | some (before, after) ↦ some (c ∷ before, after)
      | none ↦ if c == b':' then some ([], rest) else none
    ]

-- What is made of the number: it is cut to 32 bits, and must then fit in 16.
abbrev pub check_port : Text → Parsed ℕ → Parsed (Text × ℕ)
check_port server (parsed n) =
    if ltb 65535 (n % 2 ^ 32) then range_error else parsed (server, n % 2 ^ 32)
check_port server runtime_error = runtime_error
check_port server invalid_argument = invalid_argument
check_port server out_of_range = out_of_range
check_port server range_error = range_error

-- What follows the search of `parseHostPortString`. `split_at + 2 < size()` says that two bytes at
-- least follow the colon.
abbrev pub after_search : Text → Option (Text × Text) → Parsed (Text × ℕ)
after_search input none = parsed (input, 8125)
after_search input (some (server, port)) =
    if ltb 1 (length port) then check_port server (stoul port) else parsed (server, 8125)

-- `parseHostPortString`: the server and the port.
unfoldable pub parse_host_port : Text → Parsed (Text × ℕ)
unfolding cut_last_colon stoul
parse_host_port input = after_search input (cut_last_colon input)

-- `StatsDPublisherOptions::PublishMethod`
pub data PublishMethod : Type 0 where
  std_err : PublishMethod
  to_file : PublishMethod
  udp : PublishMethod

pub record StatsDPublisher : Type 0 where
  pub publish_method : PublishMethod
  pub publish_path : Text
  pub publish_port : ℕ

-- The constructor.
abbrev pub make_publisher : PublishMethod → Text → ℕ → Parsed StatsDPublisher
make_publisher std_err path port =
    parsed (record { publish_method = std_err; publish_path = path; publish_port = port })
make_publisher to_file path port =
    if text_eq path []
    then runtime_error
    else parsed (record { publish_method = to_file; publish_path = path; publish_port = port })
make_publisher udp path port =
    if text_eq path [] || port == 0
    then runtime_error
    else parsed (record { publish_method = udp; publish_path = path; publish_port = port })

abbrev pub make_udp : Parsed (Text × ℕ) → Parsed StatsDPublisher
make_udp (parsed (path, port)) = make_publisher udp path port
make_udp runtime_error = runtime_error
make_udp invalid_argument = invalid_argument
make_udp out_of_range = out_of_range
make_udp range_error = range_error

-- `fromConfig`
unfoldable pub from_config : MetricsConfig → Parsed StatsDPublisher
unfolding parse_host_port text_eq
from_config config =
    if text_eq config.udp_server []
    then if text_eq config.file []
      then make_publisher std_err [] 0
      else make_publisher to_file config.file 0
    else make_udp (parse_host_port config.udp_server)
