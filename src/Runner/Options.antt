-- ===== src/Runner/Options.antt =====
-- `Runner::parseArguments`.
pub mod Stored
pub mod Last
pub mod Verbose
use buildbox_common.Prelude.{
  ℕ, ◌+◌, Bool, true, false, ◌&&◌, List, [], ◌∷◌, map, Option, none, some, if◌then◌else◌, leb, Text,
  text_eq, codes,
}
use buildbox_common.Connection.{strip, cut_assign, parse_arg}
use buildbox_common.Logging.{
  LogLevel, debug, string_to_log_level, set_output_directory, set_log_level,
}
use buildbox_common.Runner.{Runner, Host}

-- `::tolower` on each byte, in the C locale.
abbrev pub to_lower : Text → Text
to_lower = map (λ (c : ℕ). if leb b'A' c && leb c b'Z' then c + 32 else c)

-- `parseArguments` goes on, returns false, or calls `exit(0)`; or an exception
-- leaves it.
pub data ParsedOptions (W : Type 0) : Type 0 where
  parsed_options : Runner → W → ParsedOptions W
  refused : W → ParsedOptions W
  exited : W → ParsedOptions W
  thrown : W → ParsedOptions W

module _ (H : Host) where
  -- `validLogLevels.count(level)`, and what the value of the option does.
  abbrev pub set_level : Runner → H.World → Option LogLevel → ParsedOptions H.World
  set_level r w none = refused w
  set_level r w (some level) = parsed_options (record r { d_log_level = level }) w

  abbrev pub set_directory : Runner → Text → H.World → ParsedOptions H.World
  set_directory r value w = elim (H.is_directory value w) [
    | none ↦ thrown w
    | some false ↦ refused w
    | some true ↦ elim (set_output_directory r.logger value) [
      | none ↦ thrown w
      | some logger ↦ parsed_options (record r { logger = logger }) w
    ]
  ]

  -- The chain of tests on the key of an assignment.
  unfoldable pub set_option : Runner → H.World → Text → Text → ParsedOptions H.World
  set_option r w key value =
      if text_eq key (codes "action")
      then parsed_options (record r { d_input_path = value }) w
      else if text_eq key (codes "action-result")
      then parsed_options (record r { d_output_path = value }) w
      else if text_eq key (codes "workspace-path")
      then parsed_options (record r { d_stage_path = value }) w
      else if text_eq key (codes "log-level")
      then set_level r w (string_to_log_level (to_lower value))
      else if text_eq key (codes "log-file")
      then refused w
      else if text_eq key (codes "log-directory")
      then set_directory r value w
      else if text_eq key (codes "stdout-file")
      then parsed_options
          (record r {
            d_standard_outputs_capture_config = record (r.d_standard_outputs_capture_config) {
              stdout_file_path = value;
            };
          })
          w
      else if text_eq key (codes "stderr-file")
      then parsed_options
          (record r {
            d_standard_outputs_capture_config = record (r.d_standard_outputs_capture_config) {
              stderr_file_path = value;
            };
          })
          w
      else refused w

  -- The chain of tests on an option without a value.
  unfoldable pub set_flag : Runner → H.World → Text → ParsedOptions H.World
  set_flag r w arg =
      if text_eq arg (codes "help")
      then exited w
      else if text_eq arg (codes "use-localcas")
      then parsed_options (record r { d_use_localcas_protocol = true }) w
      else if text_eq arg (codes "disable-localcas")
      then parsed_options (record r { d_use_localcas_protocol = false }) w
      else if text_eq arg (codes "no-logs-capture")
      then parsed_options
          (record r {
            d_standard_outputs_capture_config = record (r.d_standard_outputs_capture_config) {
              skip_capture = true;
            };
          })
          w
      else if text_eq arg (codes "verbose")
      then parsed_options (record r { logger = set_log_level r.logger debug }) w
      else if text_eq arg (codes "capabilities")
      then exited w
      else if text_eq arg (codes "validate-parameters")
      then parsed_options (record r { d_validate_parameters_and_exit = true }) w
      else refused w

  abbrev pub own_named : Runner → H.World → Text → Text × Option Text → ParsedOptions H.World
  own_named r w arg (key, some value) = set_option r w key value
  own_named r w arg (key, none) = set_flag r w arg

  -- An argument that neither the subclass nor `ConnectionOptions` takes, without its dashes if it has
  -- them.
  abbrev pub own_option : Runner → H.World → Option Text → ParsedOptions H.World
  own_option r w none = refused w
  own_option r w (some arg) = own_named r w arg (cut_assign arg)

  -- One round of the loop.
  unfoldable pub parse_option : Runner → H.World → Text → ParsedOptions H.World
  unfolding set_option set_flag
  parse_option r w arg =
      let (taken, w') = H.parse_subclass_arg arg w in
      if taken
      then parsed_options r w'
      else let (known, remote) = parse_arg r.d_cas_remote [] arg in
        let r' : Runner = record r { d_cas_remote = remote } in
        if known then parsed_options r' w' else own_option r' w' (strip (codes "--") arg)

  abbrev pub then_option :
      (Runner → H.World → ParsedOptions H.World) → ParsedOptions H.World → ParsedOptions H.World
  then_option go_on (parsed_options r w) = go_on r w
  then_option go_on (refused w) = refused w
  then_option go_on (exited w) = exited w
  then_option go_on (thrown w) = thrown w

  -- The test after the loop.
  abbrev pub check_url : Runner → H.World → ParsedOptions H.World
  check_url r w = elim r.d_cas_remote.url [ none ↦ refused w | some url ↦ parsed_options r w ]

  -- `parseArguments`, on the arguments after the program'w name.
  unfoldable pub parse_arguments : List Text → Runner → H.World → ParsedOptions H.World
  unfolding parse_option
  parse_arguments [] r w = check_url r w
  parse_arguments (arg ∷ rest) r w = then_option (parse_arguments rest) (parse_option r w arg)
