-- ===== src/Runner/Main.antt =====
-- `Runner::main`, and the methods of `Runner` that end the process.
pub mod Recorded
pub mod Completed
use buildbox_common.Prelude.{
  ℕ, Bool, true, false, List, [], ◌∷◌, ◌++◌, Option, none, some, ◌==◌, if◌then◌else◌, Text, codes,
  ◌⊎◌, inl, inr,
}
use buildbox_common.Digest.{Digest, digest_to_string}
use buildbox_common.Connection.{ConnectionOptions}
use buildbox_common.Logging.{Logger, initialize, set_log_level}
use buildbox_common.Retrier.{internal}
use buildbox_common.Runner.{
  Runner, Action, Command, ActionResult, ExecutedActionMetadata, RpcStatus, Answer, answer,
  grpc_failure, failure, Host,
}
use buildbox_common.Runner.Options.{
  ParsedOptions, parsed_options, refused, exited, thrown, parse_arguments,
}

-- The process ends with a code, or by an exception that nothing catches.
pub data Ending (W : Type 0) : Type 0 where
  ends : ℕ → W → Ending W
  terminates : W → Ending W

-- `errorStatusCodeFilePath`
unfoldable pub error_status_code_file_path : Text → Text
error_status_code_file_path [] = []
error_status_code_file_path (c ∷ path) = (c ∷ path) ++ codes ".error-status"

-- SIGINT and SIGTERM.
abbrev pub sigint : ℕ
sigint = 2

abbrev pub sigterm : ℕ
sigterm = 15

abbrev pub action_error : Text → Text → Text
action_error path what = codes "Failed to read Action from [" ++ (path ++ (codes "]: " ++ what))

abbrev pub text_of : Option Text → Text
text_of none = []
text_of (some t) = t

abbrev pub command_error : Digest → Option Text → Text → Text
command_error digest url what =
    codes "Error fetching Command with digest \""
    ++ (digest_to_string digest ++ (codes "\" from \"" ++ (text_of url ++ (codes "\": " ++ what))))

-- The timestamps that `main` sets.
abbrev pub mark_worker : ℕ → ℕ → ActionResult → ActionResult
mark_worker start completed result = record result {
  execution_metadata = record (result.execution_metadata) {
    worker_start_timestamp = some start;
    worker_completed_timestamp = some completed;
  };
}

module _ (H : Host) where
  -- `writeStatusFile`: a failure is only logged.
  abbrev pub write_status_file : RpcStatus → Text → H.World → H.World
  write_status_file status path w = (H.write_status status path w).1

  -- `writeErrorStatusFile`, with `d_outputPath` for its first argument.
  unfoldable pub write_error_status_file : Text → ℕ → Text → H.World → H.World
  write_error_status_file [] code message w = w
  write_error_status_file (c ∷ path) code message w =
      write_status_file (record { code = code; message = message })
        (error_status_code_file_path (c ∷ path)) w

  abbrev pub after_action :
      Runner → (Action → H.World → Ending H.World) → H.World → Text ⊎ Action → Ending H.World
  after_action r go_on w (inr action) = go_on action w
  after_action r go_on w (inl what) =
      ends 1 (write_error_status_file r.d_output_path internal (action_error r.d_input_path what) w)

  -- `readAction`
  unfoldable pub read_action :
      Runner → (Action → H.World → Ending H.World) → H.World → Ending H.World
  read_action r go_on w = after_action r go_on w (H.read_action_file r.d_input_path w)

  abbrev pub or_exit : (H.World → Ending H.World) → Bool × H.World → Ending H.World
  or_exit go_on (true, w) = go_on w
  or_exit go_on (false, w) = ends 1 w

  -- `registerSignals`
  unfoldable pub register_signals : (H.World → Ending H.World) → H.World → Ending H.World
  register_signals go_on w =
      or_exit (λ w'. or_exit go_on (H.sigaction sigterm w')) (H.sigaction sigint w)

  -- `initializeCasClient`
  unfoldable pub initialize_cas_client :
      Runner → (H.World → Ending H.World) → H.World → Ending H.World
  initialize_cas_client r go_on w = or_exit go_on (H.init_client r.d_cas_remote w)

  abbrev pub command_failed : Runner → Digest → ℕ → Text → H.World → Ending H.World
  command_failed r digest code what w = ends 1 (
      write_error_status_file r.d_output_path code (command_error digest r.d_cas_remote.url what) w)

  abbrev pub after_command :
      Runner
      → Digest
      → (Command → H.World → Ending H.World)
      → Answer Command × H.World
      → Ending H.World
  after_command r digest go_on (answer command, w) = go_on command w
  after_command r digest go_on (grpc_failure status, w) =
      command_failed r digest status.code status.message w
  after_command r digest go_on (failure what, w) = command_failed r digest internal what w

  -- `fetchCommand`
  unfoldable pub fetch_command :
      Runner → Digest → (Command → H.World → Ending H.World) → H.World → Ending H.World
  fetch_command r digest go_on w = after_command r digest go_on (H.fetch_command_message digest w)

  -- `writeActionResult`
  unfoldable pub write_action_result :
      ActionResult → Text → (H.World → Ending H.World) → H.World → Ending H.World
  write_action_result result path go_on w = or_exit go_on (H.write_result result path w)

  -- The end of `main`, for a result with its timestamps.
  abbrev pub finish_main : Text → ActionResult → H.World → Ending H.World
  finish_main [] result w = ends (H.signal_status w) w
  finish_main (c ∷ path) result w =
      write_action_result result (c ∷ path) (λ w'. ends (H.signal_status w') w') w

  -- What `main` does with what `execute` returned or threw.
  abbrev pub after_execute : ℕ → (Text ⊎ ActionResult) × Runner × H.World → Ending H.World
  after_execute start (inl what, r, w) =
      ends 1
        (write_error_status_file r.d_output_path internal (codes "execute() threw: " ++ what) w)
  after_execute start (inr result, r, w) =
      let (completed, w') = H.now w in
      finish_main r.d_output_path (mark_worker start completed result) w'

  unfoldable pub run_command : Runner → ℕ → Action → Command → H.World → Ending H.World
  run_command r start action command w =
      if H.signal_status w == 0
      then after_execute start (H.execute r command action.input_root_digest w)
      else ends (H.signal_status w) w

  unfoldable pub with_action : Runner → ℕ → Action → H.World → Ending H.World
  with_action r start action w =
      let r' : Runner = record r { d_action_digest = H.hash (H.serialize action) } in
      register_signals
        (initialize_cas_client r'
          (fetch_command r' action.command_digest (run_command r' start action)))
        w

  abbrev pub after_initialize : Runner → H.World → Option Logger → Ending H.World
  after_initialize r w none = terminates w
  after_initialize r w (some logger) =
      let r' : Runner = record r { logger = set_log_level logger r.d_log_level } in
      let (start, w') = H.now w in read_action r' (with_action r' start) w'

  -- `main` after the parsing of the arguments.
  unfoldable pub run_action : Text → Runner → H.World → Ending H.World
  run_action program r w = after_initialize r w (initialize r.logger program)

  abbrev pub after_arguments : Text → ParsedOptions H.World → Ending H.World
  after_arguments program (parsed_options r w) =
      if r.d_validate_parameters_and_exit then ends 0 w else run_action program r w
  after_arguments program (refused w) = ends 1 w
  after_arguments program (exited w) = ends 0 w
  after_arguments program (thrown w) = terminates w

  -- `main`, with the program's name and the arguments after it.
  unfoldable pub main : Text → List Text → Runner → H.World → Ending H.World
  main program args r w = after_arguments program (parse_arguments H args r w)
