-- ===== src/Runner/Execution.antt =====
-- `Runner::executeAndStore`, in the process that forks. What it calls is the record `Executor`.
pub mod Ends
pub mod Stores
mod Tests
use buildbox_common.Prelude.{
  ℕ, zero, suc, Bool, true, false, [], ◌∷◌, Option, none, some, ◌==◌, Text,
}
use buildbox_common.Digest.{Digest}
use buildbox_common.SystemUtils.{
  WaitStatus, WaitResult, exit_code, minus_eintr, wait_system_error, wait_runtime_error,
  out_of_fuel, wait_pid_or_signal, wait_pid,
}
use buildbox_common.Runner.{ActionResult, StandardOutputsCaptureConfig}

-- Of the Boolean results `false` is a failure, and `none` is an exception.
pub record Executor : Type 1 where
  pub World : Type 0
  pub now : World → ℕ × World
  -- A new `TemporaryFile`, by its name.
  pub temporary_file : World → Option Text × World
  pub fork : World → Bool × World
  pub waitpid : World → WaitStatus × World
  -- `kill(pid, SIGKILL)`
  pub kill : World → World
  pub signal_status : World → ℕ
  -- `upload_outputs_function`
  pub upload : Text → Text → World → Option (Digest × Digest) × World

-- The result, an exception, or a loop cut short.
pub data Execution (W : Type 0) : Type 0 where
  stored : ActionResult → W → Execution W
  execution_thrown : W → Execution W
  execution_fuel : W → Execution W

abbrev pub mark_start : ℕ → ActionResult → ActionResult
mark_start t result = record result {
  execution_metadata = record (result.execution_metadata) { execution_start_timestamp = some t };
}

abbrev pub mark_completed : ℕ → ActionResult → ActionResult
mark_completed t result = record result {
  execution_metadata = record (result.execution_metadata) {
    execution_completed_timestamp = some t;
  };
}

module _ (E : Executor) where
  -- `Runner_StandardOutputFile`
  abbrev pub standard_output_file : Text → E.World → Option Text × E.World
  standard_output_file [] w = E.temporary_file w
  standard_output_file (c ∷ path) w = (some (c ∷ path), w)

  abbrev pub store_digests :
      ActionResult → ℕ → Option (Digest × Digest) × E.World → Execution E.World
  store_digests result code (none, w) = execution_thrown w
  store_digests result code (some (stdout_digest, stderr_digest), w) =
      stored
        (record result {
          stdout_digest = some stdout_digest;
          stderr_digest = some stderr_digest;
          exit_code = code;
        })
        w

  abbrev pub store_outputs : Option (Text × Text) → ActionResult → ℕ → E.World → Execution E.World
  store_outputs none result code w = stored (record result { exit_code = code }) w
  store_outputs (some (stdout_file, stderr_file)) result code w =
      store_digests result code (E.upload stdout_file stderr_file w)

  -- What the loop does when the child has ended; with no files nothing is captured.
  unfoldable pub execution_ended :
      Option (Text × Text) → ActionResult → ℕ → E.World → Execution E.World
  execution_ended files result code w =
      let (completed, w') = E.now w in store_outputs files (mark_completed completed result) code w'

  abbrev pub after_kill : ActionResult → WaitResult × E.World → Execution E.World
  after_kill result (exit_code code, w) = stored result w
  after_kill result (minus_eintr, w) = stored result w
  after_kill result (wait_system_error, w) = execution_thrown w
  after_kill result (wait_runtime_error, w) = execution_thrown w
  after_kill result (out_of_fuel, w) = execution_fuel w

  abbrev pub after_wait :
      Option (Text × Text)
      → ActionResult
      → (E.World → Execution E.World)
      → WaitResult × E.World
      → Execution E.World
  after_wait files result again (exit_code code, w) = execution_ended files result code w
  after_wait files result again (minus_eintr, w) = again w
  after_wait files result again (wait_system_error, w) = execution_thrown w
  after_wait files result again (wait_runtime_error, w) = execution_thrown w
  after_wait files result again (out_of_fuel, w) = execution_fuel w

  -- The loop, and what follows it when a signal has come.
  unfoldable pub wait_loop : ℕ → Option (Text × Text) → ActionResult → E.World → Execution E.World
  wait_loop zero files result w = execution_fuel w
  wait_loop (suc fuel) files result w = elim (E.signal_status w == 0) [
    | true ↦ after_wait files result (wait_loop fuel files result) (wait_pid_or_signal E.waitpid w)
    | false ↦ after_kill result (wait_pid E.waitpid (suc fuel) (E.kill w))
  ]

  abbrev pub after_fork :
      ℕ → Option (Text × Text) → ActionResult → Bool × E.World → Execution E.World
  after_fork fuel files result (true, w) = wait_loop fuel files result w
  after_fork fuel files result (false, w) = execution_thrown w

  abbrev pub start_execution : ℕ → Option (Text × Text) → ActionResult → E.World → Execution E.World
  start_execution fuel files result w =
      let (start, w') = E.now w in after_fork fuel files (mark_start start result) (E.fork w')

  abbrev pub with_stderr_file : ℕ → ActionResult → Text → Option Text × E.World → Execution E.World
  with_stderr_file fuel result stdout_file (none, w) = execution_thrown w
  with_stderr_file fuel result stdout_file (some stderr_file, w) =
      start_execution fuel (some (stdout_file, stderr_file)) result w

  abbrev pub with_stdout_file :
      ℕ → StandardOutputsCaptureConfig → ActionResult → Option Text × E.World → Execution E.World
  with_stdout_file fuel config result (none, w) = execution_thrown w
  with_stdout_file fuel config result (some stdout_file, w) =
      with_stderr_file fuel result stdout_file (standard_output_file config.stderr_file_path w)

  -- `executeAndStore`, with fuel for the waits.
  unfoldable pub execute_and_store :
      ℕ → StandardOutputsCaptureConfig → ActionResult → E.World → Execution E.World
  execute_and_store fuel config result w = elim config.skip_capture [
    | true ↦ start_execution fuel none result w
    | false ↦ with_stdout_file fuel config result (standard_output_file config.stdout_file_path w)
  ]
