-- ===== src/Runner/Main/Completed.antt =====
-- What a run of the runner that ends with code 0 has done.
use buildbox_common.Prelude.{
  ℕ, Option, ◌≡◌, refl, sym, ap, ◌∙◌, ◌⊎◌, inl, inr, Bool, true, false, [], ◌∷◌, none, some, ◌==◌,
  ==_iff, Text, arith, Bool-cases,
}
use buildbox_common.Digest.{Digest}
use buildbox_common.Logging.{Logger, initialize, set_log_level}
use buildbox_common.Runner.{
  Runner, Action, Command, ActionResult, Answer, answer, grpc_failure, failure, Host,
}
use buildbox_common.Runner.Main.{
  Ending, ends, terminates, sigint, sigterm, after_action, read_action, or_exit, register_signals,
  initialize_cas_client, after_command, fetch_command, write_action_result, finish_main,
  mark_worker, after_execute, run_command, with_action, after_initialize, run_action,
}

abbrev code_of : {W : Type 0} → Ending W → ℕ
code_of (ends code w) = code
code_of (terminates w) = 1

abbrev world_of : {W : Type 0} → Ending W → W
world_of (ends code w) = w
world_of (terminates w) = w

-- The result that a run leaves: the one of `execute`, between the two times of the worker.
abbrev pub timed : ℕ → ℕ → ActionResult → ActionResult
timed start completed result = record {
  exit_code = result.exit_code;
  stdout_digest = result.stdout_digest;
  stderr_digest = result.stderr_digest;
  execution_metadata = record {
    worker_start_timestamp = some start;
    worker_completed_timestamp = some completed;
    execution_start_timestamp = result.execution_metadata.execution_start_timestamp;
    execution_completed_timestamp = result.execution_metadata.execution_completed_timestamp;
  };
  outputs = result.outputs;
}

module _ (H : Host) where
  -- The file of the result was written on the way from one world to the next, or there is no path.
  abbrev pub Written : Text → ActionResult → H.World → H.World → Type 0
  Written [] result v w = v ≡ w
  Written (c ∷ path) result v w = H.write_result result (c ∷ path) v ≡ (true, w)

  -- A run of `r` from the world `w` to the world `end`, step by step: the clock is read, the action is
  -- read, both signals are registered, the client is set up, the command of the action is fetched and
  -- executed while no signal is stored, the clock is read again, and the result is written with the two
  -- times if there is an output path. No signal is stored at the end.
  pub record Completed (program : Text) (r : Runner) (w end : H.World) : Type 0 where
    pub logger : Logger
    pub started : initialize r.logger program ≡ some logger
    pub start : ℕ
    pub clocked : H.World
    pub start_read : H.now w ≡ (start, clocked)
    pub action : Action
    pub action_read : H.read_action_file r.d_input_path clocked ≡ inr action
    pub first_signal : H.World
    pub interrupt_handled : H.sigaction sigint clocked ≡ (true, first_signal)
    pub signals : H.World
    pub termination_handled : H.sigaction sigterm first_signal ≡ (true, signals)
    pub connected : H.World
    pub client_made : H.init_client r.d_cas_remote signals ≡ (true, connected)
    pub command : Command
    pub fetched : H.World
    pub command_fetched :
        H.fetch_command_message action.command_digest connected ≡ (answer command, fetched)
    pub calm : H.signal_status fetched ≡ 0
    pub result : ActionResult
    pub runner : Runner
    pub finished : H.World
    pub executed :
        H.execute
          (record r {
            logger = set_log_level logger r.d_log_level;
            d_action_digest = H.hash (H.serialize action);
          })
          command
          action.input_root_digest
          fetched
        ≡ (inr result, runner, finished)
    pub completed : ℕ
    pub stopped : H.World
    pub end_read : H.now finished ≡ (completed, stopped)
    pub written : Written runner.d_output_path (timed start completed result) stopped end
    pub quiet : H.signal_status end ≡ 0

  -- A code of 1 is none of 0.
  one_not_zero : {A : Type 0} (v w : H.World) → ends 1 v ≡ ends 0 w → A
  one_not_zero v w e = absurd (omega (arith, ap code_of e))

  or_exit-zero :
      (go_on : H.World → Ending H.World) (x : Bool × H.World) (w : H.World)
      → or_exit H go_on x ≡ ends 0 w
      → (v : H.World) × (x ≡ (true, v)) × (go_on v ≡ ends 0 w)
  or_exit-zero go_on (true, v) w e = (v, refl, e)
  or_exit-zero go_on (false, v) w e = one_not_zero v w e

  after_action-zero :
      (r : Runner) (go_on : Action → H.World → Ending H.World) (v w : H.World) (x : Text ⊎ Action)
      → after_action H r go_on v x ≡ ends 0 w
      → (a : Action) × (x ≡ inr a) × (go_on a v ≡ ends 0 w)
  after_action-zero r go_on v w (inr a) e = (a, refl, e)
  after_action-zero r go_on v w (inl what) e = one_not_zero _ w e

  after_command-zero :
      (r : Runner) (digest : Digest) (go_on : Command → H.World → Ending H.World)
      (x : Answer Command × H.World) (w : H.World)
      → after_command H r digest go_on x ≡ ends 0 w
      → (command : Command) × (v : H.World) × (x ≡ (answer command, v))
        × (go_on command v ≡ ends 0 w)
  after_command-zero r digest go_on (answer command, v) w e = (command, v, refl, e)
  after_command-zero r digest go_on (grpc_failure status, v) w e = one_not_zero _ w e
  after_command-zero r digest go_on (failure what, v) w e = one_not_zero _ w e

  -- The world of a run whose code is that of the signals.
  quiet_end :
      (v w : H.World) → ends (H.signal_status v) v ≡ ends 0 w → (v ≡ w) × (H.signal_status w ≡ 0)
  quiet_end v w e =
      let same : v ≡ w = ap world_of e in (same, sym (ap H.signal_status same) ∙ ap code_of e)

  finish_main-zero :
      (path : Text) (result : ActionResult) (v w : H.World)
      → finish_main H path result v ≡ ends 0 w
      → Written path result v w × (H.signal_status w ≡ 0)
  unfolding write_action_result
  finish_main-zero [] result v w e = quiet_end v w e
  finish_main-zero (c ∷ path) result v w e =
      let (u, written, rest) = or_exit-zero _ (H.write_result result (c ∷ path) v) w e in
      let (same, quiet) = quiet_end u w rest in (written ∙ ap (λ x. (true, x)) same, quiet)

  after_execute-zero :
      (start : ℕ) (x : (Text ⊎ ActionResult) × Runner × H.World) (w : H.World)
      → after_execute H start x ≡ ends 0 w
      → (result : ActionResult) × (x ≡ (inr result, x.1, x.2))
        × Written x.1.d_output_path (timed start (H.now x.2).0 result) (H.now x.2).1 w
        × (H.signal_status w ≡ 0)
  after_execute-zero start (inl what, r, v) w e = one_not_zero _ w e
  after_execute-zero start (inr result, r, v) w e =
      let (written, quiet) =
        finish_main-zero r.d_output_path (mark_worker start (H.now v).0 result) (H.now v).1 w e in
      (result, refl, written, quiet)

  run_command-zero :
      (r : Runner) (start : ℕ) (a : Action) (command : Command) (v w : H.World)
      → run_command H r start a command v ≡ ends 0 w
      → (H.signal_status v ≡ 0)
        × (after_execute H start (H.execute r command a.input_root_digest v) ≡ ends 0 w)
  unfolding run_command
  run_command-zero r start a command v w e = elim (Bool-cases (H.signal_status v == 0)) [
    | inl calm ↦ ((==_iff (H.signal_status v) 0).0 calm, rw calm at e)
    | inr signalled ↦ absurd (ground (arith, ap code_of (rw signalled at e)))
  ]

  with_action-zero :
      (program : Text) (r : Runner) (logger : Logger) (a : Action) (w w' : H.World)
      → initialize r.logger program ≡ some logger
      → H.read_action_file r.d_input_path (H.now w).1 ≡ inr a
      → with_action H
          (record r { logger = set_log_level logger r.d_log_level })
          (H.now w).0
          a
          (H.now w).1
        ≡ ends 0 w'
      → Completed program r w w'
  unfolding with_action register_signals initialize_cas_client fetch_command
  with_action-zero program r logger a w w' started read e =
      let (start, v) = H.now w in
      let r' : Runner = record r {
        logger = set_log_level logger r.d_log_level;
        d_action_digest = H.hash (H.serialize a);
      } in
      let (v1, handled1, e1) = or_exit-zero _ (H.sigaction sigint v) w' e in
      let (v2, handled2, e2) = or_exit-zero _ (H.sigaction sigterm v1) w' e1 in
      let (v3, made, e3) = or_exit-zero _ (H.init_client r.d_cas_remote v2) w' e2 in
      let (command, v4, fetched, e4) =
        after_command-zero r' a.command_digest (run_command H r' start a)
          (H.fetch_command_message a.command_digest v3) w' e3 in
      let (calm, e5) = run_command-zero r' start a command v4 w' e4 in
      let (result, executed, written, quiet) =
        after_execute-zero start (H.execute r' command a.input_root_digest v4) w' e5 in
      record {
        logger = logger;
        started = started;
        start = start;
        clocked = v;
        start_read = refl;
        action = a;
        action_read = read;
        first_signal = v1;
        interrupt_handled = handled1;
        signals = v2;
        termination_handled = handled2;
        connected = v3;
        client_made = made;
        command = command;
        fetched = v4;
        command_fetched = fetched;
        calm = calm;
        result = result;
        runner = (H.execute r' command a.input_root_digest v4).1;
        finished = (H.execute r' command a.input_root_digest v4).2;
        executed = executed;
        completed = (H.now (H.execute r' command a.input_root_digest v4).2).0;
        stopped = (H.now (H.execute r' command a.input_root_digest v4).2).1;
        end_read = refl;
        written = written;
        quiet = quiet;
      }

  after_read :
      (program : Text) (r : Runner) (w w' : H.World) (logger : Logger)
      → initialize r.logger program ≡ some logger
      → after_initialize H r w (some logger) ≡ ends 0 w'
      → Completed program r w w'
  unfolding read_action
  after_read program r w w' logger started e =
      let r' : Runner = record r { logger = set_log_level logger r.d_log_level } in
      let (start, v) = H.now w in
      let (action, read, rest) =
        after_action-zero r' (with_action H r' start) v w' (H.read_action_file r.d_input_path v)
          e in
      with_action-zero program r logger action w w' started read rest

  -- A run that ends with code 0 has done these steps, each in the world that the one before it left: it
  -- has read the clock and the action, registered both signals, set up the client of the store, fetched
  -- the command of the action, and, as no signal was stored, had a result from `execute` for that
  -- command; it has read the clock again and, if there is an output path after `execute`, written to it
  -- that result with the two times as the worker's. No signal is stored at the end.
  pub run_action-Completed :
      (program : Text) (r : Runner) (w w' : H.World)
      → run_action H program r w ≡ ends 0 w'
      → Completed program r w w'
  unfolding run_action
  run_action-Completed program r w w' e = go (initialize r.logger program) refl e
    where
      go :
          (l : Option Logger)
          → initialize r.logger program ≡ l
          → after_initialize H r w l ≡ ends 0 w'
          → Completed program r w w'
      go none started e = absurd (omega (arith, ap code_of e))
      go (some logger) started e = after_read program r w w' logger started e
