-- ===== src/Runner/Main/Recorded.antt =====
-- What a run of the runner leaves at the path for its result, or next to it.
use buildbox_common.Prelude.{
  ℕ, ◌≡◌, ◌≢◌, refl, ap, ◌∙◌, ◌⊎◌, inl, inr, Bool, true, false, ◌∷◌, ◌++◌, Text, codes, arith,
}
use buildbox_common.Digest.{Digest}
use buildbox_common.Connection.{ConnectionOptions}
use buildbox_common.Logging.{initialize, start_glog, set_log_level}
use buildbox_common.Retrier.{internal}
use buildbox_common.Runner.{
  Runner, Action, Command, ActionResult, RpcStatus, Answer, answer, grpc_failure, failure, Host,
}
use buildbox_common.Runner.Main.{
  Ending, ends, terminates, error_status_code_file_path, sigint, sigterm, write_error_status_file,
  after_action, read_action, or_exit, register_signals, initialize_cas_client, after_command,
  fetch_command, write_action_result, finish_main, mark_worker, after_execute, run_command,
  with_action, run_action,
}

module _ (H : Host) where
  -- The file for the result was written, and the code is 0.
  abbrev pub Saved : Text → ℕ → H.World → Type 0
  Saved path code w =
      (code ≡ 0)
      × (result : ActionResult) × (v : H.World) × (H.write_result result path v ≡ (true, w))

  -- The last thing that was done is to write, with success, a status that is not OK next to the result's
  -- path, and the code is 1.
  abbrev pub Reported : Text → ℕ → H.World → Type 0
  Reported path code w =
      (code ≡ 1)
      × (status : RpcStatus) × (v : H.World) × (status.code ≢ 0)
      × (H.write_status status (path ++ codes ".error-status") v ≡ (true, w))

  unfoldable pub Recorded : Text → Ending H.World → Type 0
  Recorded path (ends code w) = Saved path code w ⊎ Reported path code w
  Recorded path (terminates w) = ⊥

  -- The system and the store can be reached, no signal arrives, and the files for the result and for a
  -- status can be written. Reading the action, fetching the command and executing it may fail. A `GrpcError` has a
  -- status that is not OK, and a subclass leaves the output path alone.
  pub record IsUndisturbed : Type 0 where
    pub registers : (signal : ℕ) (w : H.World) → (H.sigaction signal w).0 ≡ true
    pub connects : (o : ConnectionOptions) (w : H.World) → (H.init_client o w).0 ≡ true
    pub quiet : (w : H.World) → H.signal_status w ≡ 0
    pub saves :
        (result : ActionResult) (path : Text) (w : H.World)
        → (H.write_result result path w).0 ≡ true
    pub reports :
        (status : RpcStatus) (path : Text) (w : H.World) → (H.write_status status path w).0 ≡ true
    pub bad_status :
        (digest : Digest) (w : H.World) (status : RpcStatus)
        → (H.fetch_command_message digest w).0 ≡ grpc_failure status
        → status.code ≢ 0
    pub keeps :
        (r : Runner) (c : Command) (root : Digest) (w : H.World)
        → (H.execute r c root w).1.d_output_path ≡ r.d_output_path

  module _ (U : IsUndisturbed) (c : ℕ) (p : Text) where
    abbrev path : Text
    path = c ∷ p

    succeeded : (x : Bool × H.World) → x.0 ≡ true → x ≡ (true, x.1)
    succeeded (b, w) h = ap (λ b'. (b', w)) h

    reported :
        (output message : Text) (code : ℕ) (w : H.World)
        → output ≡ path
        → code ≢ 0
        → Recorded path (ends 1 (write_error_status_file H output code message w))
    unfolding Recorded write_error_status_file error_status_code_file_path
    reported output message code w e bad =
        let status : RpcStatus = record { code = code; message = message } in
        rw e (inr (refl, status, w, bad, succeeded _ (U.reports status _ w)))

    or_exit-Recorded :
        (go_on : H.World → Ending H.World) (x : Bool × H.World)
        → x.0 ≡ true
        → ((w : H.World) → Recorded path (go_on w))
        → Recorded path (or_exit H go_on x)
    or_exit-Recorded go_on (true, w) h k = k w
    or_exit-Recorded go_on (false, w) h k = cc

    after_action-Recorded :
        (r : Runner) (go_on : Action → H.World → Ending H.World) (w : H.World) (x : Text ⊎ Action)
        → r.d_output_path ≡ path
        → ((a : Action) (v : H.World) → Recorded path (go_on a v))
        → Recorded path (after_action H r go_on w x)
    after_action-Recorded r go_on w (inr a) e k = k a w
    after_action-Recorded r go_on w (inl what) e k =
        reported r.d_output_path _ internal w e (omega arith)

    after_command-Recorded :
        (r : Runner) (digest : Digest) (go_on : Command → H.World → Ending H.World)
        (x : Answer Command × H.World)
        → r.d_output_path ≡ path
        → ((s : RpcStatus) → x.0 ≡ grpc_failure s → s.code ≢ 0)
        → ((a : Command) (v : H.World) → Recorded path (go_on a v))
        → Recorded path (after_command H r digest go_on x)
    after_command-Recorded r digest go_on (answer a, w) e bad k = k a w
    after_command-Recorded r digest go_on (grpc_failure s, w) e bad k =
        reported r.d_output_path _ s.code w e (bad s refl)
    after_command-Recorded r digest go_on (failure what, w) e bad k =
        reported r.d_output_path _ internal w e (omega arith)

    saved :
        (result : ActionResult) (w v : H.World)
        → H.write_result result path v ≡ (true, w)
        → Recorded path (ends (H.signal_status w) w)
    unfolding Recorded
    saved result w v e = inl (U.quiet w, result, v, e)

    finish_main-Recorded :
        (output : Text) (result : ActionResult) (w : H.World)
        → output ≡ path
        → Recorded path (finish_main H output result w)
    unfolding write_action_result
    finish_main-Recorded output result w e =
        rw e (go (H.write_result result path w) (U.saves result path w) refl)
      where
        go :
            (x : Bool × H.World)
            → x.0 ≡ true
            → H.write_result result path w ≡ x
            → Recorded path (or_exit H (λ w'. ends (H.signal_status w') w') x)
        go (true, w') h same = saved result w' w same
        go (false, w') h same = cc

    after_execute-Recorded :
        (start : ℕ) (x : (Text ⊎ ActionResult) × Runner × H.World)
        → x.1.d_output_path ≡ path
        → Recorded path (after_execute H start x)
    after_execute-Recorded start (inl what, r, w) e =
        reported r.d_output_path _ internal w e (omega arith)
    after_execute-Recorded start (inr result, r, w) e =
        finish_main-Recorded r.d_output_path (mark_worker start (H.now w).0 result) (H.now w).1 e

    run_command-Recorded :
        (r : Runner) (start : ℕ) (a : Action) (command : Command) (w : H.World)
        → r.d_output_path ≡ path
        → Recorded path (run_command H r start a command w)
    unfolding run_command
    run_command-Recorded r start a command w e = rw (U.quiet w) (
        after_execute-Recorded start (H.execute r command a.input_root_digest w)
          (U.keeps r command a.input_root_digest w ∙ e))

    with_action-Recorded :
        (r : Runner) (start : ℕ) (a : Action) (w : H.World)
        → r.d_output_path ≡ path
        → Recorded path (with_action H r start a w)
    unfolding with_action register_signals initialize_cas_client fetch_command
    with_action-Recorded r start a w e =
        let r' : Runner = record r { d_action_digest = H.hash (H.serialize a) } in
        or_exit-Recorded _ (H.sigaction sigint w) (U.registers sigint w) (λ v.
          or_exit-Recorded _ (H.sigaction sigterm v) (U.registers sigterm v) (λ u.
            or_exit-Recorded _ (H.init_client r.d_cas_remote u) (U.connects r.d_cas_remote u) (λ t.
              after_command-Recorded r' a.command_digest (run_command H r' start a)
                (H.fetch_command_message a.command_digest t) e (U.bad_status a.command_digest t)
                (λ command x. run_command-Recorded r' start a command x e))))

    -- A run with an output path, by a program with a name and in a process whose logger is not started,
    -- ends in one of two ways when nothing disturbs it: with code 0, after writing a result to that path,
    -- or with code 1, after writing a status that is not OK to that path with `.error-status` added.
    -- Nothing disturbs it: signals can be handled and none arrives, the client of the store can be
    -- set up, the files for the result and for the status can be written, a `GrpcError` is not OK, and a
    -- subclass leaves the output path alone.
    pub run_action-Recorded :
        (first : ℕ) (program : Text) (r : Runner) (w : H.World)
        → r.d_output_path ≡ c ∷ p
        → r.logger.d_glog_initialized ≡ false
        → Recorded (c ∷ p) (run_action H (first ∷ program) r w)
    unfolding run_action initialize read_action
    run_action-Recorded first program r w e fresh =
        let r' : Runner = record r { logger = set_log_level (start_glog r.logger) r.d_log_level } in
        let (start, v) = H.now w in
        rw fresh (
          after_action-Recorded r' (with_action H r' start) v (H.read_action_file r.d_input_path v)
            e (λ a u. with_action-Recorded r' start a u e))
