-- ===== src/Runner/Execution/Stores.antt =====
-- What `executeAndStore` stores.
use buildbox_common.Prelude.{ℕ, ◌≤◌, ◌≡◌, refl, ap, ◌∙◌, true, false, ◌∷◌, Option, some, Text}
use buildbox_common.Digest.{Digest}
use buildbox_common.SystemUtils.{WaitStatus, exit_code, waited_of}
use buildbox_common.Runner.{ActionResult, StandardOutputsCaptureConfig}
use buildbox_common.Runner.Execution.{
  Executor, stored, mark_start, mark_completed, store_digests, execution_ended, wait_loop,
  after_fork, start_execution, execute_and_store,
}
use buildbox_common.Runner.Execution.Ends.{Waiting, wait_loop-ended}

-- The result with the times of the execution, its exit code and the digests of its outputs.
abbrev pub executed : ℕ → ℕ → ℕ → Digest → Digest → ActionResult → ActionResult
executed start completed code out err result =
    record (mark_completed completed (mark_start start result)) {
      stdout_digest = some out;
      stderr_digest = some err;
      exit_code = code;
    }

module _ (E : Executor) where
  -- A run whose waits end as `wait_loop-ended` asks, whose outputs go to the two given files, and whose
  -- upload returns.
  pub record Ends (stdout_file stderr_file : Text) (start : ℕ) (out err : Digest) (code : ℕ)
      (w v : E.World) : Type 0 where
    pub forked : E.World
    pub before : E.World
    pub after : E.World
    pub status : WaitStatus
    pub forks : E.fork (E.now w).1 ≡ (true, forked)
    pub starts : (E.now w).0 ≡ start
    pub waits : Waiting E forked before
    pub quiet : E.signal_status before ≡ 0
    pub reports : E.waitpid before ≡ (status, after)
    pub exits : waited_of status ≡ exit_code code
    pub uploads : E.upload stdout_file stderr_file (E.now after).1 ≡ (some (out, err), v)

  ended-stored :
      (stdout_file stderr_file : Text) (start code : ℕ) (out err : Digest) (result : ActionResult)
      (w v : E.World)
      → E.upload stdout_file stderr_file (E.now w).1 ≡ (some (out, err), v)
      → execution_ended E (some (stdout_file, stderr_file)) (mark_start start result) code w
        ≡ stored (executed start (E.now w).0 code out err result) v
  unfolding execution_ended
  ended-stored stdout_file stderr_file start code out err result w v e =
      ap (store_digests E (mark_completed (E.now w).0 (mark_start start result)) code) e

  started :
      (fuel : ℕ) (files : Option (Text × Text)) (result : ActionResult) (w u : E.World)
      → E.fork (E.now w).1 ≡ (true, u)
      → start_execution E fuel files result w
        ≡ wait_loop E fuel files (mark_start (E.now w).0 result) u
  started fuel files result w u e = ap (after_fork E fuel files (mark_start (E.now w).0 result)) e

  captured :
      (fuel : ℕ) (config : StandardOutputsCaptureConfig) (result : ActionResult) (c d : ℕ)
      (out_path err_path : Text) (w : E.World)
      → config.skip_capture ≡ false
      → config.stdout_file_path ≡ c ∷ out_path
      → config.stderr_file_path ≡ d ∷ err_path
      → execute_and_store E fuel config result w
        ≡ start_execution E fuel (some (c ∷ out_path, d ∷ err_path)) result w
  unfolding execute_and_store
  captured fuel config result c d out_path err_path w h k l = rw (h, k, l, execute_and_store) refl

  running :
      (fuel start : ℕ) (files : Option (Text × Text)) (result : ActionResult) (w u : E.World)
      → E.fork (E.now w).1 ≡ (true, u)
      → (E.now w).0 ≡ start
      → start_execution E fuel files result w ≡ wait_loop E fuel files (mark_start start result) u
  running fuel start files result w u e t =
      started fuel files result w u e ∙ ap (λ n. wait_loop E fuel files (mark_start n result) u) t

  -- When the outputs are captured in two given files, `fork` succeeds, no signal is stored while waits are
  -- interrupted, a wait then reports the child's end, and the upload returns: from some fuel on
  -- `executeAndStore` stores the result with the exit code that was reported, the digests that the
  -- upload returned, and the times before the fork and after the child's end.
  pub execute_and_store-stored :
      (config : StandardOutputsCaptureConfig) (result : ActionResult) (c d : ℕ)
      (out_path err_path : Text) (start code : ℕ) (out err : Digest) (w v : E.World)
      → config.skip_capture ≡ false
      → config.stdout_file_path ≡ c ∷ out_path
      → config.stderr_file_path ≡ d ∷ err_path
      → (R : Ends (c ∷ out_path) (d ∷ err_path) start out err code w v)
      → (least : ℕ) × ((fuel : ℕ)
          → least ≤ fuel
          → execute_and_store E fuel config result w
            ≡ stored (executed start (E.now R.after).0 code out err result) v)
  execute_and_store-stored config result c d out_path err_path start code out err w v h k l R =
      let files : Option (Text × Text) = some (c ∷ out_path, d ∷ err_path) in
      let (least, ends) =
        wait_loop-ended E files (mark_start start result) R.forked R.before R.after R.status code
          R.waits R.quiet R.reports R.exits in
      (
        least,
        λ fuel enough.
            captured fuel config result c d out_path err_path w h k l
            ∙ running fuel start files result w R.forked R.forks R.starts
            ∙ ends fuel enough
            ∙ ended-stored (c ∷ out_path) (d ∷ err_path) start code out err result R.after v
                R.uploads,
      )
