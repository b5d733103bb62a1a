-- ===== src/Runner/Execution/Tests.antt =====
-- A child that ends after an interrupted wait, and one that is killed on a signal.
use buildbox_common.Prelude.{
  ℕ, ◌+◌, ◌≤◌, ◌≡◌, refl, Bool, true, false, [], none, some, if◌then◌else◌, ◌==◌, arith, codes,
}
use buildbox_common.Digest.{Digest}
use buildbox_common.SystemUtils.{eintr, WaitStatus, wait_failed, wait_exited, wait_signaled}
use buildbox_common.SystemUtils.Reaped.{killed}
use buildbox_common.Runner.{ActionResult, StandardOutputsCaptureConfig}
use buildbox_common.Runner.Execution.Stores.{executed, Ends, execute_and_store-stored}
use buildbox_common.Runner.Execution.{execute_and_store, Executor, stored, wait_loop}
use buildbox_common.Runner.Execution.Ends.{Waiting, reached, resumed, wait_loop-signalled}

abbrev digest : Digest
digest = record { hash_other = codes "d"; size_bytes = 3 }

abbrev result : ActionResult
result = record {
  exit_code = 0;
  stdout_digest = none;
  stderr_digest = none;
  execution_metadata = record {
    worker_start_timestamp = none;
    worker_completed_timestamp = none;
    execution_start_timestamp = some 1;
    execution_completed_timestamp = none;
  };
  outputs = [];
}

-- The first wait, in the world 0, is interrupted. `signalled` says whether by a signal to the runner.
abbrev executor : Bool → Executor
executor signalled = record {
  World = ℕ;
  now = λ w. (w, w);
  temporary_file = λ w. (some (codes "/tmp/o"), w);
  fork = λ w. (true, w);
  waitpid = λ w.
      if w == 0
      then (wait_failed eintr, 1)
      else if w == 1
      then (wait_exited 3, 2)
      else (wait_signaled 9, w + 1);
  kill = λ w. w + 10;
  signal_status = λ w. if w == 0 then 0 else if signalled then 15 else 0;
  upload = λ out err w. (some (digest, digest), w);
}

interrupted_once : (signalled : Bool) → Waiting (executor signalled) 0 1
interrupted_once signalled = resumed 0 1 1 refl refl (reached 1)

abbrev config : StandardOutputsCaptureConfig
config = record {
  stdout_file_path = codes "/o";
  stderr_file_path = codes "/e";
  skip_capture = false;
}

child_ends : Ends (executor false) (codes "/o") (codes "/e") 0 digest digest 3 0 2
unfolding buildbox_common.SystemUtils.waited_of
child_ends = record {
  forked = 0;
  before = 1;
  after = 2;
  status = wait_exited 3;
  forks = refl;
  starts = refl;
  waits = interrupted_once false;
  quiet = refl;
  reports = refl;
  exits = refl;
  uploads = refl;
}

execute_and_store-stored_example :
    (least : ℕ) × ((fuel : ℕ)
      → least ≤ fuel
      → execute_and_store (executor false) fuel config result 0
        ≡ stored (executed 0 2 3 digest digest result) 2)
unfolding child_ends
execute_and_store-stored_example =
    execute_and_store-stored (executor false) config result b'/' b'/' (codes "o") (codes "e") 0 3
      digest digest 0 2 refl refl refl child_ends

wait_loop-signalled_example :
    (least : ℕ) × ((fuel : ℕ)
      → least ≤ fuel
      → wait_loop (executor true) fuel none result 0 ≡ stored result 12)
wait_loop-signalled_example =
    wait_loop-signalled (executor true) none result 0 1 12 137 (interrupted_once true)
      (λ e. omega (arith, e)) (killed 11 12 9 refl (omega arith))
