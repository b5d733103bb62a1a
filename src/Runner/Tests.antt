-- ===== src/Runner/Tests.antt =====
-- Runs of the runner on hosts whose world counts what is done.
use buildbox_common.Prelude.{
  ℕ, suc, ◌≡◌, refl, ap, true, false, List, [], ◌∷◌, none, some, inr, arith, Text, codes, length,
}
use buildbox_common.Digest.{Digest}
use buildbox_common.Connection.{ConnectionOptions}
use buildbox_common.Logging.{Logger}
use buildbox_common.Runner.{
  Runner, make_runner, Action, Command, ActionResult, RpcStatus, Answer, answer, grpc_failure, Host,
}
use buildbox_common.Runner.Options.{parsed_options, parse_arguments}
use buildbox_common.Runner.Options.Stored.{input_path, field_of, last_given}
use buildbox_common.Runner.Options.Last.{parse_arguments-last_given}
use buildbox_common.Runner.Options.Verbose.{parse_arguments-without_verbose, without_verbose}
use buildbox_common.Runner.Main.{ends, run_action}
use buildbox_common.Runner.Main.Recorded.{Recorded, IsUndisturbed, run_action-Recorded}
use buildbox_common.Runner.Main.Completed.{Completed, run_action-Completed}

abbrev no_options : ConnectionOptions
no_options = record {
  url = none;
  instance_name = none;
  server_cert = none;
  server_cert_path = none;
  client_key = none;
  client_key_path = none;
  client_cert = none;
  client_cert_path = none;
  access_token_path = none;
  token_reload_interval = none;
  retry_limit = some (codes "4");
  retry_delay = some (codes "1000");
  load_balancing_policy = none;
  use_googleapi_auth = false;
}

abbrev silent : Logger
silent = record {
  d_log_output_directory = none;
  d_glog_initialized = false;
  flags_log_dir = none;
  flags_logtostderr = false;
  flags_alsologtostderr = false;
  flags_stderrthreshold = 2;
  vlog_level = none;
}

abbrev fresh : Runner
fresh = make_runner no_options silent

abbrev to_file : Runner
to_file = record fresh { d_input_path = codes "/in"; d_output_path = codes "/out" }

abbrev digest : Digest
digest = record { hash_other = codes "d"; size_bytes = 3 }

abbrev command : Command
command = record {
  arguments = codes "/bin/true" ∷ [];
  output_files = [];
  output_directories = [];
  output_paths = codes "out/log" ∷ (codes "done" ∷ []);
  working_directory = [];
}

abbrev empty_result : ActionResult
empty_result = record {
  exit_code = 0;
  stdout_digest = none;
  stderr_digest = none;
  execution_metadata = record {
    worker_start_timestamp = none;
    worker_completed_timestamp = none;
    execution_start_timestamp = none;
    execution_completed_timestamp = none;
  };
  outputs = [];
}

-- A host on which all works but the fetching of the command, which gives `fetched`.
abbrev host : Answer Command → Host
host fetched = record {
  World = ℕ;
  parse_subclass_arg = λ arg w. (false, w);
  execute = λ r c root w. (inr empty_result, r, suc w);
  is_directory = λ path w. some true;
  serialize = λ action. codes "action";
  hash = λ text. record { hash_other = text; size_bytes = length text };
  now = λ w. (w, suc w);
  read_action_file = λ path w. inr (record { command_digest = digest; input_root_digest = digest });
  write_status = λ status path w. (true, suc w);
  write_result = λ result path w. (true, suc w);
  sigaction = λ signal w. (true, suc w);
  signal_status = λ w. 0;
  init_client = λ options w. (true, suc w);
  fetch_command_message = λ d w. (fetched, suc w);
}

abbrev not_found : RpcStatus
not_found = record { code = 5; message = codes "not found" }

abbrev lacking : Host
lacking = host (grpc_failure not_found)

abbrev failed_code : Answer Command → ℕ
failed_code (grpc_failure status) = status.code
failed_code _ = 0

lacking-IsUndisturbed : IsUndisturbed lacking
lacking-IsUndisturbed = record {
  registers = λ signal w. refl;
  connects = λ o w. refl;
  quiet = λ w. refl;
  saves = λ result path w. refl;
  reports = λ status path w. refl;
  bad_status = λ d w status e z. ground (arith, ap failed_code e);
  keeps = λ r c root w. refl;
}

run_action-Recorded_example :
    Recorded lacking (codes "/out") (run_action lacking (codes "runner") to_file 0)
unfolding make_runner
run_action-Recorded_example =
    run_action-Recorded lacking lacking-IsUndisturbed b'/' (codes "out") b'r' (codes "unner")
      to_file 0 refl refl

-- The clock twice, two signals, the client, the command, its execution and the file of the result.
run_ends : run_action (host (answer command)) (codes "runner") to_file 0 ≡ ends 0 8
unfolding run_action buildbox_common.Logging.initialize make_runner
    buildbox_common.Runner.Main.read_action buildbox_common.Runner.Main.with_action
    buildbox_common.Runner.Main.register_signals buildbox_common.Runner.Main.initialize_cas_client
    buildbox_common.Runner.Main.fetch_command buildbox_common.Runner.Main.run_command
    buildbox_common.Runner.Main.write_action_result
run_ends = refl

run_action-Completed_example : Completed (host (answer command)) (codes "runner") to_file 0 8
run_action-Completed_example =
    run_action-Completed (host (answer command)) (codes "runner") to_file 0 8 run_ends

abbrev arguments : List Text
arguments =
    codes "--action=/a"
    ∷ (codes "--remote=http://cas" ∷ (codes "--verbose" ∷ (codes "--action=/b" ∷ [])))

abbrev parsed_runner : Runner
parsed_runner = record fresh {
  d_input_path = codes "/b";
  d_cas_remote = record no_options { url = some (codes "http://cas") };
}

arguments_parse : parse_arguments lacking arguments fresh 0 ≡ parsed_options parsed_runner 0
unfolding parse_arguments buildbox_common.Connection.parse_arg make_runner
    buildbox_common.Logging.set_log_level
arguments_parse = refl

parse_arguments-last_given_example :
    field_of input_path parsed_runner ≡ last_given input_path (field_of input_path fresh) arguments
parse_arguments-last_given_example =
    parse_arguments-last_given lacking input_path arguments fresh parsed_runner 0 0 (λ arg v. refl)
      arguments_parse

parse_arguments-without_verbose_example :
    parse_arguments lacking arguments fresh 0
    ≡ parse_arguments lacking (without_verbose arguments) fresh 0
unfolding make_runner
parse_arguments-without_verbose_example =
    parse_arguments-without_verbose lacking arguments fresh 0 refl (λ v. refl)
