-- ===== src/Runner.antt =====
-- `Runner` (buildbox-common/buildboxcommon/buildboxcommon_runner.h and .cpp): the program that reads an
-- action, has a subclass execute its command, and writes the result. What it calls that is not its
-- own is the record `Host`.
pub mod Options
pub mod Main
pub mod Outputs
pub mod Execution
mod Tests
use buildbox_common.Prelude.{ℕ, Bool, true, false, List, [], ◌∷◌, Option, none, some, Text, ◌⊎◌}
use buildbox_common.Digest.{Digest}
use buildbox_common.Connection.{ConnectionOptions}
use buildbox_common.Logging.{LogLevel, info, Logger}

pub record StandardOutputsCaptureConfig : Type 0 where
  pub stdout_file_path : Text
  pub stderr_file_path : Text
  pub skip_capture : Bool

-- The members of `Runner`, and the `Logger` of the process.
pub record Runner : Type 0 where
  pub d_use_localcas_protocol : Bool
  pub d_stage_path : Text
  pub d_action_digest : Digest
  pub d_standard_outputs_capture_config : StandardOutputsCaptureConfig
  pub d_validate_parameters_and_exit : Bool
  pub d_cas_remote : ConnectionOptions
  pub d_input_path : Text
  pub d_output_path : Text
  pub d_log_level : LogLevel
  pub logger : Logger

-- A new `Runner`, for the defaults of `ConnectionOptions` and the logger of the process.
unfoldable pub make_runner : ConnectionOptions → Logger → Runner
make_runner remote logger = record {
  d_use_localcas_protocol = true;
  d_stage_path = [];
  d_action_digest = record { hash_other = []; size_bytes = 0 };
  d_standard_outputs_capture_config = record {
    stdout_file_path = [];
    stderr_file_path = [];
    skip_capture = false;
  };
  d_validate_parameters_and_exit = false;
  d_cas_remote = remote;
  d_input_path = [];
  d_output_path = [];
  d_log_level = info;
  logger = logger;
}

-- `setOutputPath`; `none` is the exception.
unfoldable pub set_output_path : Runner → Text → Option Runner
set_output_path r path = elim r.d_output_path [
  | [] ↦ some (record r { d_output_path = path })
  | c ∷ old ↦ none
]

-- The messages of remote_execution.proto, with the fields that the runner reads or writes; the others
-- of an `ActionResult` are `outputs`, in serialized form. A timestamp is a number of microseconds.
pub record Action : Type 0 where
  pub command_digest : Digest
  pub input_root_digest : Digest

pub record Command : Type 0 where
  pub arguments : List Text
  pub output_files : List Text
  pub output_directories : List Text
  pub output_paths : List Text
  pub working_directory : Text

pub record ExecutedActionMetadata : Type 0 where
  pub worker_start_timestamp : Option ℕ
  pub worker_completed_timestamp : Option ℕ
  pub execution_start_timestamp : Option ℕ
  pub execution_completed_timestamp : Option ℕ

pub record ActionResult : Type 0 where
  pub exit_code : ℕ
  pub stdout_digest : Option Digest
  pub stderr_digest : Option Digest
  pub execution_metadata : ExecutedActionMetadata
  pub outputs : Text

-- The message `google.rpc.Status`.
pub record RpcStatus : Type 0 where
  pub code : ℕ
  pub message : Text

-- A value, or an exception with what it carries: a `GrpcError`, or the text of another.
pub data Answer (A : Type 0) : Type 0 where
  answer : A → Answer A
  grpc_failure : RpcStatus → Answer A
  failure : Text → Answer A

-- What the runner calls: the subclass, the client, protobuf's files, the clock and the system. Of the
-- Boolean results `false` is a failure. The world holds the members of the subclass, too.
pub record Host : Type 1 where
  pub World : Type 0
  -- The subclass's `parseArg` and `execute`, which can set the members of the runner.
  pub parse_subclass_arg : Text → World → Bool × World
  pub execute : Runner → Command → Digest → World → (Text ⊎ ActionResult) × Runner × World
  -- `FileUtils::isDirectory`, with `none` for its exception.
  pub is_directory : Text → World → Option Bool
  -- Protobuf's `SerializeAsString` of an action, and `CASHash::hash`.
  pub serialize : Action → Text
  pub hash : Text → Digest
  -- `TimeUtils::now`
  pub now : World → ℕ × World
  -- `ProtoUtils::readProtobufFromFile` and `ProtoUtils::writeProtobufToFile`
  pub read_action_file : Text → World → Text ⊎ Action
  pub write_status : RpcStatus → Text → World → Bool × World
  pub write_result : ActionResult → Text → World → Bool × World
  pub sigaction : ℕ → World → Bool × World
  -- What the handler of the signals has stored.
  pub signal_status : World → ℕ
  -- `Client::init` and `Client::fetchMessage<Command>`
  pub init_client : ConnectionOptions → World → Bool × World
  pub fetch_command_message : Digest → World → Answer Command × World
