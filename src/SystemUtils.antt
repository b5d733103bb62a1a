-- ===== src/SystemUtils.antt =====
-- `SystemUtils` (buildbox-common/buildboxcommon/buildboxcommon_systemutils.cpp). The system calls are
-- parameters.
pub mod Waits
pub mod Reaped
pub mod Lookup
use buildbox_common.Prelude.{
  ℕ, zero, suc, ◌+◌, ◌*◌, ◌%◌, ◌^◌, Bool, true, false, ◌&&◌, List, [], ◌∷◌, ◌++◌, Option, none,
  some, ◌==◌, if◌then◌else◌, Text,
}

abbrev pub enoent : ℕ
enoent = 2

abbrev pub eintr : ℕ
eintr = 4

abbrev pub erange : ℕ
erange = 34

-- `executeCommand` where `execv` fails, by its `errno`; where it does not fail it does not return.
unfoldable pub exec_failure : ℕ → ℕ
exec_failure errno = if errno == enoent then 127 else 126

-- What `waitpid` answers: -1 with its `errno`, or a status that holds an exit code, a signal, or
-- neither.
pub data WaitStatus : Type 0 where
  wait_failed wait_exited wait_signaled : ℕ → WaitStatus
  wait_unexpected : WaitStatus

-- An exit code, `-EINTR`, or an exception; `out_of_fuel` is a loop cut short.
pub data WaitResult : Type 0 where
  exit_code : ℕ → WaitResult
  minus_eintr wait_system_error wait_runtime_error out_of_fuel : WaitResult

-- `waitPidOrSignal`
unfoldable pub waited_of : WaitStatus → WaitResult
waited_of (wait_failed errno) = if errno == eintr then minus_eintr else wait_system_error
waited_of (wait_exited code) = exit_code code
waited_of (wait_signaled signal) = exit_code (128 + signal)
waited_of wait_unexpected = wait_runtime_error

module _ {W : Type 0} (waitpid : W → WaitStatus × W) where
  abbrev pub wait_pid_or_signal : W → WaitResult × W
  wait_pid_or_signal w = let (status, w') = waitpid w in (waited_of status, w')

  abbrev pub keep_waiting : (W → WaitResult × W) → WaitResult × W → WaitResult × W
  keep_waiting again (minus_eintr, w) = again w
  keep_waiting again (exit_code code, w) = (exit_code code, w)
  keep_waiting again (wait_system_error, w) = (wait_system_error, w)
  keep_waiting again (wait_runtime_error, w) = (wait_runtime_error, w)
  keep_waiting again (out_of_fuel, w) = (out_of_fuel, w)

  -- `waitPid`
  unfoldable pub wait_pid : ℕ → W → WaitResult × W
  wait_pid zero w = (out_of_fuel, w)
  wait_pid (suc fuel) w = keep_waiting (wait_pid fuel) (wait_pid_or_signal w)

  -- `executeCommandAndWait` in the parent; `fork` is -1 for `false`.
  unfoldable pub execute_command_and_wait : ℕ → (W → Bool × W) → W → WaitResult × W
  execute_command_and_wait fuel fork w =
      let (forked, w') = fork w in if forked then wait_pid fuel w' else (wait_system_error, w')

-- The tokens of `strtok(text, ":")`: the parts between colons that are not empty.
unfoldable pub tokens_from : Text → Text → List Text
tokens_from [] [] = []
tokens_from (t ∷ ts) [] = (t ∷ ts) ∷ []
tokens_from token (c ∷ rest) = elim (c == b':') [
  | false ↦ tokens_from (token ++ c ∷ []) rest
  | true ↦ elim token [ [] ↦ tokens_from [] rest | t ∷ ts ↦ (t ∷ ts) ∷ tokens_from [] rest ]
]

unfoldable pub has_slash : Text → Bool
has_slash [] = false
has_slash (c ∷ rest) = let more = has_slash rest in if c == b'/' then true else more

-- The path, or the exception of `FileUtils::isRegularFile`.
pub data Located : Type 0 where
  located : Text → Located
  stat_error : Located

abbrev pub in_directory : Text → Text → Text
in_directory dir command = dir ++ (b'/' ∷ command)

-- `FileUtils::isRegularFile`, with `none` for its exception, and `FileUtils::isExecutable`.
module _ (is_regular_file : Text → Option Bool) (is_executable : Text → Bool) where
  -- One round of the loop.
  abbrev pub try_path : Text → Located → Option Bool → Located
  try_path path more none = stat_error
  try_path path more (some regular) = if regular && is_executable path then located path else more

  unfoldable pub search_path : Text → List Text → Located
  search_path command [] = located []
  search_path command (dir ∷ rest) =
      let more = search_path command rest in
      let path = in_directory dir command in try_path path more (is_regular_file path)

  -- `getPathToCommand`, with `$PATH`.
  unfoldable pub get_path_to_command : Option Text → Text → Located
  get_path_to_command path_variable command =
      if has_slash command then located command else elim path_variable [
        | none ↦ located []
        | some path ↦ search_path command (tokens_from [] path)
      ]

-- What `getcwd` answers.
pub data CwdAnswer : Type 0 where
  cwd_is : Text → CwdAnswer
  cwd_failed : ℕ → CwdAnswer

-- The directory, or the exception; `cwd_fuel` is a loop cut short.
pub data Cwd : Type 0 where
  cwd : Text → Cwd
  cwd_error cwd_fuel : Cwd

module _ (getcwd : ℕ → CwdAnswer) where
  abbrev pub after_getcwd : Cwd → CwdAnswer → Cwd
  after_getcwd again (cwd_is dir) = cwd dir
  after_getcwd again (cwd_failed errno) = if errno == erange then again else cwd_error

  -- The loop of `get_current_working_directory`, whose size is an `unsigned int` of 32 bits.
  unfoldable pub cwd_loop : ℕ → ℕ → Cwd
  cwd_loop zero buffer_size = cwd_fuel
  cwd_loop (suc fuel) buffer_size =
      let again = cwd_loop fuel (buffer_size * 2 % 2 ^ 32) in
      after_getcwd again (getcwd buffer_size)

  -- From 1024 to 2^31, and then the size 0 that follows when the number wraps.
  unfoldable pub get_current_working_directory : Cwd
  get_current_working_directory = cwd_loop 23 1024
