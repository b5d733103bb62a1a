-- ===== src/StagedDirectory.antt =====
-- `StagedDirectory` and `StagedDirectoryUtils`
-- (buildbox-common/buildboxcommon/buildboxcommon_stageddirectory.cpp): the capture of the outputs of a
-- command, and the opening of files below the root without following links.
pub mod Open
pub mod Components
pub mod Names
pub mod Descriptors
pub mod Safe
mod Tests
use buildbox_common.Prelude.{
  ℕ, Bool, true, false, ◌||◌, List, [], ◌∷◌, ◌++◌, Option, none, some, if◌then◌else◌, Text,
  starts_with, codes,
}
use buildbox_common.Digest.{Digest}
use buildbox_common.Path.{slash, is_absolute, normalize_path, leads_out, ends_with_slash}
use buildbox_common.Runner.{Command}

-- `getWorkingDirectory`, of the `working_directory` of a command; `none` is the exception.
unfoldable pub working_directory_of : Text → Option Text
working_directory_of [] = some []
working_directory_of (c ∷ cs) =
    let dir = normalize_path (c ∷ cs) ++ slash ∷ [] in
    if is_absolute dir then none else if starts_with (codes "../") dir then none else some dir

-- `assertNoInvalidSlashes`; `false` is the exception.
abbrev pub no_invalid_slashes : Text → Bool
no_invalid_slashes path = if is_absolute path || ends_with_slash path then false else true

-- `assertPathInsideInputRoot`
abbrev pub inside_input_root : Text → Option Text
inside_input_root path = if leads_out path then none else some path

-- `pathInInputRoot`
unfoldable pub path_in_input_root : Text → Text → Option Text
unfolding ends_with_slash
path_in_input_root name working_directory =
    if no_invalid_slashes name
    then inside_input_root (normalize_path (working_directory ++ name))
    else none

-- The messages of remote_execution.proto: a directory has no more than its tree's digest.
pub record OutputFile : Type 0 where
  pub path : Text
  pub digest : Digest
  pub is_executable : Bool
  pub mtime : Option ℕ

pub record OutputDirectory : Type 0 where
  pub path : Text
  pub tree_digest : Digest

-- The kind of a file that `lstat` finds, none at ENOENT, and the exception.
pub data StatMode : Type 0 where
  is_dir is_reg is_other is_absent stat_failed : StatMode

-- `none` is the exception of a callback. The path that `getStatMode` is given is relative to the
-- root, to which `makePathAbsolute` leads.
pub record Capture : Type 1 where
  pub World : Type 0
  pub capture_file_function : Text → World → Option OutputFile × World
  pub capture_directory_function : Text → World → Option OutputDirectory × World
  pub get_stat_mode : Text → World → StatMode

-- What has been added to the result.
pub record Captured : Type 0 where
  pub output_files : List OutputFile
  pub output_directories : List OutputDirectory

-- `captureFile` on what the callback returned, and the addition to the result.
unfoldable pub with_output_file : Text → OutputFile → Captured → Captured
with_output_file name file result = elim file.path [
  | [] ↦ result
  | c ∷ cs ↦ elim name [
    | [] ↦ result
    | d ∷ ds ↦ record result {
      output_files = result.output_files ++ (record file { path = d ∷ ds }) ∷ [];
    }
  ]
]

unfoldable pub with_output_directory : Text → OutputDirectory → Captured → Captured
with_output_directory name dir result = elim dir.path [
  | [] ↦ result
  | c ∷ cs ↦ elim name [
    | [] ↦ result
    | d ∷ ds ↦ record result {
      output_directories = result.output_directories ++ (record dir { path = d ∷ ds }) ∷ [];
    }
  ]
]

module _ (C : Capture) where
  abbrev pub Captures : Type 0
  Captures = Option Captured × C.World

  abbrev pub add_output_file : Text → Captured → Option OutputFile × C.World → Captures
  add_output_file name result (none, w) = (none, w)
  add_output_file name result (some file, w) = (some (with_output_file name file result), w)

  abbrev pub add_output_directory : Text → Captured → Option OutputDirectory × C.World → Captures
  add_output_directory name result (none, w) = (none, w)
  add_output_directory name result (some dir, w) = (some (with_output_directory name dir result), w)

  -- The lambdas `captureFileAndAddToResult` and `captureDirectoryAndAddToResult`.
  abbrev pub capture_file : Text → Text → Captured → C.World → Captures
  capture_file name path result w = add_output_file name result (C.capture_file_function path w)

  abbrev pub capture_directory : Text → Text → Captured → C.World → Captures
  capture_directory name path result w =
      add_output_directory name result (C.capture_directory_function path w)

  -- The body of the loop over the output paths, on an output's path in the root.
  abbrev pub capture_by_mode : Text → Text → StatMode → Captured → C.World → Captures
  capture_by_mode name path is_absent result w = (some result, w)
  capture_by_mode name path is_dir result w = capture_directory name path result w
  capture_by_mode name path is_reg result w = capture_file name path result w
  capture_by_mode name path is_other result w = (none, w)
  capture_by_mode name path stat_failed result w = (none, w)

  abbrev pub capture_path : Text → Text → Captured → C.World → Captures
  capture_path name path result w = capture_by_mode name path (C.get_stat_mode path w) result w

  abbrev pub at_root_path :
      (Text → Captured → C.World → Captures) → Option Text → Captured → C.World → Captures
  at_root_path capture none result w = (none, w)
  at_root_path capture (some path) result w = capture path result w

  abbrev pub then_capture : (Captured → C.World → Captures) → Captures → Captures
  then_capture go_on (none, w) = (none, w)
  then_capture go_on (some result, w) = go_on result w

  -- A loop over outputs, by what it does with each.
  unfoldable pub capture_each :
      (Text → Text → Captured → C.World → Captures)
      → Text
      → List Text
      → Captured
      → C.World
      → Captures
  capture_each capture dir [] result w = (some result, w)
  capture_each capture dir (name ∷ rest) result w =
      then_capture (capture_each capture dir rest)
        (at_root_path (capture name) (path_in_input_root name dir) result w)

  abbrev pub capture_outputs : List Text → Command → Text → Captured → C.World → Captures
  capture_outputs (p ∷ ps) command dir result w = capture_each capture_path dir (p ∷ ps) result w
  capture_outputs [] command dir result w =
      then_capture (capture_each capture_directory dir command.output_directories)
        (capture_each capture_file dir command.output_files result w)

  abbrev pub capture_in : Command → Option Text → Captured → C.World → Captures
  capture_in command none result w = (none, w)
  capture_in command (some dir) result w = capture_outputs command.output_paths command dir result w

  -- `captureAllOutputs`; what is in the result when an exception leaves it is not kept.
  unfoldable pub capture_all_outputs : Command → Captured → C.World → Captures
  unfolding working_directory_of path_in_input_root
  capture_all_outputs command result w =
      capture_in command (working_directory_of command.working_directory) result w
