-- ===== src/StagedDirectory/Safe.antt =====
-- The paths with which the outputs of a command are captured.
use buildbox_common.Prelude.{◌≡◌, refl, List, [], ◌∷◌, Option, none, some, Text, All}
use buildbox_common.Runner.{Command}
use buildbox_common.StagedDirectory.{
  working_directory_of, path_in_input_root, OutputFile, OutputDirectory, StatMode, is_dir, is_reg,
  is_other, is_absent, stat_failed, Capture, Captured, Captures, add_output_file,
  add_output_directory, capture_file, capture_directory, capture_by_mode, capture_path,
  at_root_path, then_capture, capture_each, capture_outputs, capture_in, capture_all_outputs,
}
use buildbox_common.StagedDirectory.Open.{components}
use buildbox_common.StagedDirectory.Names.{IsName, path_in_input_root-IsName}

-- A path whose components are names leads to what is below the root.
abbrev pub IsBelowRoot : Text → Type 0
IsBelowRoot path = All IsName (components path)

module _ (C : Capture) (Holds : C.World → Type 0) where
  -- The callbacks keep what holds, on paths below the root.
  pub record IsKept : Type 0 where
    pub by_file :
        (path : Text) (w : C.World)
        → IsBelowRoot path
        → Holds w
        → Holds (C.capture_file_function path w).1
    pub by_directory :
        (path : Text) (w : C.World)
        → IsBelowRoot path
        → Holds w
        → Holds (C.capture_directory_function path w).1

  module _ (K : IsKept) where
    file_added :
        (name : Text) (result : Captured) (x : Option OutputFile × C.World)
        → Holds x.1
        → Holds (add_output_file C name result x).1
    file_added name result (none, w) h = h
    file_added name result (some file, w) h = h

    directory_added :
        (name : Text) (result : Captured) (x : Option OutputDirectory × C.World)
        → Holds x.1
        → Holds (add_output_directory C name result x).1
    directory_added name result (none, w) h = h
    directory_added name result (some dir, w) h = h

    -- What captures one output, by its path in the root.
    abbrev Keeps : (Text → Text → Captured → C.World → Captures C) → Type 0
    Keeps capture =
        (name path : Text) (result : Captured) (w : C.World)
        → IsBelowRoot path
        → Holds w
        → Holds (capture name path result w).1

    file-Keeps : Keeps (capture_file C)
    file-Keeps name path result w b h =
        file_added name result (C.capture_file_function path w) (K.by_file path w b h)

    directory-Keeps : Keeps (capture_directory C)
    directory-Keeps name path result w b h =
        directory_added name result (C.capture_directory_function path w)
          (K.by_directory path w b h)

    path-Keeps : Keeps (capture_path C)
    path-Keeps name path result w b h = go (C.get_stat_mode path w)
      where
        go : (mode : StatMode) → Holds (capture_by_mode C name path mode result w).1
        go is_absent = h
        go is_dir = directory-Keeps name path result w b h
        go is_reg = file-Keeps name path result w b h
        go is_other = h
        go stat_failed = h

    then_kept :
        (go_on : Captured → C.World → Captures C) (x : Captures C)
        → ((result : Captured) (w : C.World) → Holds w → Holds (go_on result w).1)
        → Holds x.1
        → Holds (then_capture C go_on x).1
    then_kept go_on (none, w) k h = h
    then_kept go_on (some result, w) k h = k result w h

    each_kept :
        (capture : Text → Text → Captured → C.World → Captures C) (working dir : Text)
        (names : List Text)
        → Keeps capture
        → working_directory_of working ≡ some dir
        → (result : Captured) (w : C.World) → Holds w
        → Holds (capture_each C capture dir names result w).1
    unfolding capture_each
    each_kept capture working dir [] k e result w h = h
    each_kept capture working dir (name ∷ rest) k e result w h =
        then_kept (capture_each C capture dir rest)
          (at_root_path C (capture name) (path_in_input_root name dir) result w)
          (each_kept capture working dir rest k e) (go (path_in_input_root name dir) refl)
      where
        go :
            (x : Option Text)
            → path_in_input_root name dir ≡ x
            → Holds (at_root_path C (capture name) x result w).1
        go none same = h
        go (some path) same =
            k name path result w (path_in_input_root-IsName working dir name path e same) h

    outputs_kept :
        (command : Command) (dir : Text) (paths : List Text)
        → working_directory_of command.working_directory ≡ some dir
        → (result : Captured) (w : C.World) → Holds w
        → Holds (capture_outputs C paths command dir result w).1
    outputs_kept command dir (p ∷ ps) e result w h =
        each_kept (capture_path C) command.working_directory dir (p ∷ ps) path-Keeps e result w h
    outputs_kept command dir [] e result w h =
        then_kept (capture_each C (capture_directory C) dir command.output_directories)
          (capture_each C (capture_file C) dir command.output_files result w)
          (each_kept (capture_directory C) command.working_directory dir command.output_directories
            directory-Keeps e)
          (each_kept (capture_file C) command.working_directory dir command.output_files file-Keeps
            e result w h)

    -- What holds of the world, and is kept by the callbacks on each path whose components are names, not
    -- empty, without a slash and other than the one that leads to the parent, is kept by
    -- `captureAllOutputs`, whatever the outputs of the command and whether it throws or not: it
    -- calls them on no other path.
    pub capture_all_outputs-kept :
        (command : Command) (result : Captured) (w : C.World)
        → Holds w
        → Holds (capture_all_outputs C command result w).1
    unfolding capture_all_outputs
    capture_all_outputs-kept command result w h =
        go (working_directory_of command.working_directory) refl
      where
        go :
            (x : Option Text)
            → working_directory_of command.working_directory ≡ x
            → Holds (capture_in C command x result w).1
        go none e = h
        go (some dir) e = outputs_kept command dir command.output_paths e result w h
