-- ===== src/Merklize/Tests.antt =====
-- A directory with a file in a subdirectory, and what its messages hold.
use buildbox_common.Prelude.{
  ◌≡◌, refl, true, false, List, [], ◌∷◌, ◌++◌, map, Text, codes, length, All,
}
use buildbox_common.Digest.{Digest}
use buildbox_common.Merklize.{File, NestedDirectory, nested, end, entry, empty, add, add_directory}
use buildbox_common.Merklize.Messages.{
  Directory, make_digest, to_digest, to_tree, entry_of, all_directories, to_digest-to_tree,
}
use buildbox_common.Merklize.Replay.{files_of, symlinks_of, look}
use buildbox_common.Merklize.Replay.Runs.{
  Call, add_call, add_symlink_call, add_directory_call, run, replay_files, replay_symlinks,
  run_refines,
}
use buildbox_common.Merklize.Closed.{NamesIn, to_tree-NamesIn}

abbrev script : File
script = record {
  d_digest = record { hash_other = codes "s"; size_bytes = 7 };
  d_executable = true;
  d_mtime_set = false;
  d_mtime = 0;
}

abbrev bin : NestedDirectory
bin = nested [] [] (entry (codes "bin") (nested ((codes "run", script) ∷ []) [] end) end)

added : add script (codes "/bin//run") empty ≡ bin
unfolding add buildbox_common.Merklize.put
added = refl

-- A slash at the end makes a subdirectory with no name.
add_directory_slash :
    add_directory (codes "a/") empty
    ≡ nested [] [] (entry (codes "a") (nested [] [] (entry [] empty end)) end)
unfolding add_directory
add_directory_slash = refl

-- Sizes in place of the bytes and the hash.
abbrev serialize : Directory → Text
serialize d = length d.files ∷ length d.symlinks ∷ length d.directories ∷ []

abbrev hash : Text → Digest
hash blob = record { hash_other = blob; size_bytes = length blob }

to_digest-to_tree_example : to_digest serialize hash bin [] ≡ (
  make_digest serialize hash (to_tree serialize hash bin).root,
  [] ++ map (entry_of serialize hash) (all_directories serialize hash (to_tree serialize hash bin)),
)
to_digest-to_tree_example = to_digest-to_tree serialize hash bin []

to_tree-NamesIn_example :
    All
      (NamesIn (make_digest serialize hash) (to_tree serialize hash bin).children)
      (all_directories serialize hash (to_tree serialize hash bin))
to_tree-NamesIn_example = to_tree-NamesIn serialize hash bin

abbrev calls : List Call
calls =
    add_call script (codes "bin/run")
    ∷ add_symlink_call (codes "bin/run") (codes "run")
    ∷ add_directory_call (codes "bin/logs")
    ∷ add_call (record script { d_executable = false }) (codes "/bin/run")
    ∷ []

run_refines_example :
    (look files_of (run calls empty) ≡ replay_files calls (look files_of empty))
    × (look symlinks_of (run calls empty) ≡ replay_symlinks calls (look symlinks_of empty))
run_refines_example = run_refines calls empty
