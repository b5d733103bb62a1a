-- ===== src/Merklize/Replay/Runs.antt =====
-- Any sequence of calls on a `NestedDirectory`, against two maps from paths.
use buildbox_common.Prelude.{
  ◌≡◌, refl, ap, ◌∙◌, inl, inr, List, [], ◌∷◌, Option, some, if◌then◌else◌, Text, Bool-cases,
  text_eq,
}
use buildbox_common.Merklize.{
  File, NestedDirectory, nested, put_file, put_symlink, put_directory, update_subdir, has_subdir,
  add, add_symlink, add_directory,
}
use buildbox_common.Merklize.Adds.{find-put, find_in, same_path}
use buildbox_common.Merklize.Replay.{
  files_of, symlinks_of, subdir_of, look, look-add_path, look-keep_path, look-directory,
}

-- A call.
pub data Call : Type 0 where
  add_call : File → Text → Call
  add_symlink_call : Text → Text → Call
  add_directory_call : Text → Call

unfoldable pub run : List Call → NestedDirectory → NestedDirectory
run [] dir = dir
run (add_call file path ∷ calls) dir = run calls (add file path dir)
run (add_symlink_call target path ∷ calls) dir = run calls (add_symlink target path dir)
run (add_directory_call path ∷ calls) dir = run calls (add_directory path dir)

abbrev pub update : {V : Type 0} → (Text → Option V) → Text → V → Text → Option V
update map path v other = if same_path path other then some v else map other

-- The same calls on a map of files, and on a map of symbolic links.
unfoldable pub replay_files : List Call → (Text → Option File) → Text → Option File
replay_files [] map = map
replay_files (add_call file path ∷ calls) map = replay_files calls (update map path file)
replay_files (add_symlink_call target path ∷ calls) map = replay_files calls map
replay_files (add_directory_call path ∷ calls) map = replay_files calls map

unfoldable pub replay_symlinks : List Call → (Text → Option Text) → Text → Option Text
replay_symlinks [] map = map
replay_symlinks (add_call file path ∷ calls) map = replay_symlinks calls map
replay_symlinks (add_symlink_call target path ∷ calls) map =
    replay_symlinks calls (update map path target)
replay_symlinks (add_directory_call path ∷ calls) map = replay_symlinks calls map

files-update :
    (dir : NestedDirectory) (name : Text) (f : NestedDirectory → NestedDirectory)
    → files_of (update_subdir dir name f) ≡ files_of dir
unfolding update_subdir
files-update (nested files symlinks subdirs) name f = refl

symlinks-update :
    (dir : NestedDirectory) (name : Text) (f : NestedDirectory → NestedDirectory)
    → symlinks_of (update_subdir dir name f) ≡ symlinks_of dir
unfolding update_subdir
symlinks-update (nested files symlinks subdirs) name f = refl

put_file-find :
    (file : File) (d : NestedDirectory) (p q : Text)
    → find_in (files_of (put_file d p file)) q
      ≡ (if text_eq p q then some file else find_in (files_of d) q)
put_file-find file (nested files symlinks subdirs) p q = find-put files p file q

put_symlink-find :
    (target : Text) (d : NestedDirectory) (p q : Text)
    → find_in (symlinks_of (put_symlink d p target)) q
      ≡ (if text_eq p q then some target else find_in (symlinks_of d) q)
put_symlink-find target (nested files symlinks subdirs) p q = find-put symlinks p target q

put_file-kept :
    (file : File) (d : NestedDirectory) (p y : Text)
    → (symlinks_of (put_file d p file) ≡ symlinks_of d)
      × (subdir_of (put_file d p file) y ≡ subdir_of d y)
unfolding subdir_of
put_file-kept file (nested files symlinks subdirs) p y = (refl, refl)

put_symlink-kept :
    (target : Text) (d : NestedDirectory) (p y : Text)
    → (files_of (put_symlink d p target) ≡ files_of d)
      × (subdir_of (put_symlink d p target) y ≡ subdir_of d y)
unfolding subdir_of
put_symlink-kept target (nested files symlinks subdirs) p y = (refl, refl)

put_directory-kept :
    (d : NestedDirectory) (p : Text)
    → (files_of (put_directory d p) ≡ files_of d)
      × (symlinks_of (put_directory d p) ≡ symlinks_of d)
unfolding put_directory
put_directory-kept (nested files symlinks subdirs) p = elim (Bool-cases (has_subdir subdirs p)) [
  | inl e ↦ rw e (refl, refl)
  | inr e ↦ rw e (refl, refl)
]

add-files :
    (file : File) (path : Text) (dir : NestedDirectory)
    → look files_of (add file path dir) ≡ update (look files_of dir) path file
unfolding add
add-files file path dir = λ i other.
    look-add_path files_of files-update (λ d name. put_file d name file) file (put_file-find file)
      (λ d p y. (put_file-kept file d p y).1) path other dir i

add-symlinks :
    (file : File) (path : Text) (dir : NestedDirectory)
    → look symlinks_of (add file path dir) ≡ look symlinks_of dir
unfolding add
add-symlinks file path dir = λ i other.
    look-keep_path symlinks_of symlinks-update (λ d name. put_file d name file)
      (λ d p. (put_file-kept file d p p).0) (λ d p y. (put_file-kept file d p y).1) path other dir i

add_symlink-files :
    (target path : Text) (dir : NestedDirectory)
    → look files_of (add_symlink target path dir) ≡ look files_of dir
unfolding add_symlink
add_symlink-files target path dir = λ i other.
    look-keep_path files_of files-update (λ d name. put_symlink d name target)
      (λ d p. (put_symlink-kept target d p p).0) (λ d p y. (put_symlink-kept target d p y).1) path
      other dir i

add_symlink-symlinks :
    (target path : Text) (dir : NestedDirectory)
    → look symlinks_of (add_symlink target path dir) ≡ update (look symlinks_of dir) path target
unfolding add_symlink
add_symlink-symlinks target path dir = λ i other.
    look-add_path symlinks_of symlinks-update (λ d name. put_symlink d name target) target
      (put_symlink-find target) (λ d p y. (put_symlink-kept target d p y).1) path other dir i

-- Any sequence of calls of `add`, `addSymlink` and `addDirectory` leaves at each path the file, and the
-- symbolic link, that the same sequence leaves in a map from paths: paths with the same parts are one
-- key, the last call for a key counts, and `addDirectory` changes no file and no link.
pub run_refines :
    (calls : List Call) (dir : NestedDirectory)
    → (look files_of (run calls dir) ≡ replay_files calls (look files_of dir))
      × (look symlinks_of (run calls dir) ≡ replay_symlinks calls (look symlinks_of dir))
unfolding run replay_files replay_symlinks
run_refines [] dir = (refl, refl)
run_refines (add_call file path ∷ calls) dir =
    let (files, symlinks) = run_refines calls (add file path dir) in
    (
      files ∙ ap (replay_files calls) (add-files file path dir),
      symlinks ∙ ap (replay_symlinks calls) (add-symlinks file path dir),
    )
run_refines (add_symlink_call target path ∷ calls) dir =
    let (files, symlinks) = run_refines calls (add_symlink target path dir) in
    (
      files ∙ ap (replay_files calls) (add_symlink-files target path dir),
      symlinks ∙ ap (replay_symlinks calls) (add_symlink-symlinks target path dir),
    )
run_refines (add_directory_call path ∷ calls) dir =
    let (files, symlinks) = run_refines calls (add_directory path dir) in
    (
      files
          ∙ ap (replay_files calls) (λ i other.
            look-directory files_of files-update (λ d p. (put_directory-kept d p).0) path other dir
              i),
      symlinks
          ∙ ap (replay_symlinks calls) (λ i other.
            look-directory symlinks_of symlinks-update (λ d p. (put_directory-kept d p).1) path
              other dir i),
    )
