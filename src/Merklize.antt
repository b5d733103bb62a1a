-- ===== src/Merklize.antt =====
-- `NestedDirectory` and `File` (buildbox-common/buildboxcommon/buildboxcommon_merklize.h and .cpp).
-- A `std::map` from names is a list of pairs in the order of the names' bytes. What makes the objects
-- from the file system is not modelled.
pub mod Messages
pub mod Adds
pub mod Replay
pub mod Closed
mod Tests
use buildbox_common.Prelude.{
  ℕ, Bool, true, false, ◌&&◌, List, [], ◌∷◌, Option, none, some, ltb, ◌==◌, if◌then◌else◌, Text,
  text_eq, codes,
}
use buildbox_common.Digest.{Digest}
use buildbox_common.Path.{is_nil}
use buildbox_common.Path.Split.{split}

-- `d_mtime` counts microseconds.
pub record File : Type 0 where
  pub d_digest : Digest
  pub d_executable : Bool
  pub d_mtime_set : Bool
  pub d_mtime : ℕ

-- `d_files`, `d_symlinks` and `d_subdirs`.
mutual
  pub data NestedDirectory : Type 0 where
    nested : List (Text × File) → List (Text × Text) → Subdirs → NestedDirectory

  pub data Subdirs : Type 0 where
    end : Subdirs
    entry : Text → NestedDirectory → Subdirs → Subdirs

abbrev pub empty : NestedDirectory
empty = nested [] [] end

-- `operator<` of `std::string`.
unfoldable pub text_lt : Text → Text → Bool
text_lt [] [] = false
text_lt [] (y ∷ ys) = true
text_lt (x ∷ xs) [] = false
text_lt (x ∷ xs) (y ∷ ys) =
    let rest = text_lt xs ys in if ltb x y then true else if x == y then rest else false

-- `m[name] = value`
unfoldable pub put : {V : Type 0} → List (Text × V) → Text → V → List (Text × V)
put [] name value = (name, value) ∷ []
put ((n, v) ∷ rest) name value =
    let more = put rest name value in
    if text_eq n name
    then (n, value) ∷ rest
    else if text_lt name n
    then (name, value) ∷ (n, v) ∷ rest
    else (n, v) ∷ more

-- `subdirs[name]`: what is there, and else a new directory.
unfoldable pub get_subdir : Subdirs → Text → NestedDirectory
get_subdir end name = empty
get_subdir (entry n d rest) name =
    let more = get_subdir rest name in if text_eq n name then d else more

-- `subdirs.count(name) != 0`
unfoldable pub has_subdir : Subdirs → Text → Bool
has_subdir end name = false
has_subdir (entry n d rest) name =
    let more = has_subdir rest name in if text_eq n name then true else more

-- `subdirs[name] = directory`
unfoldable pub put_subdir : Subdirs → Text → NestedDirectory → Subdirs
put_subdir end name directory = entry name directory end
put_subdir (entry n d rest) name directory =
    let more = put_subdir rest name directory in
    if text_eq n name
    then entry n directory rest
    else if text_lt name n
    then entry name directory (entry n d rest)
    else entry n d more

-- `(*d_subdirs)[name].f(...)`
unfoldable pub update_subdir :
    NestedDirectory → Text → (NestedDirectory → NestedDirectory) → NestedDirectory
unfolding get_subdir put_subdir
update_subdir (nested files symlinks subdirs) name f =
    nested files symlinks (put_subdir subdirs name (f (get_subdir subdirs name)))

abbrev pub put_file : NestedDirectory → Text → File → NestedDirectory
put_file (nested files symlinks subdirs) name file = nested (put files name file) symlinks subdirs

abbrev pub put_symlink : NestedDirectory → Text → Text → NestedDirectory
put_symlink (nested files symlinks subdirs) name target =
    nested files (put symlinks name target) subdirs

-- The calls of `add`, `addSymlink` and `addDirectory` for the parts that `strchr` cuts their path into:
-- an empty part is skipped, any other but the last names a subdirectory, and the last one is put.
unfoldable pub at_path :
    (NestedDirectory → Text → NestedDirectory) → List Text → NestedDirectory → NestedDirectory
unfolding text_eq update_subdir
at_path at_last [] dir = dir
at_path at_last (name ∷ []) dir = at_last dir name
at_path at_last (name ∷ next ∷ rest) dir =
    let below = at_path at_last (next ∷ rest) in
    if text_eq name [] then below dir else update_subdir dir name below

-- `add`
unfoldable pub add : File → Text → NestedDirectory → NestedDirectory
unfolding at_path split
add file relative_path dir = at_path (λ d name. put_file d name file) (split relative_path) dir

-- `addSymlink`
unfoldable pub add_symlink : Text → Text → NestedDirectory → NestedDirectory
unfolding at_path split
add_symlink target relative_path dir =
    at_path (λ d name. put_symlink d name target) (split relative_path) dir

-- `addDirectory`'s last step: an empty directory, unless there is one of that name.
unfoldable pub put_directory : NestedDirectory → Text → NestedDirectory
unfolding has_subdir put_subdir
put_directory (nested files symlinks subdirs) name =
    if has_subdir subdirs name
    then nested files symlinks subdirs
    else nested files symlinks (put_subdir subdirs name empty)

-- `addDirectory`, on the parts of its path: a lone slash, which is two empty parts, is refused.
unfoldable pub add_directory_parts : List Text → NestedDirectory → NestedDirectory
unfolding put_directory update_subdir is_nil text_eq
add_directory_parts [] dir = dir
add_directory_parts (name ∷ []) dir = put_directory dir name
add_directory_parts (name ∷ next ∷ rest) dir =
    let below = add_directory_parts (next ∷ rest) in
    if text_eq name [] && text_eq next [] && is_nil rest
    then dir
    else if text_eq name []
    then below dir
    else update_subdir dir name below

unfoldable pub add_directory : Text → NestedDirectory → NestedDirectory
unfolding add_directory_parts split
add_directory directory dir = add_directory_parts (split directory) dir
