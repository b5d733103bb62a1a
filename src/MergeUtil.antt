-- ===== src/MergeUtil.antt =====
-- `MergeUtil::createMergedDigest` and what it calls
-- (buildbox-common/buildboxcommon/buildboxcommon_mergeutil.cpp). The maps are lists of pairs to which
-- an entry is added only if its key is new; the order in which an `unordered_map` is walked is the
-- parameter `walk`. Protobuf's serializer and parser and the hash are parameters.
pub mod Flatten
pub mod Depth
mod Tests
use buildbox_common.Prelude.{
  ℕ, zero, suc, Bool, true, false, not, ◌&&◌, ◌||◌, List, [], ◌∷◌, ◌++◌, Option, none, some,
  if◌then◌else◌, Text, text_eq, codes,
}
use buildbox_common.Digest.{Digest, digest_eq}
use buildbox_common.Merklize.{File, NestedDirectory, empty, add, add_symlink, add_directory}
use buildbox_common.Merklize.Messages.{FileNode, SymlinkNode, DirectoryNode, Directory, to_digest}

-- `NodeMetaData` and its subclasses, but for the path, which is the key in the map.
pub data NodeMetaData : Type 0 where
  file_node : Digest → Bool → NodeMetaData
  symlink_node : Text → NodeMetaData
  dir_node : Digest → NodeMetaData

-- `digest()`: that of a symlink is the empty one.
abbrev pub digest_of : NodeMetaData → Digest
digest_of (file_node d executable) = d
digest_of (symlink_node target) = record { hash_other = []; size_bytes = 0 }
digest_of (dir_node d) = d

-- `isExecutable()`
abbrev pub is_executable : NodeMetaData → Bool
is_executable (file_node d executable) = executable
is_executable _ = false

abbrev pub bool_eq : Bool → Bool → Bool
bool_eq true b = b
bool_eq false b = not b

-- `operator==` of a `NodeMetaData` and a `FileNode`
unfoldable pub same_file : NodeMetaData → FileNode → Bool
same_file node f =
    digest_eq (digest_of node) f.digest && bool_eq (is_executable node) f.is_executable

abbrev pub NodeMap : Type 0
NodeMap = List (Text × NodeMetaData)

-- `map->find(path)`
unfoldable pub find_node : NodeMap → Text → Option NodeMetaData
find_node [] path = none
find_node ((p, n) ∷ rest) path =
    let found = find_node rest path in if text_eq p path then some n else found

-- `map->emplace(path, node)`
unfoldable pub emplace : NodeMap → Text → NodeMetaData → NodeMap
unfolding find_node
emplace map path node = elim (find_node map path) [ none ↦ (path, node) ∷ map | some _ ↦ map ]

-- `genNewPath`
abbrev pub gen_new_path : Text → Text → Text
gen_new_path dir_name node_name =
    if text_eq dir_name [] then node_name else dir_name ++ codes "/" ++ node_name

-- What flattening ends with: a map, the exception of a collision, or a recursion that is deeper than
-- the fuel.
pub data Flattened : Type 0 where
  flattened : NodeMap → Flattened
  collision : Flattened
  too_deep : Flattened

-- Whether what stands at the path of a new file is another file.
abbrev pub file_collides : Option NodeMetaData → FileNode → Bool
file_collides none f = false
file_collides (some node) f = not (same_file node f)

-- The loop over the files.
unfoldable pub flatten_files : Text → List FileNode → NodeMap → Flattened
unfolding find_node emplace same_file
flatten_files dir_name [] map = flattened map
flatten_files dir_name (f ∷ rest) map =
    let path = gen_new_path dir_name f.name in
    let next =
      flatten_files dir_name rest (emplace map path (file_node f.digest f.is_executable)) in
    if file_collides (find_node map path) f then collision else next

abbrev pub symlink_collides : Option NodeMetaData → SymlinkNode → Bool
symlink_collides (some (symlink_node target)) s = not (text_eq target s.target)
symlink_collides _ s = false

-- The loop over the symlinks.
unfoldable pub flatten_symlinks : Text → List SymlinkNode → NodeMap → Flattened
unfolding find_node emplace text_eq
flatten_symlinks dir_name [] map = flattened map
flatten_symlinks dir_name (s ∷ rest) map =
    let path = gen_new_path dir_name s.name in
    let next = flatten_symlinks dir_name rest (emplace map path (symlink_node s.target)) in
    if symlink_collides (find_node map path) s then collision else next

abbrev pub and_then : Flattened → (NodeMap → Flattened) → Flattened
and_then (flattened map) f = f map
and_then collision f = collision
and_then too_deep f = too_deep

-- `digest_string_map`: `find` and `emplace`.
unfoldable pub find_blob : List (Digest × Text) → Digest → Option Text
find_blob [] digest = none
find_blob ((d, blob) ∷ rest) digest =
    let found = find_blob rest digest in if digest_eq d digest then some blob else found

-- The entries of a `digest_string_map` after these assignments: the last one of each digest.
unfoldable pub as_map : List (Digest × Text) → List (Digest × Text)
unfolding find_blob
as_map [] = []
as_map ((d, blob) ∷ rest) =
    let more = as_map rest in elim (find_blob rest d) [ none ↦ (d, blob) ∷ more | some _ ↦ more ]

module _ (serialize : Directory → Text) (parse : Text → Directory) (hash : Text → Digest) where
  -- The loop over the subdirectories; `descend` is the recursive call. A digest that is not found is
  -- skipped.
  unfoldable pub flatten_directories :
      (Text → Directory → NodeMap → Flattened)
      → List (Digest × Text)
      → Text
      → List DirectoryNode
      → NodeMap
      → Flattened
  unfolding emplace find_blob
  flatten_directories descend ds_map dir_name [] map = flattened map
  flatten_directories descend ds_map dir_name (n ∷ rest) map =
      let path = gen_new_path dir_name n.name in
      let placed = emplace map path (dir_node n.digest) in
      elim (find_blob ds_map n.digest) [
        | none ↦ flatten_directories descend ds_map dir_name rest placed
        | some blob ↦
            and_then (descend path (parse blob) placed)
              (flatten_directories descend ds_map dir_name rest)
      ]

  -- `buildFlattenedPath`, to a depth.
  unfoldable pub build_flattened_path :
      ℕ → List (Digest × Text) → Text → Directory → NodeMap → Flattened
  unfolding flatten_files flatten_symlinks flatten_directories
  build_flattened_path zero ds_map dir_name directory map = too_deep
  build_flattened_path (suc depth) ds_map dir_name directory map =
      and_then
        (and_then (flatten_files dir_name directory.files map)
          (flatten_symlinks dir_name directory.symlinks))
        (flatten_directories (build_flattened_path depth ds_map) ds_map dir_name
          directory.directories)

  -- `buildDigestDirectoryMap`
  unfoldable pub build_digest_directory_map :
      List Directory → List (Digest × Text) → List (Digest × Text)
  unfolding find_blob
  build_digest_directory_map [] ds_map = ds_map
  build_digest_directory_map (d ∷ rest) ds_map =
      let blob = serialize d in
      build_digest_directory_map rest (elim (find_blob ds_map (hash blob)) [
        | none ↦ (hash blob, blob) ∷ ds_map
        | some _ ↦ ds_map
      ])

  -- `addToNestedDirectory`
  abbrev pub add_to_nested_directory : Text → NodeMetaData → NestedDirectory → NestedDirectory
  add_to_nested_directory path (file_node d executable) =
      add (record { d_digest = d; d_executable = executable; d_mtime_set = false; d_mtime = 0 })
        path
  add_to_nested_directory path (symlink_node target) = add_symlink target path
  add_to_nested_directory path (dir_node d) = add_directory path

  unfoldable pub add_all : NodeMap → NestedDirectory → NestedDirectory
  unfolding add add_symlink add_directory
  add_all [] result = result
  add_all ((path, node) ∷ rest) result = add_all rest (add_to_nested_directory path node result)

  -- The digests of the new blobs that are not in the old map.
  unfoldable pub new_digests : List (Digest × Text) → List (Digest × Text) → List Digest
  unfolding find_blob
  new_digests ds_map [] = []
  new_digests ds_map ((d, blob) ∷ rest) =
      let more = new_digests ds_map rest in
      elim (find_blob ds_map d) [ none ↦ d ∷ more | some _ ↦ more ]

  -- How `createMergedDigest` ends: `false`, the `std::out_of_range` of `at(0)`, which it does not
  -- catch, too deep a tree, or `true` with the root digest, the new blobs and the merged directories.
  pub data Merge : Type 0 where
    failed : Merge
    out_of_range : Merge
    stuck : Merge
    merged : Digest → List (Digest × Text) → List Digest → Merge

  abbrev pub finish_merge : (NodeMap → NodeMap) → List (Digest × Text) → Flattened → Merge
  finish_merge walk ds_map (flattened map) =
      let (root, blobs) = to_digest serialize hash (add_all (walk map) empty) [] in
      merged root (as_map blobs) (new_digests ds_map (as_map blobs))
  finish_merge walk ds_map collision = failed
  finish_merge walk ds_map too_deep = stuck

  -- Both roots, one after the other, into an empty map.
  unfoldable pub flatten_both : ℕ → List (Digest × Text) → Directory → Directory → Flattened
  unfolding build_flattened_path
  flatten_both depth ds_map input template =
      and_then (build_flattened_path depth ds_map [] input [])
        (build_flattened_path depth ds_map [] template)

  -- `at(0)` throws on an empty tree; on the template it does so only where the input was flattened.
  abbrev pub template_missing : Flattened → Merge
  template_missing (flattened map) = out_of_range
  template_missing collision = failed
  template_missing too_deep = stuck

  -- `createMergedDigest`, with an empty `newDirectoryBlobs` to start with.
  unfoldable pub create_merged_digest :
      (NodeMap → NodeMap) → ℕ → List Directory → List Directory → Merge
  unfolding build_digest_directory_map flatten_both build_flattened_path add_all new_digests
      to_digest as_map
  create_merged_digest walk depth [] [] = failed
  create_merged_digest walk depth [] (t ∷ ts) = out_of_range
  create_merged_digest walk depth (i ∷ is) [] =
      template_missing (build_flattened_path depth (build_digest_directory_map (i ∷ is) []) [] i [])
  create_merged_digest walk depth (i ∷ is) (t ∷ ts) =
      let ds_map = build_digest_directory_map (t ∷ ts) (build_digest_directory_map (i ∷ is) []) in
      finish_merge walk ds_map (flatten_both depth ds_map i t)
