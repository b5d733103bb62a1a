-- ===== src/MergeUtil/Depth.antt =====
-- The depth to which `buildFlattenedPath` goes is enough where the digests are ranked.
use buildbox_common.Prelude.{
  ℕ, zero, suc, ◌<◌, ◌≡◌, refl, inl, inr, Bool, true, false, List, [], ◌∷◌, some, arith, Text, All,
  Option-cases,
}
use buildbox_common.Digest.{Digest}
use buildbox_common.Merklize.Messages.{FileNode, SymlinkNode, DirectoryNode, Directory}
use buildbox_common.MergeUtil.{
  NodeMap, Flattened, flattened, collision, too_deep, and_then, flatten_files, flatten_symlinks,
  find_blob, emplace, file_node, dir_node, symlink_node, gen_new_path, flatten_directories,
  build_flattened_path,
}

abbrev pub is_too_deep : Flattened → Bool
is_too_deep (flattened m) = false
is_too_deep collision = false
is_too_deep too_deep = true

and_then_ends :
    (r : Flattened) (f : NodeMap → Flattened)
    → is_too_deep r ≡ false
    → ((m : NodeMap) → is_too_deep (f m) ≡ false)
    → is_too_deep (and_then r f) ≡ false
and_then_ends (flattened m) f h k = k m
and_then_ends collision f h k = refl
and_then_ends too_deep f h k = cc

flatten_files_ends :
    (dir_name : Text) (fs : List FileNode) (m : NodeMap)
    → is_too_deep (flatten_files dir_name fs m) ≡ false
unfolding flatten_files
flatten_files_ends dir_name [] m = refl
flatten_files_ends dir_name (f ∷ rest) m = ground (
  arith,
  flatten_files_ends dir_name rest
      (emplace m (gen_new_path dir_name f.name) (file_node f.digest f.is_executable)),
)

flatten_symlinks_ends :
    (dir_name : Text) (ss : List SymlinkNode) (m : NodeMap)
    → is_too_deep (flatten_symlinks dir_name ss m) ≡ false
unfolding flatten_symlinks
flatten_symlinks_ends dir_name [] m = refl
flatten_symlinks_ends dir_name (s ∷ rest) m = ground (
  arith,
  flatten_symlinks_ends dir_name rest
      (emplace m (gen_new_path dir_name s.name) (symlink_node s.target)),
)

module _ (serialize : Directory → Text) (parse : Text → Directory) (hash : Text → Digest)
    (ds_map : List (Digest × Text)) (rank : Digest → ℕ) where
  -- The subdirectories of the directory have digests of a lower rank.
  abbrev pub IsBelow : ℕ → Directory → Type 0
  IsBelow depth d = All (λ (n : DirectoryNode). rank n.digest < depth) d.directories

  IsBelow-weaken :
      (a b : ℕ) (ns : List DirectoryNode)
      → a < suc b
      → All (λ (n : DirectoryNode). rank n.digest < a) ns
      → All (λ (n : DirectoryNode). rank n.digest < b) ns
  IsBelow-weaken a b [] k h = tt
  IsBelow-weaken a b (n ∷ ns) k h = (omega (arith, h.0), IsBelow-weaken a b ns k h.1)

  flatten_directories_ends :
      (depth : ℕ) (descend : Text → Directory → NodeMap → Flattened)
      → ((d : Digest) (blob : Text)
          → rank d < depth
          → find_blob ds_map d ≡ some blob
          → (p : Text) (m : NodeMap) → is_too_deep (descend p (parse blob) m) ≡ false)
      → (dir_name : Text) (ns : List DirectoryNode) (m : NodeMap)
      → All (λ (n : DirectoryNode). rank n.digest < depth) ns
      → is_too_deep (flatten_directories serialize parse hash descend ds_map dir_name ns m) ≡ false
  unfolding flatten_directories
  flatten_directories_ends depth descend below dir_name [] m h = refl
  flatten_directories_ends depth descend below dir_name (n ∷ rest) m h =
      let path = gen_new_path dir_name n.name in
      let placed = emplace m path (dir_node n.digest) in
      elim (Option-cases (find_blob ds_map n.digest)) [
        | inl missing ↦
            rw (missing, flatten_directories)
              (flatten_directories_ends depth descend below dir_name rest placed h.1)
        | inr (blob, found) ↦
            rw (found, flatten_directories)
              (and_then_ends (descend path (parse blob) placed) _
                (below n.digest blob h.0 found path placed)
                (λ m'. flatten_directories_ends depth descend below dir_name rest m' h.1))
      ]

  -- Where each directory that is found by its digest has subdirectories of a lower rank only, a depth
  -- above the ranks of a directory's subdirectories is enough: flattening it ends with a map or with
  -- a collision.
  pub build_flattened_path_ends :
      (ranked : (d : Digest) (blob : Text)
        → find_blob ds_map d ≡ some blob
        → IsBelow (rank d) (parse blob))
      (depth : ℕ) (dir_name : Text) (d : Directory) (m : NodeMap)
      → IsBelow depth d
      → is_too_deep (build_flattened_path serialize parse hash (suc depth) ds_map dir_name d m)
        ≡ false
  unfolding build_flattened_path
  build_flattened_path_ends ranked zero dir_name d m h =
      and_then_ends _ _
        (and_then_ends _ _ (flatten_files_ends dir_name d.files m)
          (λ m'. flatten_symlinks_ends dir_name d.symlinks m'))
        (λ m'.
          flatten_directories_ends 0 (build_flattened_path serialize parse hash 0 ds_map)
            (λ e blob low found p m''. ground (arith, low)) dir_name d.directories m' h)
  build_flattened_path_ends ranked (suc depth) dir_name d m h =
      and_then_ends _ _
        (and_then_ends _ _ (flatten_files_ends dir_name d.files m)
          (λ m'. flatten_symlinks_ends dir_name d.symlinks m'))
        (λ m'.
          flatten_directories_ends (suc depth)
            (build_flattened_path serialize parse hash (suc depth) ds_map)
            (λ e blob low found p m''.
              build_flattened_path_ends ranked depth p (parse blob) m''
                (IsBelow-weaken (rank e) depth (parse blob).directories low (ranked e blob found)))
            dir_name d.directories m' h)
