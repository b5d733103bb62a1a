-- ===== src/Merklize/Messages.antt =====
-- `to_digest` and `to_tree` of `NestedDirectory`
-- (buildbox-common/buildboxcommon/buildboxcommon_merklize.cpp), and the messages of
-- remote_execution.proto that they fill.
use buildbox_common.Prelude.{
  ℕ, ◌≡◌, refl, sym, ap, ◌∙◌, Bool, List, [], ◌∷◌, ◌++◌, append_assoc, append-nil, map, Option,
  none, some, if◌then◌else◌, Text,
}
use mathlib.Core.List.{map-append}
use buildbox_common.Digest.{Digest}
use buildbox_common.Merklize.{File, NestedDirectory, nested, Subdirs, end, entry}

-- `mtime` stands for the `Timestamp` that `make_timestamp` makes of it.
pub record FileNode : Type 0 where
  pub name : Text
  pub digest : Digest
  pub is_executable : Bool
  pub mtime : Option ℕ

pub record SymlinkNode : Type 0 where
  pub name : Text
  pub target : Text

pub record DirectoryNode : Type 0 where
  pub name : Text
  pub digest : Digest

-- The message `Directory`.
pub record Directory : Type 0 where
  pub files : List FileNode
  pub symlinks : List SymlinkNode
  pub directories : List DirectoryNode

-- The message `Tree`.
pub record Tree : Type 0 where
  pub root : Directory
  pub children : List Directory

-- `to_filenode`
abbrev pub to_filenode : Text × File → FileNode
to_filenode (name, file) = record {
  name = name;
  digest = file.d_digest;
  is_executable = file.d_executable;
  mtime = if file.d_mtime_set then some file.d_mtime else none;
}

abbrev pub to_symlinknode : Text × Text → SymlinkNode
to_symlinknode (name, target) = record { name = name; target = target }

-- `serialize` is protobuf's `SerializeAsString`, and `hash` is `CASHash::hash`.
module _ (serialize : Directory → Text) (hash : Text → Digest) where
  -- `make_digest` of a message.
  abbrev pub make_digest : Directory → Digest
  make_digest d = hash (serialize d)

  -- `to_digest`: the digest, and the assignments that were made to `digestMap`, the last one last.
  unfoldable mutual
    pub to_digest : NestedDirectory → List (Digest × Text) → Digest × List (Digest × Text)
    to_digest (nested files symlinks subdirs) digest_map =
        let (nodes, filled) = subdirs_to_digest subdirs digest_map in
        let message : Directory = record {
          files = map to_filenode files;
          symlinks = map to_symlinknode symlinks;
          directories = nodes;
        } in
        let blob = serialize message in
        let digest = hash blob in (digest, filled ++ ((digest, blob) ∷ []))

    pub subdirs_to_digest :
        Subdirs → List (Digest × Text) → List DirectoryNode × List (Digest × Text)
    subdirs_to_digest end digest_map = ([], digest_map)
    subdirs_to_digest (entry name dir rest) digest_map =
        let (digest, filled) = to_digest dir digest_map in
        let (nodes, all) = subdirs_to_digest rest filled in
        let node : DirectoryNode = record { name = name; digest = digest } in (node ∷ nodes, all)

  -- `to_tree`
  unfoldable mutual
    pub to_tree : NestedDirectory → Tree
    to_tree (nested files symlinks subdirs) =
        let (nodes, children) = subdirs_to_tree subdirs in
        let root : Directory = record {
          files = map to_filenode files;
          symlinks = map to_symlinknode symlinks;
          directories = nodes;
        } in
        record { root = root; children = children }

    pub subdirs_to_tree : Subdirs → List DirectoryNode × List Directory
    subdirs_to_tree end = ([], [])
    subdirs_to_tree (entry name dir rest) =
        let subtree = to_tree dir in
        let (nodes, children) = subdirs_to_tree rest in
        let node : DirectoryNode = record { name = name; digest = make_digest subtree.root } in
        (node ∷ nodes, (subtree.children ++ (subtree.root ∷ [])) ++ children)

  -- The entry of `digestMap` for a directory.
  abbrev pub entry_of : Directory → Digest × Text
  entry_of d = (make_digest d, serialize d)

  -- The directories of a tree, the root last.
  abbrev pub all_directories : Tree → List Directory
  all_directories t = t.children ++ (t.root ∷ [])

  subdirs_entry :
      (name : Text) (dir : NestedDirectory) (rest : Subdirs) (m : List (Digest × Text))
      → to_digest dir m
        ≡ (make_digest (to_tree dir).root, m ++ map entry_of (all_directories (to_tree dir)))
      → ((m' : List (Digest × Text))
          → subdirs_to_digest rest m'
            ≡ ((subdirs_to_tree rest).0, m' ++ map entry_of (subdirs_to_tree rest).1))
      → subdirs_to_digest (entry name dir rest) m ≡ (
        (subdirs_to_tree (entry name dir rest)).0,
        m ++ map entry_of (subdirs_to_tree (entry name dir rest)).1,
      )
  unfolding to_digest to_tree
  subdirs_entry name dir rest m first more =
      rw (first, more (m ++ map entry_of (all_directories (to_tree dir))))
        (ap (λ x. ((subdirs_to_tree (entry name dir rest)).0, x))
          (append_assoc m (map entry_of (all_directories (to_tree dir)))
              (map entry_of (subdirs_to_tree rest).1)
            ∙ ap (λ x. m ++ x)
                (sym
                  (map-append entry_of (all_directories (to_tree dir)) (subdirs_to_tree rest).1))))

  mutual
    unfolding to_digest to_tree

    to_digest_all :
        (dir : NestedDirectory) (m : List (Digest × Text))
        → to_digest dir m
          ≡ (make_digest (to_tree dir).root, m ++ map entry_of (all_directories (to_tree dir)))
    to_digest_all (nested files symlinks subdirs) m = rw (subdirs_to_digest_all subdirs m) (
        ap (λ x. (make_digest (to_tree (nested files symlinks subdirs)).root, x))
          (append_assoc m (map entry_of (subdirs_to_tree subdirs).1) _
            ∙ ap (λ x. m ++ x) (sym (map-append entry_of (subdirs_to_tree subdirs).1 _))))

    subdirs_to_digest_all :
        (ds : Subdirs) (m : List (Digest × Text))
        → subdirs_to_digest ds m
          ≡ ((subdirs_to_tree ds).0, m ++ map entry_of (subdirs_to_tree ds).1)
    subdirs_to_digest_all end m = rw (append-nil m) refl
    subdirs_to_digest_all (entry name dir rest) m =
        subdirs_entry name dir rest m (to_digest_all dir m) (λ m'. subdirs_to_digest_all rest m')

  -- The digest is that of the root of `to_tree`, and to `digestMap` are added, in this order, the
  -- blobs of the children of that tree and of its root under their digests, and nothing else.
  pub to_digest-to_tree :
      (dir : NestedDirectory) (digest_map : List (Digest × Text))
      → to_digest dir digest_map ≡ (
        make_digest (to_tree dir).root,
        digest_map ++ map entry_of (all_directories (to_tree dir)),
      )
  to_digest-to_tree = to_digest_all
