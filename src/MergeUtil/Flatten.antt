-- ===== src/MergeUtil/Flatten.antt =====
-- What stands in the map after both roots are flattened, and why two files that differ do not merge.
use buildbox_common.Prelude.{
  ℕ, zero, suc, ◌≡◌, refl, sym, ap, subst, ◌∙◌, inl, inr, Bool, true, false, not, ◌&&◌, ◌||◌, List,
  [], ◌∷◌, none, some, if◌then◌else◌, arith, Text, text_eq, text_eq→eq, text_eq_refl, Bool-cases,
  Option-cases, All,
}
use buildbox_common.Digest.{Digest, digest_eq, digest_eq→eq, digest_eq_refl}
use buildbox_common.Merklize.Messages.{FileNode, SymlinkNode, DirectoryNode, Directory}
use buildbox_common.MergeUtil.{
  NodeMetaData, file_node, symlink_node, dir_node, same_file, digest_of, is_executable, NodeMap,
  find_node, emplace, gen_new_path, Flattened, flattened, collision, too_deep, file_collides,
  symlink_collides, flatten_files, flatten_symlinks, and_then, find_blob, flatten_directories,
  build_flattened_path, flatten_both, create_merged_digest, merged, finish_merge, bool_eq,
}

-- What the first map holds at a path, the second holds there too.
abbrev pub Keeps : NodeMap → NodeMap → Type 0
Keeps m m' = (k : Text) (n : NodeMetaData) → find_node m k ≡ some n → find_node m' k ≡ some n

emplace-Keeps : (m : NodeMap) (path : Text) (x : NodeMetaData) → Keeps m (emplace m path x)
unfolding emplace find_node
emplace-Keeps m path x k n h = elim (Option-cases (find_node m path)) [
  | inr (y, e) ↦ rw (e, emplace) h
  | inl e ↦
      rw (e, emplace)
        (elim (Bool-cases (text_eq path k)) [
          | inl d ↦ let same = text_eq→eq path k d in cc
          | inr d ↦ ground (arith, h)
        ])
]

-- A file just placed stands at its path, or one that is the same does.
Holds : NodeMap → Text → FileNode → Type 0
Holds m dir_name f =
    (n : NodeMetaData) × (find_node m (gen_new_path dir_name f.name) ≡ some n)
    × (same_file n f ≡ true)

after :
    (r : Flattened) (f : NodeMap → Flattened) (m' : NodeMap)
    → and_then r f ≡ flattened m'
    → (m : NodeMap) × (r ≡ flattened m) × (f m ≡ flattened m')
after (flattened m) f m' h = (m, refl, h)
after collision f m' h = cc
after too_deep f m' h = cc

abbrev map_or : NodeMap → Flattened → NodeMap
map_or m (flattened m') = m'
map_or m _ = m

flattened-injective : (m m' : NodeMap) → flattened m ≡ flattened m' → m ≡ m'
flattened-injective m m' h = ap (map_or m) h

unless_collides :
    (c : Bool) (r : Flattened) (m : NodeMap)
    → (if c then collision else r) ≡ flattened m
    → (c ≡ false) × (r ≡ flattened m)
unless_collides true r m h = cc
unless_collides false r m h = (refl, h)

flatten_files-Keeps :
    (dir_name : Text) (fs : List FileNode) (m m' : NodeMap)
    → flatten_files dir_name fs m ≡ flattened m'
    → Keeps m m'
unfolding flatten_files
flatten_files-Keeps dir_name [] m m' h k n e =
    subst (λ x. find_node x k ≡ some n) (flattened-injective m m' h) e
flatten_files-Keeps dir_name (f ∷ rest) m m' h k n e =
    let path = gen_new_path dir_name f.name in
    let x = file_node f.digest f.is_executable in
    let (_, go) = unless_collides (file_collides (find_node m path) f) _ m' h in
    flatten_files-Keeps dir_name rest (emplace m path x) m' go k n (emplace-Keeps m path x k n e)

flatten_symlinks-Keeps :
    (dir_name : Text) (ss : List SymlinkNode) (m m' : NodeMap)
    → flatten_symlinks dir_name ss m ≡ flattened m'
    → Keeps m m'
unfolding flatten_symlinks
flatten_symlinks-Keeps dir_name [] m m' h k n e =
    subst (λ x. find_node x k ≡ some n) (flattened-injective m m' h) e
flatten_symlinks-Keeps dir_name (s ∷ rest) m m' h k n e =
    let path = gen_new_path dir_name s.name in
    let x = symlink_node s.target in
    let (_, go) = unless_collides (symlink_collides (find_node m path) s) _ m' h in
    flatten_symlinks-Keeps dir_name rest (emplace m path x) m' go k n (emplace-Keeps m path x k n e)

-- A file that was placed is the same as itself.
same_file_refl : (f : FileNode) → same_file (file_node f.digest f.is_executable) f ≡ true
unfolding same_file digest_eq
same_file_refl f = ground (arith, text_eq_refl f.digest.hash_other)

emplace-new :
    (m : NodeMap) (path : Text) (x : NodeMetaData)
    → find_node m path ≡ none
    → find_node (emplace m path x) path ≡ some x
unfolding emplace find_node
emplace-new m path x e = rw (e, emplace) (ground (arith, text_eq_refl path))

placed-Holds :
    (dir_name : Text) (f : FileNode) (m : NodeMap)
    → file_collides (find_node m (gen_new_path dir_name f.name)) f ≡ false
    → Holds
        (emplace m (gen_new_path dir_name f.name) (file_node f.digest f.is_executable))
        dir_name
        f
unfolding Holds
placed-Holds dir_name f m h = elim (Option-cases (find_node m (gen_new_path dir_name f.name))) [
  | inl e ↦
      let x = file_node f.digest f.is_executable in
      (x, emplace-new m (gen_new_path dir_name f.name) x e, same_file_refl f)
  | inr (y, e) ↦
      let path = gen_new_path dir_name f.name in
      let same : not (same_file y f) ≡ false = ap (λ o. file_collides o f) (sym e) ∙ h in
      (y, emplace-Keeps m path (file_node f.digest f.is_executable) path y e, ground arith)
]

Keeps-Holds :
    (m m' : NodeMap) (dir_name : Text) (f : FileNode)
    → Keeps m m'
    → Holds m dir_name f
    → Holds m' dir_name f
unfolding Holds
Keeps-Holds m m' dir_name f k (n, e, s) = (n, k (gen_new_path dir_name f.name) n e, s)

flatten_files-Holds :
    (dir_name : Text) (fs : List FileNode) (m m' : NodeMap)
    → flatten_files dir_name fs m ≡ flattened m'
    → All (Holds m' dir_name) fs
unfolding flatten_files
flatten_files-Holds dir_name [] m m' h = tt
flatten_files-Holds dir_name (f ∷ rest) m m' h =
    let path = gen_new_path dir_name f.name in
    let x = file_node f.digest f.is_executable in
    let (free, go) = unless_collides (file_collides (find_node m path) f) _ m' h in
    (
      Keeps-Holds (emplace m path x) m' dir_name f
          (flatten_files-Keeps dir_name rest (emplace m path x) m' go)
          (placed-Holds dir_name f m free),
      flatten_files-Holds dir_name rest (emplace m path x) m' go,
    )

All-Keeps :
    (m m' : NodeMap) (dir_name : Text) (fs : List FileNode)
    → Keeps m m'
    → All (Holds m dir_name) fs
    → All (Holds m' dir_name) fs
All-Keeps m m' dir_name [] k h = tt
All-Keeps m m' dir_name (f ∷ rest) k h =
    (Keeps-Holds m m' dir_name f k h.0, All-Keeps m m' dir_name rest k h.1)

-- Two files of the same name have the same digest and flag.
abbrev pub agree : FileNode → FileNode → Bool
agree f g =
    not (text_eq f.name g.name)
    || digest_eq f.digest g.digest && bool_eq f.is_executable g.is_executable

bool_eq_two : (a b c : Bool) → bool_eq a b ≡ true → bool_eq a c ≡ true → bool_eq b c ≡ true
bool_eq_two true b c h k = ground arith
bool_eq_two false b c h k = ground arith

and_parts : (a b : Bool) → a && b ≡ true → (a ≡ true) × (b ≡ true)
and_parts true b h = (refl, h)
and_parts false b h = cc

same_two :
    (n : NodeMetaData) (f g : FileNode)
    → same_file n f ≡ true
    → same_file n g ≡ true
    → digest_eq f.digest g.digest && bool_eq f.is_executable g.is_executable ≡ true
unfolding same_file
same_two n f g s s' =
    let (p, a) = and_parts _ _ s in
    let (q, b) = and_parts _ _ s' in
    let same : f.digest ≡ g.digest =
      sym (digest_eq→eq (digest_of n) f.digest p) ∙ digest_eq→eq (digest_of n) g.digest q in
    rw (subst (λ d. digest_eq f.digest d ≡ true) same (digest_eq_refl f.digest))
      (bool_eq_two (is_executable n) f.is_executable g.is_executable a b)

some-injective : (x y : NodeMetaData) → some x ≡ some y → x ≡ y
some-injective x y h = ap (λ o. elim o [ none ↦ x | some z ↦ z ]) h

Holds-agree : (m : NodeMap) (f g : FileNode) → Holds m [] f → Holds m [] g → agree f g ≡ true
unfolding Holds
Holds-agree m f g (n, e, s) (n', e', s') = elim (Bool-cases (text_eq f.name g.name)) [
  | inr d ↦ rw d refl
  | inl d ↦
      let name = text_eq→eq f.name g.name d in
      let one : n ≡ n' =
        some-injective n n' (sym e ∙ (ap (λ k. find_node m (gen_new_path [] k)) name ∙ e')) in
      rw d (same_two n' f g (subst (λ x. same_file x f ≡ true) one s) s')
]

abbrev pub Agree : List FileNode → List FileNode → Type 0
Agree fs gs = All (λ f. All (λ g. agree f g ≡ true) gs) fs

agree_each :
    (m : NodeMap) (f : FileNode) (gs : List FileNode)
    → Holds m [] f
    → All (Holds m []) gs
    → All (λ g. agree f g ≡ true) gs
agree_each m f [] h k = tt
agree_each m f (g ∷ gs) h k = (Holds-agree m f g h k.0, agree_each m f gs h k.1)

All-Agree :
    (m : NodeMap) (fs gs : List FileNode) → All (Holds m []) fs → All (Holds m []) gs → Agree fs gs
All-Agree m [] gs h k = tt
All-Agree m (f ∷ fs) gs h k = (agree_each m f gs h.0 k, All-Agree m fs gs h.1 k)

module _ (serialize : Directory → Text) (parse : Text → Directory) (hash : Text → Digest) where
  flatten_directories-Keeps :
      (descend : Text → Directory → NodeMap → Flattened)
      → ((p : Text) (d : Directory) (m m' : NodeMap) → descend p d m ≡ flattened m' → Keeps m m')
      → (ds_map : List (Digest × Text)) (dir_name : Text) (ns : List DirectoryNode) (m m' : NodeMap)
      → flatten_directories serialize parse hash descend ds_map dir_name ns m ≡ flattened m'
      → Keeps m m'
  unfolding flatten_directories
  flatten_directories-Keeps descend below ds_map dir_name [] m m' h k n e =
      subst (λ x. find_node x k ≡ some n) (flattened-injective m m' h) e
  flatten_directories-Keeps descend below ds_map dir_name (s ∷ rest) m m' h k n e =
      let path = gen_new_path dir_name s.name in
      let placed = emplace m path (dir_node s.digest) in
      let kept = emplace-Keeps m path (dir_node s.digest) k n e in
      elim (Option-cases (find_blob ds_map s.digest)) [
        | inl missing ↦
            let skipped = rw (missing, flatten_directories) at h in
            flatten_directories-Keeps descend below ds_map dir_name rest placed m' skipped k n kept
        | inr (blob, found) ↦
            let (m1, first, last) = after _ _ m' (rw (found, flatten_directories) at h) in
            flatten_directories-Keeps descend below ds_map dir_name rest m1 m' last k n
              (below path (parse blob) placed m1 first k n kept)
      ]

  build-Keeps :
      (depth : ℕ) (ds_map : List (Digest × Text)) (dir_name : Text) (d : Directory) (m m' : NodeMap)
      → build_flattened_path serialize parse hash depth ds_map dir_name d m ≡ flattened m'
      → Keeps m m'
  unfolding build_flattened_path
  build-Keeps zero ds_map dir_name d m m' h k n e = cc
  build-Keeps (suc depth) ds_map dir_name d m m' h k n e =
      let (m2, first, last) = after _ _ m' h in
      let (m1, files, links) = after _ _ m2 first in
      flatten_directories-Keeps (build_flattened_path serialize parse hash depth ds_map)
        (λ p d' a b. build-Keeps depth ds_map p d' a b) ds_map dir_name d.directories m2 m' last k n
        (flatten_symlinks-Keeps dir_name d.symlinks m1 m2 links k n
          (flatten_files-Keeps dir_name d.files m m1 files k n e))

  build-Holds :
      (depth : ℕ) (ds_map : List (Digest × Text)) (dir_name : Text) (d : Directory) (m m' : NodeMap)
      → build_flattened_path serialize parse hash depth ds_map dir_name d m ≡ flattened m'
      → All (Holds m' dir_name) d.files
  unfolding build_flattened_path
  build-Holds zero ds_map dir_name d m m' h = cc
  build-Holds (suc depth) ds_map dir_name d m m' h =
      let (m2, first, last) = after _ _ m' h in
      let (m1, files, links) = after _ _ m2 first in
      All-Keeps m1 m' dir_name d.files
        (λ k n e.
          flatten_directories-Keeps (build_flattened_path serialize parse hash depth ds_map)
            (λ p d' a b. build-Keeps depth ds_map p d' a b) ds_map dir_name d.directories m2 m' last
            k n (flatten_symlinks-Keeps dir_name d.symlinks m1 m2 links k n e))
        (flatten_files-Holds dir_name d.files m m1 files)

  both-Agree :
      (depth : ℕ) (ds_map : List (Digest × Text)) (input template : Directory) (m : NodeMap)
      → flatten_both serialize parse hash depth ds_map input template ≡ flattened m
      → Agree input.files template.files
  unfolding flatten_both
  both-Agree depth ds_map input template m h =
      let (m1, first, last) = after _ _ m h in
      All-Agree m input.files template.files
        (All-Keeps m1 m [] input.files (build-Keeps depth ds_map [] template m1 m last)
          (build-Holds depth ds_map [] input [] m1 first))
        (build-Holds depth ds_map [] template m1 m last)

  finished :
      (walk : NodeMap → NodeMap) (ds_map : List (Digest × Text)) (r : Flattened) (root : Digest)
      (blobs : List (Digest × Text)) (new : List Digest)
      → finish_merge serialize parse hash walk ds_map r ≡ merged root blobs new
      → (m : NodeMap) × (r ≡ flattened m)
  finished walk ds_map (flattened m) root blobs new h = (m, refl)
  finished walk ds_map collision root blobs new h = cc
  finished walk ds_map too_deep root blobs new h = cc

  -- Where `createMergedDigest` returns true, no file of the root of the input and file of the root of
  -- the template have the same name but different digests or executable flags: a merge never picks
  -- one of two such files.
  pub create_merged_digest-Agree :
      (walk : NodeMap → NodeMap) (depth : ℕ) (i t : Directory) (is ts : List Directory)
      (root : Digest) (blobs : List (Digest × Text)) (new : List Digest)
      → create_merged_digest serialize parse hash walk depth (i ∷ is) (t ∷ ts)
        ≡ merged root blobs new
      → Agree i.files t.files
  unfolding create_merged_digest
  create_merged_digest-Agree walk depth i t is ts root blobs new h =
      let (m, e) = finished walk _ _ root blobs new h in both-Agree depth _ i t m e
