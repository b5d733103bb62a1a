-- ===== src/Merklize/Replay.antt =====
-- A `NestedDirectory` as a map from paths: what any calls of `add`, `addSymlink` and `addDirectory`
-- leave at each path.
pub mod Runs
use buildbox_common.Prelude.{
  ◌≡◌, refl, ap, ◌∙◌, inl, inr, Bool, true, false, ◌&&◌, List, [], ◌∷◌, Option, none, some, arith,
  if◌then◌else◌, Text, text_eq, text_eq→eq, text_eq_refl, Bool-cases,
}
use buildbox_common.Path.{cut, is_nil}
use buildbox_common.Path.Split.{split, split_after, split-cut}
use buildbox_common.Merklize.{
  File, NestedDirectory, nested, Subdirs, end, entry, empty, put, get_subdir, has_subdir,
  put_subdir, update_subdir, put_file, put_symlink, put_directory, at_path, add, add_symlink,
  add_directory_parts, add_directory,
}
use buildbox_common.Merklize.Adds.{
  find_in, find-put, get-put_subdir, route, routes_eq, put_at, at_path-route, same_path,
}

abbrev pub files_of : NestedDirectory → List (Text × File)
files_of (nested files symlinks subdirs) = files

abbrev pub symlinks_of : NestedDirectory → List (Text × Text)
symlinks_of (nested files symlinks subdirs) = symlinks

unfoldable pub subdir_of : NestedDirectory → Text → NestedDirectory
unfolding get_subdir
subdir_of (nested files symlinks subdirs) name = get_subdir subdirs name

subdir-update :
    (dir : NestedDirectory) (x y : Text) (f : NestedDirectory → NestedDirectory)
    → subdir_of (update_subdir dir x f) y
      ≡ (if text_eq x y then f (subdir_of dir x) else subdir_of dir y)
unfolding update_subdir subdir_of
subdir-update (nested files symlinks subdirs) x y f = get-put_subdir subdirs x _ y

get_subdir-missing :
    (subdirs : Subdirs) (name : Text)
    → has_subdir subdirs name ≡ false
    → get_subdir subdirs name ≡ empty
unfolding has_subdir get_subdir
get_subdir-missing end name h = refl
get_subdir-missing (entry n d rest) name h = ground (arith, get_subdir-missing rest name)

pub subdir-put_directory :
    (dir : NestedDirectory) (x y : Text) → subdir_of (put_directory dir x) y ≡ subdir_of dir y
unfolding put_directory subdir_of
subdir-put_directory (nested files symlinks subdirs) x y =
    elim (Bool-cases (has_subdir subdirs x)) [
      | inl e ↦ rw e
      | inr e ↦ rw e (
          get-put_subdir subdirs x empty y ∙ elim (Bool-cases (text_eq x y)) [
            | inl d ↦ let same = text_eq→eq x y d in ground (arith, get_subdir-missing subdirs x e)
            | inr d ↦ rw d
          ])
    ]

module _ {V : Type 0} (get : NestedDirectory → List (Text × V)) where
  -- What stands at the end of a route.
  unfoldable look_at : List Text → Text → NestedDirectory → Option V
  unfolding subdir_of find_in
  look_at [] last dir = find_in (get dir) last
  look_at (name ∷ rest) last dir = look_at rest last (subdir_of dir name)

  unfoldable pub look : NestedDirectory → Text → Option V
  unfolding look_at route
  look dir path = look_at (route (split path)).0 (route (split path)).1 dir

  module _
      (kept : (dir : NestedDirectory) (name : Text) (f : NestedDirectory → NestedDirectory)
        → get (update_subdir dir name f) ≡ get dir) where
    -- The last step puts a value.
    look-put_at :
        (at_last : NestedDirectory → Text → NestedDirectory) (v : V)
        → ((d : NestedDirectory) (p q : Text)
            → find_in (get (at_last d p)) q ≡ (if text_eq p q then some v else find_in (get d) q))
        → ((d : NestedDirectory) (p y : Text) → subdir_of (at_last d p) y ≡ subdir_of d y)
        → (ps : List Text) (p : Text) (qs : List Text) (q : Text) (dir : NestedDirectory)
        → look_at qs q (put_at at_last ps p dir)
          ≡ (if routes_eq ps qs && text_eq p q then some v else look_at qs q dir)
    unfolding look_at put_at routes_eq
    look-put_at at_last v h sub [] p [] q dir = h dir p q
    look-put_at at_last v h sub [] p (y ∷ qs) q dir = ap (look_at qs q) (sub dir p y)
    look-put_at at_last v h sub (x ∷ ps) p [] q dir =
        ap (λ m. find_in m q) (kept dir x (put_at at_last ps p))
    look-put_at at_last v h sub (x ∷ ps) p (y ∷ qs) q dir =
        ap (look_at qs q) (subdir-update dir x y (put_at at_last ps p))
        ∙ elim (Bool-cases (text_eq x y)) [
          | inl e ↦
              rw (e, text_eq→eq x y e) (look-put_at at_last v h sub ps p qs q (subdir_of dir y))
          | inr e ↦ rw e refl
        ]

    -- A change of a subdirectory that changes nothing that is looked at.
    look-update :
        (f : NestedDirectory → NestedDirectory) (x : Text)
        → ((qs : List Text) (q : Text) (d : NestedDirectory) → look_at qs q (f d) ≡ look_at qs q d)
        → (qs : List Text) (q : Text) (dir : NestedDirectory)
        → look_at qs q (update_subdir dir x f) ≡ look_at qs q dir
    unfolding look_at
    look-update f x h [] q dir = ap (λ m. find_in m q) (kept dir x f)
    look-update f x h (y ∷ qs) q dir =
        ap (look_at qs q) (subdir-update dir x y f) ∙ elim (Bool-cases (text_eq x y)) [
          | inl e ↦ rw (e, text_eq→eq x y e) (h qs q (subdir_of dir y))
          | inr e ↦ rw e refl
        ]

    -- The last step changes nothing that is looked at.
    look-keep_at :
        (at_last : NestedDirectory → Text → NestedDirectory)
        → ((d : NestedDirectory) (p : Text) → get (at_last d p) ≡ get d)
        → ((d : NestedDirectory) (p y : Text) → subdir_of (at_last d p) y ≡ subdir_of d y)
        → (ps : List Text) (p : Text) (qs : List Text) (q : Text) (dir : NestedDirectory)
        → look_at qs q (put_at at_last ps p dir) ≡ look_at qs q dir
    unfolding look_at put_at
    look-keep_at at_last h sub [] p [] q dir = ap (λ m. find_in m q) (h dir p)
    look-keep_at at_last h sub [] p (y ∷ qs) q dir = ap (look_at qs q) (sub dir p y)
    look-keep_at at_last h sub (x ∷ ps) p qs q dir =
        look-update (put_at at_last ps p) x (look-keep_at at_last h sub ps p) qs q dir

    look-parts :
        ((d : NestedDirectory) (p : Text) → get (put_directory d p) ≡ get d)
        → (parts qs : List Text) (q : Text) (dir : NestedDirectory)
        → look_at qs q (add_directory_parts parts dir) ≡ look_at qs q dir
    unfolding look_at add_directory_parts
    look-parts h [] qs q dir = refl
    look-parts h (name ∷ []) [] q dir = ap (λ m. find_in m q) (h dir name)
    look-parts h (name ∷ []) (y ∷ qs) q dir = ap (look_at qs q) (subdir-put_directory dir name y)
    look-parts h (name ∷ next ∷ rest) qs q dir =
        elim (Bool-cases (text_eq name [] && text_eq next [] && is_nil rest)) [
          | inl lone ↦ rw lone
          | inr more ↦ elim (Bool-cases (text_eq name [])) [
            | inl e ↦ rw (more, e) (look-parts h (next ∷ rest) qs q dir)
            | inr e ↦
                rw (more, e)
                  (look-update (add_directory_parts (next ∷ rest)) name (look-parts h (next ∷ rest))
                    qs q dir)
          ]
        ]

    pub look-add_path :
        (at_last : NestedDirectory → Text → NestedDirectory) (v : V)
        → ((d : NestedDirectory) (p q : Text)
            → find_in (get (at_last d p)) q ≡ (if text_eq p q then some v else find_in (get d) q))
        → ((d : NestedDirectory) (p y : Text) → subdir_of (at_last d p) y ≡ subdir_of d y)
        → (path other : Text) (dir : NestedDirectory)
        → look (at_path at_last (split path) dir) other
          ≡ (if same_path path other then some v else look dir other)
    unfolding look same_path
    look-add_path at_last v h sub path other dir =
        rw (split-cut path, at_path-route at_last (cut path).0 (split_after (cut path).1) dir)
          (look-put_at at_last v h sub _ _ _ _ dir)

    pub look-keep_path :
        (at_last : NestedDirectory → Text → NestedDirectory)
        → ((d : NestedDirectory) (p : Text) → get (at_last d p) ≡ get d)
        → ((d : NestedDirectory) (p y : Text) → subdir_of (at_last d p) y ≡ subdir_of d y)
        → (path other : Text) (dir : NestedDirectory)
        → look (at_path at_last (split path) dir) other ≡ look dir other
    unfolding look
    look-keep_path at_last h sub path other dir =
        rw (split-cut path, at_path-route at_last (cut path).0 (split_after (cut path).1) dir)
          (look-keep_at at_last h sub (route ((cut path).0 ∷ split_after (cut path).1)).0
            (route ((cut path).0 ∷ split_after (cut path).1)).1 (route (split other)).0
            (route (split other)).1 dir)

    pub look-directory :
        ((d : NestedDirectory) (p : Text) → get (put_directory d p) ≡ get d)
        → (path other : Text) (dir : NestedDirectory)
        → look (add_directory path dir) other ≡ look dir other
    unfolding look add_directory
    look-directory h path other dir =
        look-parts h (split path) (route (split other)).0 (route (split other)).1 dir
